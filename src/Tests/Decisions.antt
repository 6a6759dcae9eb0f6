-- ===== src/Tests/Decisions.antt =====
-- The theorems about the agent, its runs, the search and the users, at concrete inputs.
use agentdesk_ai.Base.{
  ℕ, ◌≡◌, ◌↔◌, ◌≤◌, ◌<◌, ◌⊎◌, refl, true, false, some, none, [], ◌∷◌, String, length, List, All,
  map, is_space, arith, if◌then◌else◌,
}
use agentdesk_ai.Models.Ticket.{can_transition, waiting_approval}
use agentdesk_ai.Models.Records.{AgentRunStatus, admin, operator}
use agentdesk_ai.Session.{invalid_transition, message_of, err}
use agentdesk_ai.Session.Rows.{get, user_row, run_row, ticket_row}
use agentdesk_ai.Agent.State.{AgentState}
use agentdesk_ai.Agent.Nodes.{grounding}
use agentdesk_ai.Agent.Nodes.Laws.{grounding-le_one}
use agentdesk_ai.Retrieval.{hits_of}
use agentdesk_ai.Retrieval.Laws.{IsHit, hits_of_lem}
use agentdesk_ai.Runs.Service.{complete_run, try_run, execute_run}
use agentdesk_ai.Runs.Record.{initial_state}
use agentdesk_ai.Runs.Service.Laws.{complete_run-refused, execute_run-fails}
use agentdesk_ai.Auth.Tokens.{decode_token}
use agentdesk_ai.Auth.Access.{has_role, require_role, subject_of, get_current_user}
use agentdesk_ai.Api.Routes.{current_user}
use agentdesk_ai.Api.Routes.Laws.{current_user_lem}
use agentdesk_ai.Agent.Nodes.{join}
use agentdesk_ai.Documents.{chunk_text, words_of}
use agentdesk_ai.Documents.Laws.{rejoin, chunk_text_lem}
use agentdesk_ai.Tests.World.{world, ada, start, tables, waiting, with_run, begun}

-- A confident draft for the ticket that waits already.
abbrev confident : AgentState ℕ
confident = record (initial_state waiting) { outcome = some "waiting_approval" }

complete_run-refused_example :
    let (r, t) = complete_run world 8 waiting confident none with_run in
    (r ≡ err (invalid_transition waiting_approval waiting_approval))
    × (t.committed ≡ with_run.committed)
unfolding can_transition
complete_run-refused_example = complete_run-refused world 8 waiting confident none with_run refl

execute_run-fails_example :
    let before = (try_run world 8 waiting with_run).1 in
    let exc = invalid_transition waiting_approval waiting_approval in
    let (r, t) = execute_run world 8 with_run in
    (r ≡ err exc)
    × (get 8 t.committed.agent_runs
        ≡ some (record begun {
          status = AgentRunStatus.failed;
          error = some (message_of exc);
          finished_at = some before.now;
        }))
    × (t.committed.tickets ≡ before.committed.tickets)
    × (t.committed.ticket_events ≡ before.committed.ticket_events)
unfolding try_run agentdesk_ai.Retrieval.search_chunks agentdesk_ai.Base.Order.order_by
execute_run-fails_example =
    execute_run-fails world 8 with_run begun waiting
      (invalid_transition waiting_approval waiting_approval) begun refl refl refl refl

grounding-le_one_example :
    world.floats.le (grounding world [] "Use the reset link.") (world.floats.literal 1 0) ≡ true
grounding-le_one_example = grounding-le_one world [] "Use the reset link." total refl
  where
    total : (x y : ℕ) → (world.floats.le x y ≡ true) ⊎ (world.floats.le y x ≡ true)
    total x y = ground arith

hits_of_lem_example :
    All (IsHit world 1 300000) (hits_of world 300000 4 1 tables (1000000 ∷ []))
    × (length (hits_of world 300000 4 1 tables (1000000 ∷ [])) ≤ 4)
hits_of_lem_example = hits_of_lem world 300000 4 1 tables (1000000 ∷ [])

current_user_lem_example :
    (token : String) × (key : ℕ) × (some "access" ≡ some token)
    × (subject_of world (decode_token world 200 token "access") ≡ some key)
    × (get key start.working.users ≡ some ada)
    × (ada.is_active ≡ true)
    × (has_role (admin ∷ operator ∷ []) admin ≡ true)
unfolding current_user agentdesk_ai.Auth.Access.get_current_user
    agentdesk_ai.Auth.Access.require_role
current_user_lem_example =
    current_user_lem world (some "access") admin (operator ∷ []) start ada refl

chunk_text_lem_example :
    (ws : List (List String)) × (chunk_text "how to reset a password" 3 1 ≡ map (join " ") ws)
    × (rejoin 2 ws ≡ words_of "how to reset a password")
    × All (λ w. length w ≤ 3) ws
chunk_text_lem_example = chunk_text_lem "how to reset a password" 3 1 (omega arith)

chunks : chunk_text "how to reset a password" 3 1 ≡ "how to reset" ∷ "reset a password" ∷ []
unfolding chunk_text is_space join
chunks = refl
