-- ===== src/Tests/Runs.antt =====
-- A run of the agent from its ticket to the approval, at a concrete input.
use agentdesk_ai.Base.{ℕ, ◌≡◌, refl, Option, some, none, List, [], ◌∷◌}
use agentdesk_ai.Models.Ticket.{Ticket, TicketPriority, new, can_transition}
use agentdesk_ai.Models.Records.{AgentRun}
use agentdesk_ai.Session.{Session, Result, ok, err}
use agentdesk_ai.Session.Rows.{get, ticket_row, run_row}
use agentdesk_ai.Agent.State.{AgentState}
use agentdesk_ai.Agent.Nodes.{run_workflow}
use agentdesk_ai.Runs.Service.{execute_run}
use agentdesk_ai.Runs.Record.{initial_state, new_run, suggested}
use agentdesk_ai.Runs.Service.Completion.{
  recorded, Completed, awaiting, finished, execute_run-waits,
}
use agentdesk_ai.Runs.Service.Escalation.{handed_over, execute_run-escalates}
use agentdesk_ai.Tests.World.{world, waiting, tables, start}

abbrev fresh : Ticket
fresh = record waiting { title = "Password reset"; status = new; draft_response = none }

abbrev pending_run : AgentRun ℕ
pending_run = new_run 8 40 fresh

abbrev asked : Session ℕ
asked = record start {
  committed = record tables { tickets = fresh ∷ []; agent_runs = pending_run ∷ [] };
  working = record tables { tickets = fresh ∷ []; agent_runs = pending_run ∷ [] };
}

abbrev state_of : Result (AgentState ℕ) → AgentState ℕ
state_of (ok state) = state
state_of (err e) = initial_state fresh

-- What the workflow finds out about the ticket.
abbrev pub found_out : AgentState ℕ
found_out = state_of (run_workflow world (initial_state fresh) asked).0

abbrev priority_of : Result (Option TicketPriority) → Option TicketPriority
priority_of (ok p) = p
priority_of (err e) = none

abbrev advised : Option TicketPriority
advised = priority_of (suggested {F = ℕ} found_out.suggested_priority asked).0

execute_run-waits_example :
    let (r, t) = execute_run world 8 asked in
    Completed world 8 fresh
      (awaiting world found_out advised 200 fresh)
      (finished world 200 (recorded world found_out pending_run))
      r
      t
unfolding run_workflow agentdesk_ai.Retrieval.search_chunks suggested
    agentdesk_ai.Base.Order.order_by can_transition
execute_run-waits_example =
    execute_run-waits world 8 asked pending_run fresh found_out advised refl refl refl refl refl
      refl

-- The same ticket, where no document is found.
abbrev unanswered : Session ℕ
unanswered = record start {
  committed = record tables {
    tickets = fresh ∷ [];
    agent_runs = pending_run ∷ [];
    document_chunks = [];
  };
  working = record tables {
    tickets = fresh ∷ [];
    agent_runs = pending_run ∷ [];
    document_chunks = [];
  };
}

abbrev found_nothing : AgentState ℕ
found_nothing = state_of (run_workflow world (initial_state fresh) unanswered).0

abbrev advised_anyway : Option TicketPriority
advised_anyway = priority_of (suggested {F = ℕ} found_nothing.suggested_priority unanswered).0

execute_run-escalates_example :
    get 7 (execute_run world 8 unanswered).1.committed.tickets
    ≡ some (handed_over world found_nothing advised_anyway 200 fresh)
unfolding run_workflow agentdesk_ai.Retrieval.search_chunks suggested
    agentdesk_ai.Base.Order.order_by can_transition
execute_run-escalates_example =
    execute_run-escalates world 8 unanswered pending_run fresh found_nothing advised_anyway refl
      refl refl refl refl refl
