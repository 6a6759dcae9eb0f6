-- ===== src/Tests/Overlap.antt =====
-- Requests that overlap, and organizations that share the tables.
use agentdesk_ai.Base.{ℕ, ◌≡◌, refl, false, Option, some, none, [], ◌∷◌}
use agentdesk_ai.Models.Ticket.{Ticket, rejected, medium}
use agentdesk_ai.Session.{Session, Env, ok, err, external}
use agentdesk_ai.Runs.Service.{end_run}
use agentdesk_ai.Runs.Record.{new_run}
use agentdesk_ai.Tests.Runs.{found_out}
use agentdesk_ai.Session.Rows.{get, ticket_row}
use agentdesk_ai.Tickets.Service.{final_text}
use agentdesk_ai.Tickets.History.Sessions.{IsSoundSession}
use agentdesk_ai.Api.Refinement.{beginning}
use agentdesk_ai.Api.Serve.{approve, post_ticket, run_workflow, perform, serve}
use agentdesk_ai.Api.Isolation.{serve-IsApart}
use agentdesk_ai.Api.Isolation.Apart.{IsApart}
use agentdesk_ai.Api.Stability.Calls.{request}
use agentdesk_ai.Api.Interleaving.{
  Decision, approval, rejection, edition, Pending, System, decide, run_at, call, begin, finish,
  run_begins, run_ends, Running, Reach, here, next, Always, IsFresh,
}
use agentdesk_ai.Api.Interleaving.Laws.{Reach-IsSoundSession}
use agentdesk_ai.Api.Interleaving.Later.{IsLater, Reach-IsLater}
use agentdesk_ai.Api.Interleaving.Races.{approve-reject}
use agentdesk_ai.Tests.World.{
  world, ada, waiting, begun, settings, start, tables, with_waiting, with_run,
}
use agentdesk_ai.Tests.System.{created, start-IsSoundSession}

-- A ticket of another organization.
abbrev foreign : Ticket
foreign = record waiting { id = 9; organization_id = 5 }

abbrev shared : Session ℕ
shared = record start {
  committed = record tables { tickets = foreign ∷ waiting ∷ [] };
  working = record tables { tickets = foreign ∷ waiting ∷ [] };
}

abbrev approved_there : Session ℕ
approved_there = serve world ((201, approve (some "access") 7 none) ∷ []) shared

serve-IsApart_example :
    IsApart 1 shared.committed.tickets shared.committed.ticket_events
      approved_there.committed.tickets approved_there.committed.ticket_events
unfolding agentdesk_ai.Auth.Access.get_current_user
serve-IsApart_example =
    serve-IsApart world 201 (approve (some "access") 7 none) shared 1 tt
      (request (some "access") ada refl refl refl)

approve-reject_example :
    let first = run_at 201 (decide world ada waiting (approval none)) with_waiting in
    let second = run_at 202 (decide world ada waiting (rejection (some "Too vague"))) first in
    get 7 second.committed.tickets
    ≡ some (record waiting {
      status = rejected;
      final_response = some (final_text waiting none);
      updated_at = 202;
    })
unfolding final_text agentdesk_ai.Base.is_blank
approve-reject_example =
    approve-reject world ada ada waiting waiting none (some "Too vague") with_waiting 201 202 refl
      refl refl

abbrev approving : Pending
approving = record { user = ada; ticket = waiting; decision = approval none }

abbrev rejecting : Pending
rejecting = record { user = ada; ticket = waiting; decision = rejection none }

-- A run of the agent has loaded the ticket too, and its provider does not answer.
abbrev asking : Running
asking = record { run_id = 8; ticket = waiting }

abbrev waits : System ℕ
waits = record { session = with_run; pending = []; running = [] }

-- Both decisions are taken on the ticket as it was before, and then the run fails.
abbrev raced : System ℕ
raced = record {
  session = run_at 203 (end_run world 8 waiting (err (external "timeout"))) (
      run_at 202 (decide world ada waiting (rejection none))
        (run_at 201 (decide world ada waiting (approval none)) with_run));
  pending = [];
  running = [];
}

race : Reach world Always waits raced
unfolding agentdesk_ai.Api.Interleaving.load_for agentdesk_ai.Api.Routes.current_user
    agentdesk_ai.Auth.Access.get_current_user agentdesk_ai.Auth.Access.require_role
    agentdesk_ai.Tickets.Service.get_ticket agentdesk_ai.Runs.Service.load_run
race =
    next
      (next
        (next
          (next
            (next (next here (run_begins 8 begun waiting refl))
              (begin (some "access") 7 (rejection none) rejecting refl))
            (begin (some "access") 7 (approval none) approving refl))
          (finish 201 approving [] (rejecting ∷ []) refl tt))
        (finish 202 rejecting [] [] refl tt))
      (run_ends 203 asking (err (external "timeout")) [] [] refl tt)

Reach-IsLater_example : IsLater waits.session.committed raced.session.committed
Reach-IsLater_example = Reach-IsLater world race refl

-- A ticket is created, a run of the agent loads it, its draft is edited, and the run ends with an
-- answer, while nobody else changes the ticket's status.
abbrev queueing : Env ℕ
queueing = record world { settings = record settings { agent_run_eager = false } }

abbrev one_created : Session ℕ
one_created =
    run_at 200
      (perform queueing (post_ticket (some "access") "Password reset" "I need a reset link" medium))
      start

abbrev editing : Pending
editing = record { user = ada; ticket = created; decision = edition "Use the link." }

abbrev with_its_run : Session ℕ
with_its_run = run_at 201 (perform queueing (run_workflow (some "access") 100)) one_created

abbrev answering : Running
answering = record { run_id = 103; ticket = created }

abbrev edited_system : System ℕ
edited_system = record {
  session =
      run_at 203 (end_run queueing 103 created (ok found_out))
        (run_at 202 (decide queueing ada created (edition "Use the link.")) with_its_run);
  pending = [];
  running = [];
}

edit : Reach queueing IsFresh (record { session = start; pending = []; running = [] }) edited_system
unfolding agentdesk_ai.Api.Interleaving.load_for agentdesk_ai.Api.Routes.current_user
    agentdesk_ai.Auth.Access.get_current_user agentdesk_ai.Auth.Access.require_role
    agentdesk_ai.Tickets.Service.get_ticket agentdesk_ai.Tickets.Service.create_ticket perform
    agentdesk_ai.Api.Routes.post_ticket agentdesk_ai.Runs.Service.load_run
    agentdesk_ai.Api.Routes.run_workflow agentdesk_ai.Api.Routes.start_if_open
    agentdesk_ai.Api.Routes.dispatch_run agentdesk_ai.Runs.Record.start_run decide
    agentdesk_ai.Tickets.Service.edit_draft agentdesk_ai.Base.is_blank
edit =
    next
      (next
        (next
          (next
            (next
              (next here (
                call 200
                  (post_ticket (some "access") "Password reset" "I need a reset link" medium)))
              (call 201 (run_workflow (some "access") 100)))
            (run_begins 103 (new_run 103 201 created) created refl))
          (begin (some "access") 100 (edition "Use the link.") editing refl))
        (finish 202 editing [] [] refl (created, refl, refl)))
      (run_ends 203 answering (ok found_out) [] [] refl
        (record created { draft_response = some "Use the link."; updated_at = 202 }, refl, refl))

Reach-IsSoundSession_example : IsSoundSession beginning edited_system.session
Reach-IsSoundSession_example = Reach-IsSoundSession queueing edit start-IsSoundSession
