-- ===== src/Runs/Service/Laws.antt =====
-- How a run ends that cannot be completed.
use agentdesk_ai.Base.{
  ℕ, ◌≡◌, refl, false, Bool-cases, inl, inr, Option, some, or_default, if◌then◌else◌, str_eq,
}
use agentdesk_ai.Models.Ticket.{Ticket, TicketPriority, TicketStatus, can_transition}
use agentdesk_ai.Models.Records.{AgentRun, AgentRunStatus}
use agentdesk_ai.Session.{Session, Env, Error, invalid_transition, message_of, err}
use agentdesk_ai.Session.Rows.{get, get-update_self, ticket_row, run_row}
use agentdesk_ai.Agent.State.{AgentState}
use agentdesk_ai.Runs.Service.{
  conclude, conclude_waiting, conclude_escalated, complete_run, try_run, mark_failed, fail_run,
  execute_run,
}

-- Where a run means to take its ticket.
abbrev pub target_of : {F : Type 0} → AgentState F → TicketStatus
target_of state =
    if str_eq (or_default state.outcome "escalated") "waiting_approval"
    then TicketStatus.waiting_approval
    else TicketStatus.escalated

module _ {F : Type 0} (env : Env F) where
  -- A run whose decision asks for a transition that the ticket's status does not allow cannot be
  -- completed: it ends in that error, and nothing of it is committed.
  pub complete_run-refused :
      (key : ℕ) (ticket : Ticket) (state : AgentState F) (priority : Option TicketPriority)
      (s : Session F)
      → can_transition ticket.status (target_of state) ≡ false
      → let (r, t) = complete_run env key ticket state priority s in
        (r ≡ err (invalid_transition ticket.status (target_of state))) × (t.committed ≡ s.committed)
  unfolding complete_run conclude conclude_waiting conclude_escalated
  complete_run-refused key ticket state priority s illegal =
      elim (Bool-cases (str_eq (or_default state.outcome "escalated") "waiting_approval")) [
        | inl e ↦
            let bad : can_transition ticket.status TicketStatus.waiting_approval ≡ false =
              rw e at illegal in
            rw (e, bad) (refl, refl)
        | inr e ↦
            let bad : can_transition ticket.status TicketStatus.escalated ≡ false =
              rw e at illegal in
            rw (e, bad) (refl, refl)
      ]

  -- When the `try` block of a run that is found with its ticket ends in an error, and the run is stored:
  -- the same error is raised,
  -- the run is committed as failed with the error's text and the time, and the tickets and their
  -- events are committed as the block had last committed them.
  pub execute_run-fails :
      (key : ℕ) (s : Session F) (run : AgentRun F) (ticket : Ticket) (exc : Error)
      (stored : AgentRun F)
      → get key s.working.agent_runs ≡ some run
      → get run.ticket_id s.working.tickets ≡ some ticket
      → (try_run env key ticket s).0 ≡ err exc
      → get key (try_run env key ticket s).1.committed.agent_runs ≡ some stored
      → let before = (try_run env key ticket s).1 in
        let (r, t) = execute_run env key s in
        (r ≡ err exc)
        × (get key t.committed.agent_runs
            ≡ some (record stored {
              status = AgentRunStatus.failed;
              error = some (message_of exc);
              finished_at = some before.now;
            }))
        × (t.committed.tickets ≡ before.committed.tickets)
        × (t.committed.ticket_events ≡ before.committed.ticket_events)
  unfolding execute_run fail_run mark_failed
  execute_run-fails key s run ticket exc stored found of_run failed kept =
      rw (found, of_run, failed, kept)
        (
          refl,
          get-update_self key
              (λ r. record r {
                status = AgentRunStatus.failed;
                error = some (message_of exc);
                finished_at = some (try_run env key ticket s).1.now;
              })
              (try_run env key ticket s).1.committed.agent_runs (λ r. refl) kept,
          refl,
          refl,
        )
