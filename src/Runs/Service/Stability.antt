-- ===== src/Runs/Service/Stability.antt =====
-- services/agent_run_service.py and the stable predicates of the tickets and their events.
use agentdesk_ai.Base.{ℕ, ◌≡◌, refl, Option, some}
use agentdesk_ai.Models.Ticket.{Ticket, TicketPriority}
use agentdesk_ai.Models.Records.{AgentRun}
use agentdesk_ai.Session.{Result, ok, err, Session, Env, Error}
use agentdesk_ai.Session.Rows.{get, get-key, ticket_row, run_row}
use agentdesk_ai.Agent.State.{AgentState}
use agentdesk_ai.Agent.Nodes.Effects.{IsQuiet-run_workflow}
use agentdesk_ai.Tickets.Stable.{
  Tables, Stable, Holds, Preserves, Preserves-quiet, Preserves-rollback, Preserves-if,
  Preserves-catch, resume-Holds, or_handle-Holds,
}
use agentdesk_ai.Tickets.Service.Stability.{Preserves-transition, calm_rules}
use agentdesk_ai.Runs.Service.{
  conclude_waiting, conclude_escalated, conclude, finish_run, complete_run, apply_state, end_run,
  try_run, fail_run, execute_run,
}
use agentdesk_ai.Runs.Record.{apply_draft}
use agentdesk_ai.Runs.Service.Effects.{
  IsQuiet-write_run, IsQuiet-suggested, IsQuiet-store_run, IsQuiet-audit_escalation,
  IsQuiet-finish_run, IsQuiet-mark_failed,
}

module _ {F : Type 0} (env : Env F) where
  -- A failure takes back what was not committed.
  Preserves-fail_run : {I : Tables} (key : ℕ) (exc : Error) → Preserves I (fail_run env key exc)
  unfolding fail_run
  Preserves-fail_run key exc = search (calm_rules, Preserves-rollback, IsQuiet-mark_failed) depth 12

  module _ {organization_id : ℕ} {I : Tables} {Owned : ℕ → Type 0}
      (stable : Stable organization_id I Owned) where
    Preserves-conclude_waiting :
        (key : ℕ) (ticket : Ticket)
        → ticket.organization_id ≡ organization_id
        → Owned ticket.id
        → Preserves I (conclude_waiting env key ticket)
    unfolding conclude_waiting
    Preserves-conclude_waiting key ticket own held =
        search (calm_rules, Preserves-transition stable, IsQuiet-write_run, own, held) depth 12

    Preserves-conclude_escalated :
        (key : ℕ) (ticket : Ticket) (state : AgentState F)
        → ticket.organization_id ≡ organization_id
        → Owned ticket.id
        → Preserves I (conclude_escalated env key ticket state)
    unfolding conclude_escalated
    Preserves-conclude_escalated key ticket state own held =
        search
          (
            calm_rules,
            Preserves-transition stable,
            IsQuiet-write_run,
            IsQuiet-audit_escalation,
            own,
            held,
          )
          depth 12

    Preserves-conclude :
        (key : ℕ) (ticket : Ticket) (state : AgentState F)
        → ticket.organization_id ≡ organization_id
        → Owned ticket.id
        → Preserves I (conclude env key ticket state)
    unfolding conclude
    Preserves-conclude key ticket state own held =
        search (Preserves-if, Preserves-conclude_waiting, Preserves-conclude_escalated, own, held)

    Preserves-complete_run :
        (key : ℕ) (ticket : Ticket) (state : AgentState F) (priority : Option TicketPriority)
        → ticket.organization_id ≡ organization_id
        → Owned ticket.id
        → Preserves I (complete_run env key ticket state priority)
    unfolding complete_run
    Preserves-complete_run key ticket state priority own held = record {
      at = λ s h.
          let t : Session F = (apply_draft env ticket state priority s).1 in
          let drafted : Ticket = record ticket {
            suggested_type = state.suggested_type;
            suggested_priority = priority;
            draft_response = state.draft;
          } in
          resume-Holds (conclude env key drafted state t).0
            (λ outcome. finish_run env key drafted outcome) (conclude env key drafted state t).1
            (λ outcome. Preserves-quiet _ (IsQuiet-finish_run env key drafted outcome))
            ((Preserves-conclude key drafted state own held).at t (record {
              seen = stable.change _ _ ticket.id _ held (λ x. refl) (λ x. refl) h.seen;
              stored = h.stored;
            }));
    }

    Preserves-apply_state :
        (key : ℕ) (ticket : Ticket) (state : AgentState F)
        → ticket.organization_id ≡ organization_id
        → Owned ticket.id
        → Preserves I (apply_state env key ticket state)
    unfolding apply_state
    Preserves-apply_state key ticket state own held =
        search (calm_rules, Preserves-complete_run, IsQuiet-store_run, IsQuiet-suggested, own, held)
          depth 12

    pub Preserves-end_run :
        (key : ℕ) (ticket : Ticket) (outcome : Result (AgentState F))
        → ticket.organization_id ≡ organization_id
        → Owned ticket.id
        → Preserves I (end_run env key ticket outcome)
    unfolding end_run
    Preserves-end_run key ticket (ok state) own held =
        Preserves-catch _ _ (Preserves-apply_state key ticket state own held)
          (Preserves-fail_run key)
    Preserves-end_run key ticket (err exc) own held = Preserves-fail_run key exc

    pub Preserves-try_run :
        (key : ℕ) (ticket : Ticket)
        → ticket.organization_id ≡ organization_id
        → Owned ticket.id
        → Preserves I (try_run env key ticket)
    unfolding try_run
    Preserves-try_run key ticket own held =
        search (calm_rules, Preserves-apply_state, IsQuiet-run_workflow, own, held) depth 12

    -- A run that is found, of a ticket that is found.
    pub execute_run-Holds :
        (key : ℕ) (run : AgentRun F) (ticket : Ticket) (s : Session F)
        → get key s.working.agent_runs ≡ some run
        → get run.ticket_id s.working.tickets ≡ some ticket
        → ticket.organization_id ≡ organization_id
        → Holds I s
        → Holds I (execute_run env key s).1
    unfolding execute_run
    execute_run-Holds key run ticket s found of_run own h =
        let held : Owned ticket.id =
          stable.load _ _ ticket.id ticket h.seen
            (cc (get-key run.ticket_id s.working.tickets of_run, of_run)) own in
        rw (found, of_run)
          (or_handle-Holds (try_run env key ticket s).0 (fail_run env key)
            (try_run env key ticket s).1 (Preserves-fail_run key)
            ((Preserves-try_run key ticket own held).at s h))
