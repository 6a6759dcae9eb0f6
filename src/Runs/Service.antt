-- ===== src/Runs/Service.antt =====
-- agent_run_service.py: the end of a run on each outcome, and its execution.
pub mod Effects
pub mod Laws
pub mod Split
pub mod Completion
pub mod Escalation
pub mod Growth
pub mod Soundness
pub mod Stability
use agentdesk_ai.Runs.Record.{
  new_run, initial_state, parse_priority, refresh_run, suggested, float_or_null, write_run,
  start_run, fill_run, audit_ticket, store_run, apply_draft,
}
use agentdesk_ai.Base.{
  ℕ, Bool, true, false, not, Option, none, some, or_default, List, [], ◌∷◌, ◌++◌, map, String,
  str_eq, if◌then◌else◌, length,
}
use agentdesk_ai.Models.Ticket.{Ticket, TicketPriority, low, medium, high, urgent, TicketStatus}
use agentdesk_ai.Models.Records.{
  Json, null, bool, int, float, str, obj, member, end, AuditEvent, AuditLog, AgentRun,
  AgentRunStatus, AgentRunOutcome, running, completed, agent_run_started, retrieval_completed,
  draft_generated, ticket_escalated,
}
use agentdesk_ai.Session.{
  Result, ok, err, Session, Env, Error, value_error, external, message_of, Exec, pure, raise,
  raise_if_none, query, catch, fresh_id, get_now, write, commit, rollback, ◌>>=◌, ◌>>◌,
}
use agentdesk_ai.Session.Rows.{get, update, ticket_row, run_row}
use agentdesk_ai.Audit.{record_event}
use agentdesk_ai.Webhooks.Delivery.{enqueue_for_ticket}
use agentdesk_ai.Tickets.Transition.{transition, refresh_ticket}
use agentdesk_ai.Agent.State.{AgentState}
use agentdesk_ai.Agent.Nodes.{run_workflow, is_nonempty}
use agentdesk_ai.Agent.Cost.{estimate_cost}

module _ {F : Type 0} (env : Env F) where
  pub audit_escalation : Ticket → AgentState F → Exec F AgentRunOutcome
  unfolding record_event
  audit_escalation ticket state = do
    audit_ticket env ticket_escalated ticket
        (obj (member "confidence" (float_or_null state.confidence) end))
    pure AgentRunOutcome.escalated

  unfoldable pub conclude_waiting : ℕ → Ticket → Exec F AgentRunOutcome
  unfolding transition
  conclude_waiting run_id ticket = do
    write_run run_id (λ r. record r { outcome = some AgentRunOutcome.waiting_approval })
    transition ticket TicketStatus.waiting_approval none "agent_run"
        (some "AI draft ready for approval")
    pure AgentRunOutcome.waiting_approval

  unfoldable pub conclude_escalated : ℕ → Ticket → AgentState F → Exec F AgentRunOutcome
  unfolding transition audit_escalation
  conclude_escalated run_id ticket state = do
    write_run run_id (λ r. record r { outcome = some AgentRunOutcome.escalated })
    transition ticket TicketStatus.escalated none "agent_run"
        (some "Low confidence; escalated for human handling")
    audit_escalation ticket state

  -- `outcome == "waiting_approval"` and the two branches.
  unfoldable pub conclude : ℕ → Ticket → AgentState F → Exec F AgentRunOutcome
  unfolding conclude_waiting conclude_escalated
  conclude run_id ticket state =
      if str_eq (or_default state.outcome "escalated") "waiting_approval"
      then conclude_waiting run_id ticket
      else conclude_escalated run_id ticket state

  pub notify : Ticket → AgentRunOutcome → Exec F (Unit {0})
  unfolding enqueue_for_ticket
  notify ticket AgentRunOutcome.waiting_approval = pure tt
  notify ticket AgentRunOutcome.escalated = do
    refreshed ← refresh_ticket ticket.id
    enqueue_for_ticket env refreshed "ticket.escalated"
    pure tt

  -- Completion, the commit, and the webhook of an escalation.
  unfoldable pub finish_run : ℕ → Ticket → AgentRunOutcome → Exec F (AgentRun F)
  unfolding notify
  finish_run run_id ticket outcome = do
    now ← get_now
    write_run run_id (λ r. record r { status = completed; finished_at = some now })
    commit
    run ← refresh_run run_id
    notify ticket outcome
    pure run

  -- The draft on the ticket, the transition, and the completion.
  unfoldable pub complete_run :
      ℕ → Ticket → AgentState F → Option TicketPriority → Exec F (AgentRun F)
  unfolding conclude finish_run
  complete_run run_id ticket state priority = do
    drafted ← apply_draft env ticket state priority
    outcome ← conclude run_id drafted state
    finish_run run_id drafted outcome

  -- What the `try` block does with the state of the workflow.
  unfoldable pub apply_state : ℕ → Ticket → AgentState F → Exec F (AgentRun F)
  unfolding store_run suggested complete_run
  apply_state run_id ticket state = do
    store_run env run_id ticket state
    priority ← suggested state.suggested_priority
    complete_run run_id ticket state priority

  -- The `try` block.
  unfoldable pub try_run : ℕ → Ticket → Exec F (AgentRun F)
  unfolding run_workflow apply_state
  try_run run_id ticket = do
    state ← run_workflow env (initial_state ticket)
    apply_state run_id ticket state

  unfoldable pub mark_failed : ℕ → Error → Option (AgentRun F) → Exec F (Unit {0})
  unfolding message_of
  mark_failed run_id exc none = pure tt
  mark_failed run_id exc (some run) = do
    now ← get_now
    write_run run_id (λ r. record r {
      status = AgentRunStatus.failed;
      error = some (message_of exc);
      finished_at = some now;
    })
    commit

  -- `except Exception as exc`
  unfoldable pub fail_run : ℕ → Error → Exec F (AgentRun F)
  unfolding mark_failed
  fail_run run_id exc = do
    rollback
    run ← query (λ db. get run_id db.agent_runs)
    mark_failed run_id exc run
    raise exc

  -- The run and its ticket, as `execute_run` loads them.
  unfoldable pub load_run : ℕ → Exec F (AgentRun F × Ticket)
  load_run run_id = do
    found ← query (λ db. get run_id db.agent_runs)
    run ← raise_if_none found (value_error "AgentRun not found")
    of_run ← query (λ db. get run.ticket_id db.tickets)
    ticket ← raise_if_none of_run (value_error "Ticket not found")
    pure (run, ticket)

  -- What follows the workflow, whatever came of it, with the ticket that was loaded before.
  unfoldable pub end_run : ℕ → Ticket → Result (AgentState F) → Exec F (AgentRun F)
  unfolding apply_state fail_run
  end_run run_id ticket (ok state) = catch (apply_state run_id ticket state) (fail_run run_id)
  end_run run_id ticket (err exc) = fail_run run_id exc

  unfoldable pub execute_run : ℕ → Exec F (AgentRun F)
  unfolding try_run fail_run
  execute_run run_id = do
    found ← query (λ db. get run_id db.agent_runs)
    run ← raise_if_none found (value_error "AgentRun not found")
    of_run ← query (λ db. get run.ticket_id db.tickets)
    ticket ← raise_if_none of_run (value_error "Ticket not found")
    catch (try_run run_id ticket) (fail_run run_id)
