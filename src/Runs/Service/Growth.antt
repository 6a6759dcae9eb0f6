-- ===== src/Runs/Service/Growth.antt =====
-- services/agent_run_service.py and the audit log.
use agentdesk_ai.Base.{ℕ, Option}
use agentdesk_ai.Models.Ticket.{Ticket, TicketPriority}
use agentdesk_ai.Session.{Result, ok, err, Env, Error}
use agentdesk_ai.Session.Growth.{Appends, Appends-catch, append_rules}
use agentdesk_ai.Session.Quiet.{IsQuiet-Appends}
use agentdesk_ai.Agent.State.{AgentState}
use agentdesk_ai.Agent.Nodes.Effects.{IsQuiet-run_workflow}
use agentdesk_ai.Tickets.Service.Growth.{Appends-transition}
use agentdesk_ai.Runs.Service.{
  conclude_waiting, conclude_escalated, conclude, complete_run, apply_state, end_run, try_run,
  fail_run, execute_run,
}
use agentdesk_ai.Runs.Record.{apply_draft}
use agentdesk_ai.Runs.Service.Effects.{
  IsQuiet-write_run, IsQuiet-suggested, IsQuiet-store_run, IsQuiet-audit_escalation,
  IsQuiet-finish_run, IsQuiet-mark_failed,
}

module _ {F : Type 0} (env : Env F) where
  Appends-conclude_waiting : (key : ℕ) (ticket : Ticket) → Appends (conclude_waiting env key ticket)
  unfolding conclude_waiting
  Appends-conclude_waiting key ticket =
      search (append_rules, Appends-transition, IsQuiet-Appends, IsQuiet-write_run) depth 10

  Appends-conclude_escalated :
      (key : ℕ) (ticket : Ticket) (state : AgentState F)
      → Appends (conclude_escalated env key ticket state)
  unfolding conclude_escalated
  Appends-conclude_escalated key ticket state =
      search
        (
          append_rules, Appends-transition, IsQuiet-Appends, IsQuiet-write_run,
          IsQuiet-audit_escalation,
        )
        depth 10

  Appends-conclude :
      (key : ℕ) (ticket : Ticket) (state : AgentState F) → Appends (conclude env key ticket state)
  unfolding conclude
  Appends-conclude key ticket state =
      search (append_rules, Appends-conclude_waiting, Appends-conclude_escalated)

  Appends-apply_draft :
      (ticket : Ticket) (state : AgentState F) (priority : Option TicketPriority)
      → Appends (apply_draft env ticket state priority)
  Appends-apply_draft ticket state priority = search append_rules depth 12

  Appends-complete_run :
      (key : ℕ) (ticket : Ticket) (state : AgentState F) (priority : Option TicketPriority)
      → Appends (complete_run env key ticket state priority)
  unfolding complete_run
  Appends-complete_run key ticket state priority =
      search
        (append_rules, Appends-apply_draft, Appends-conclude, IsQuiet-Appends, IsQuiet-finish_run)
        depth 10

  Appends-apply_state :
      (key : ℕ) (ticket : Ticket) (state : AgentState F)
      → Appends (apply_state env key ticket state)
  unfolding apply_state
  Appends-apply_state key ticket state =
      search
        (append_rules, Appends-complete_run, IsQuiet-Appends, IsQuiet-store_run, IsQuiet-suggested)
        depth 12

  Appends-try_run : (key : ℕ) (ticket : Ticket) → Appends (try_run env key ticket)
  unfolding try_run
  Appends-try_run key ticket =
      search (append_rules, Appends-apply_state, IsQuiet-Appends, IsQuiet-run_workflow) depth 12

  Appends-fail_run : (key : ℕ) (exc : Error) → Appends (fail_run env key exc)
  unfolding fail_run
  Appends-fail_run key exc = search (append_rules, IsQuiet-Appends, IsQuiet-mark_failed) depth 12

  pub Appends-end_run :
      (key : ℕ) (ticket : Ticket) (outcome : Result (AgentState F))
      → Appends (end_run env key ticket outcome)
  unfolding end_run
  Appends-end_run key ticket (ok state) =
      Appends-catch _ _ (Appends-apply_state key ticket state) (Appends-fail_run key)
  Appends-end_run key ticket (err exc) = Appends-fail_run key exc

  pub Appends-execute_run : (key : ℕ) → Appends (execute_run env key)
  unfolding execute_run
  Appends-execute_run key =
      search (append_rules, Appends-catch, Appends-try_run, Appends-fail_run) depth 16
