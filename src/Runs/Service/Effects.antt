-- ===== src/Runs/Service/Effects.antt =====
-- services/agent_run_service.py: the steps of a run, and the tickets.
use agentdesk_ai.Base.{ℕ, refl, Option, none, some, List, String}
use agentdesk_ai.Models.Ticket.{Ticket}
use agentdesk_ai.Models.Records.{AgentRun, AgentRunOutcome}
use agentdesk_ai.Session.{Db, Env, Error, write}
use agentdesk_ai.Session.Growth.{Extends-refl}
use agentdesk_ai.Session.Quiet.{IsQuiet, IsQuiet-write, quiet_rules}
use agentdesk_ai.Audit.Effects.{IsQuiet-record_event}
use agentdesk_ai.Webhooks.Delivery.Effects.{IsQuiet-enqueue_for_ticket}
use agentdesk_ai.Agent.State.{AgentState}
use agentdesk_ai.Runs.Service.{audit_escalation, notify, finish_run, mark_failed}
use agentdesk_ai.Runs.Record.{write_run, suggested, start_run, store_run}

module _ {F : Type 0} where
  IsQuiet-write_runs :
      (f : Db F → List (AgentRun F)) → IsQuiet (write λ db. record db { agent_runs = f db })
  IsQuiet-write_runs f =
      IsQuiet-write _ (λ db. refl) (λ db. refl) (λ db. Extends-refl db.audit_logs)

  pub IsQuiet-write_run : (key : ℕ) (f : AgentRun F → AgentRun F) → IsQuiet (write_run key f)
  IsQuiet-write_run key f =
      IsQuiet-write _ (λ db. refl) (λ db. refl) (λ db. Extends-refl db.audit_logs)

  pub IsQuiet-suggested : (o : Option String) → IsQuiet {F = F} (suggested o)
  unfolding suggested
  IsQuiet-suggested none = search quiet_rules
  IsQuiet-suggested (some s) = search quiet_rules depth 8

module _ {F : Type 0} (env : Env F) where
  pub IsQuiet-start_run : (t : Ticket) (actor : Option ℕ) → IsQuiet (start_run env t actor)
  unfolding start_run
  IsQuiet-start_run t actor =
      search (quiet_rules, IsQuiet-write_runs, IsQuiet-record_event) depth 12

  pub IsQuiet-store_run :
      (key : ℕ) (t : Ticket) (state : AgentState F) → IsQuiet (store_run env key t state)
  unfolding store_run
  IsQuiet-store_run key t state =
      search (quiet_rules, IsQuiet-write_run, IsQuiet-record_event) depth 10

  pub IsQuiet-audit_escalation :
      (t : Ticket) (state : AgentState F) → IsQuiet (audit_escalation env t state)
  unfolding audit_escalation
  IsQuiet-audit_escalation t state = search (quiet_rules, IsQuiet-record_event) depth 8

  pub IsQuiet-notify : (t : Ticket) (o : AgentRunOutcome) → IsQuiet (notify env t o)
  unfolding notify
  IsQuiet-notify t AgentRunOutcome.waiting_approval = search quiet_rules
  IsQuiet-notify t AgentRunOutcome.escalated =
      search (quiet_rules, IsQuiet-enqueue_for_ticket) depth 8

  pub IsQuiet-finish_run :
      (key : ℕ) (t : Ticket) (o : AgentRunOutcome) → IsQuiet (finish_run env key t o)
  unfolding finish_run
  IsQuiet-finish_run key t o = search (quiet_rules, IsQuiet-write_run, IsQuiet-notify) depth 12

  pub IsQuiet-mark_failed :
      (key : ℕ) (exc : Error) (run : Option (AgentRun F)) → IsQuiet (mark_failed env key exc run)
  unfolding mark_failed
  IsQuiet-mark_failed key exc none = search quiet_rules
  IsQuiet-mark_failed key exc (some run) = search (quiet_rules, IsQuiet-write_run) depth 8
