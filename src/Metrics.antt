-- ===== src/Metrics.antt =====
-- services/metrics_service.py. `count`, `group_by` and `avg` of a query are written out over the rows.
pub mod Counts
pub mod Tenants
pub mod Rates
use agentdesk_ai.Base.{
  ℕ, suc, ◌+◌, Bool, true, false, ◌&&◌, Option, none, some, or_default, List, [], ◌∷◌, map, String,
  length, select, map_option, ◌==◌, if◌then◌else◌,
}
use agentdesk_ai.Models.Ticket.{Ticket, TicketStatus, status_eq, status_value}
use agentdesk_ai.Models.Records.{
  AgentRun, AgentRunStatus, running, completed, AgentRunOutcome, WebhookDelivery, DeliveryStatus,
}
use agentdesk_ai.Session.{Db, Env, Exec, query}

pub record Metrics (F : Type 0) : Type 0 where
  pub total_tickets : ℕ
  pub tickets_by_status : List (String × ℕ)
  pub avg_agent_latency_ms : F
  pub avg_estimated_cost_usd : F
  pub approval_rate : F
  pub escalation_rate : F
  pub retrieval_hit_rate : F
  pub failed_jobs : ℕ

abbrev pub is_completed : AgentRunStatus → Bool
is_completed running = false
is_completed completed = true
is_completed AgentRunStatus.failed = false

abbrev pub is_failed_run : AgentRunStatus → Bool
is_failed_run running = false
is_failed_run completed = false
is_failed_run AgentRunStatus.failed = true

abbrev pub is_failed_delivery : DeliveryStatus → Bool
is_failed_delivery DeliveryStatus.pending = false
is_failed_delivery DeliveryStatus.success = false
is_failed_delivery DeliveryStatus.failed = true

abbrev pub is_waiting : Option AgentRunOutcome → Bool
is_waiting (some AgentRunOutcome.waiting_approval) = true
is_waiting _ = false

abbrev pub is_escalated : Option AgentRunOutcome → Bool
is_escalated (some AgentRunOutcome.escalated) = true
is_escalated _ = false

-- One row more in the group of its status. SQL gives the groups in no order, and the code makes a
-- dictionary of them: here they stand in the order in which their statuses come up last.
unfoldable pub add_to_group : TicketStatus → List (TicketStatus × ℕ) → List (TicketStatus × ℕ)
add_to_group status [] = (status, 1) ∷ []
add_to_group status ((s, n) ∷ groups) =
    let rest = add_to_group status groups in
    if status_eq s status then (s, suc n) ∷ groups else (s, n) ∷ rest

unfoldable pub group_by_status : List Ticket → List (TicketStatus × ℕ)
unfolding add_to_group
group_by_status [] = []
group_by_status (t ∷ ts) = add_to_group t.status (group_by_status ts)

-- The values that are not NULL.
unfoldable pub present : {A : Type 0} → List (Option A) → List A
present [] = []
present (none ∷ xs) = present xs
present (some x ∷ xs) = x ∷ present xs

module _ {F : Type 0} (env : Env F) where
  abbrev zero_float : F
  zero_float = env.floats.literal 0 0

  -- `(avg(…)) or 0.0`: the database's average of the values, NULL if there is none.
  unfoldable pub avg_or_zero : {A : Type 0} → (List A → F) → List A → F
  avg_or_zero avg [] = zero_float
  avg_or_zero avg (x ∷ xs) = avg (x ∷ xs)

  -- `round(numerator / total_completed, 4) if total_completed else 0.0`
  unfoldable pub rate : ℕ → ℕ → F
  rate total_completed numerator =
      if total_completed == 0
      then zero_float
      else env.floats.round
          (env.floats.div (env.floats.of_int numerator) (env.floats.of_int total_completed)) 4

  -- The subquery `completed`.
  unfoldable pub completed_runs : ℕ → Db F → List (AgentRun F)
  completed_runs organization_id db =
      select (λ r. r.organization_id == organization_id && is_completed r.status) db.agent_runs

  unfoldable pub failed_jobs_of : ℕ → Db F → ℕ
  failed_jobs_of organization_id db =
      length
        (select (λ r. r.organization_id == organization_id && is_failed_run r.status) db.agent_runs)
      + length (
          select (λ d. d.organization_id == organization_id && is_failed_delivery d.status)
            db.webhook_deliveries)

  unfoldable pub metrics_of : ℕ → Db F → Metrics F
  unfolding group_by_status present avg_or_zero rate completed_runs failed_jobs_of status_value
  metrics_of organization_id db =
      let own = select (λ t. t.organization_id == organization_id) db.tickets in
      let runs = completed_runs organization_id db in
      let total_completed = length runs in
      record {
        total_tickets = length own;
        tickets_by_status = map (λ g. (status_value g.0, g.1)) (group_by_status own);
        avg_agent_latency_ms =
            env.floats.round (avg_or_zero env.sql_avg_int (present (map (λ r. r.latency_ms) runs)))
              2;
        avg_estimated_cost_usd =
            env.floats.round
              (avg_or_zero env.sql_avg_float (present (map (λ r. r.estimated_cost_usd) runs))) 8;
        approval_rate = rate total_completed (length (select (λ r. is_waiting r.outcome) runs));
        escalation_rate = rate total_completed (length (select (λ r. is_escalated r.outcome) runs));
        retrieval_hit_rate = rate total_completed (length (select (λ r. r.retrieval_hit) runs));
        failed_jobs = failed_jobs_of organization_id db;
      }

  unfoldable pub compute : ℕ → Exec F (Metrics F)
  unfolding metrics_of
  compute organization_id = query (metrics_of organization_id)
