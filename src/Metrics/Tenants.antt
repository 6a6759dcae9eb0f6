-- ===== src/Metrics/Tenants.antt =====
-- Whose rows the queries of services/metrics_service.py read.
use agentdesk_ai.Base.{ℕ, ◌≡◌, refl, Bool, ◌&&◌, ◌==◌, arith, select, select-select}
use agentdesk_ai.Models.Records.{AgentRun, WebhookDelivery}
use agentdesk_ai.Session.{Db, Env}
use agentdesk_ai.Session.Own.{own}
use agentdesk_ai.Metrics.{
  is_completed, is_failed_run, is_failed_delivery, completed_runs, failed_jobs_of, metrics_of,
}

module _ {F : Type 0} where
  module _ (organization_id : ℕ) (db : Db F) where
    own_runs :
        (p : AgentRun F → Bool)
        → select
            (λ r. r.organization_id == organization_id && p r)
            (own organization_id db).agent_runs
          ≡ select (λ r. r.organization_id == organization_id && p r) db.agent_runs
    own_runs p = select-select _ _ db.agent_runs (λ r h. ground arith)

    own_deliveries :
        (p : WebhookDelivery F → Bool)
        → select
            (λ d. d.organization_id == organization_id && p d)
            (own organization_id db).webhook_deliveries
          ≡ select (λ d. d.organization_id == organization_id && p d) db.webhook_deliveries
    own_deliveries p = select-select _ _ db.webhook_deliveries (λ d h. ground arith)

    -- The metrics of an organization are those of its own rows: without the tickets, runs and
    -- deliveries of the others they come out the same.
    pub metrics_of-own :
        (env : Env F)
        → metrics_of env organization_id (own organization_id db)
          ≡ metrics_of env organization_id db
    unfolding metrics_of completed_runs failed_jobs_of
    metrics_of-own env =
        rw
          (
            select-select (λ t. t.organization_id == organization_id)
                (λ t. t.organization_id == organization_id) db.tickets (λ t h. h),
            own_runs (λ r. is_completed r.status),
            own_runs (λ r. is_failed_run r.status),
            own_deliveries (λ d. is_failed_delivery d.status),
          )
          refl
