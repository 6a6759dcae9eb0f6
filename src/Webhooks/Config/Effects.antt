-- ===== src/Webhooks/Config/Effects.antt =====
-- webhook_service.py: the configuration of a webhook, and the tickets.
use agentdesk_ai.Base.{ℕ, Bool, Option, none, some, refl, List, String}
use agentdesk_ai.Models.Records.{Webhook}
use agentdesk_ai.Session.{Db, write}
use agentdesk_ai.Session.Growth.{Extends-refl}
use agentdesk_ai.Session.Quiet.{IsQuiet, IsQuiet-write, quiet_rules}
use agentdesk_ai.Webhooks.Config.{get_config, store_config, upsert_config}

module _ {F : Type 0} where
  IsQuiet-write_webhooks :
      (f : Db F → List Webhook) → IsQuiet (write λ db. record db { webhooks = f db })
  IsQuiet-write_webhooks f =
      IsQuiet-write _ (λ db. refl) (λ db. refl) (λ db. Extends-refl db.audit_logs)

  IsQuiet-store_config :
      (organization_id : ℕ) (url secret : String) (is_active : Bool) (webhook : Option Webhook)
      → IsQuiet (store_config {F = F} organization_id url secret is_active webhook)
  unfolding store_config
  IsQuiet-store_config organization_id url secret is_active none =
      search (quiet_rules, IsQuiet-write_webhooks) depth 12
  IsQuiet-store_config organization_id url secret is_active (some webhook) =
      search (quiet_rules, IsQuiet-write_webhooks) depth 12

  pub IsQuiet-upsert_config :
      (organization_id : ℕ) (url secret : String) (is_active : Bool)
      → IsQuiet (upsert_config {F = F} organization_id url secret is_active)
  unfolding upsert_config get_config
  IsQuiet-upsert_config organization_id url secret is_active =
      search (quiet_rules, IsQuiet-store_config)
