-- ===== src/Webhooks/Config.antt =====
-- webhook_service.py: the webhook of an organization, read and written.
pub mod Effects
pub mod Laws
use agentdesk_ai.Base.{ℕ, Bool, Option, none, some, [], ◌∷◌, ◌++◌, String, ◌==◌, first}
use agentdesk_ai.Models.Records.{Webhook}
use agentdesk_ai.Session.{
  external, Exec, raise_if_none, query, fresh_id, get_now, write, commit, ◌>>=◌, ◌>>◌,
}
use agentdesk_ai.Session.Rows.{get, update, webhook_row}

module _ {F : Type 0} where
  unfoldable pub get_config : ℕ → Exec F (Option Webhook)
  get_config organization_id =
      query (λ db. first (λ w. w.organization_id == organization_id) db.webhooks)

  -- `db.refresh(webhook)`
  abbrev refresh_webhook : ℕ → Exec F Webhook
  refresh_webhook key = do
    found ← query (λ db. get key db.webhooks)
    raise_if_none found (external "could not refresh")

  unfoldable pub store_config : ℕ → String → String → Bool → Option Webhook → Exec F Webhook
  store_config organization_id url secret is_active none = do
    id ← fresh_id
    now ← get_now
    let webhook : Webhook = record {
      id = id;
      organization_id = organization_id;
      url = url;
      secret = secret;
      is_active = is_active;
      created_at = now;
    }
    write (λ db. record db { webhooks = db.webhooks ++ (webhook ∷ []) })
    commit
    refresh_webhook id
  store_config organization_id url secret is_active (some webhook) = do
    write (λ db. record db {
      webhooks =
          update webhook.id (λ w. record w { url = url; secret = secret; is_active = is_active })
            db.webhooks;
    })
    commit
    refresh_webhook webhook.id

  unfoldable pub upsert_config : ℕ → String → String → Bool → Exec F Webhook
  unfolding get_config store_config
  upsert_config organization_id url secret is_active = do
    webhook ← get_config organization_id
    store_config organization_id url secret is_active webhook
