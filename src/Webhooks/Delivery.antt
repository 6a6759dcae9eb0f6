-- ===== src/Webhooks/Delivery.antt =====
-- webhook_service.py: one delivery attempt, and the delivery that a ticket's event enqueues.
pub mod Effects
pub mod Laws
pub mod Endings
pub mod Queue
use agentdesk_ai.Base.{
  ℕ, suc, Bool, true, false, not, ◌&&◌, Option, none, some, [], ◌∷◌, ◌++◌, String, ltb, leb,
  if◌then◌else◌,
}
use agentdesk_ai.Models.Ticket.{Ticket}
use agentdesk_ai.Models.Records.{
  Json, null, int, str, obj, member, end, webhook_sent, Webhook, WebhookDelivery, pending, success,
  failed,
}
use agentdesk_ai.Session.{
  Env, Request, HttpOutcome, response, raised, deliver_webhook, Exec, pure, query, fresh_id,
  get_now, write, commit, delay, log_post, ◌>>=◌, ◌>>◌,
}
use agentdesk_ai.Session.Rows.{get, update, webhook_row, delivery_row}
use agentdesk_ai.Audit.{record_event}
use agentdesk_ai.Webhooks.Signing.{build_ticket_payload, request_for}
use agentdesk_ai.Webhooks.Config.{get_config}

module _ {F : Type 0} (env : Env F) where
  -- `200 <= resp.status_code < 300`
  unfoldable pub is_success : HttpOutcome → Bool
  is_success (response code) = leb 200 code && ltb code 300
  is_success (raised _) = false

  -- The `try`/`except` round `client.post`, after `delivery.attempts += 1`.
  unfoldable pub note_outcome : HttpOutcome → WebhookDelivery F → WebhookDelivery F
  note_outcome (response code) d = record d {
    attempts = suc d.attempts;
    last_status_code = some code;
  }
  note_outcome (raised text) d = record d { attempts = suc d.attempts; last_error = some text }

  -- The new status: `success`, `failed` once the attempts are used up, or the old one.
  unfoldable pub settle : Bool → WebhookDelivery F → WebhookDelivery F
  settle succeeded d =
      if succeeded
      then record d { status = success }
      else if leb env.webhook_max_retries d.attempts
      then record d { status = failed }
      else d

  abbrev pub int_or_null : Option ℕ → Json F
  int_or_null none = null
  int_or_null (some n) = int n

  audit_sent : Bool → WebhookDelivery F → Exec F (Unit {0})
  unfolding record_event
  audit_sent false d = pure tt
  audit_sent true d = do
    record_event env webhook_sent (some d.organization_id) none (some "webhook_delivery")
        (some d.id)
        (some (
          obj (
            member "event" (str d.event)
              (member "status_code" (int_or_null d.last_status_code) end))))
        false
    pure tt

  attempt : (Request → HttpOutcome) → Webhook → WebhookDelivery F → Exec F Bool
  unfolding request_for is_success note_outcome settle audit_sent
  attempt client webhook delivery = do
    now ← get_now
    let request = request_for env delivery webhook now
    log_post request
    let outcome = client request
    let succeeded = is_success outcome
    let noted = note_outcome outcome delivery
    write (λ db. record db {
      webhook_deliveries =
          update delivery.id (λ d. settle succeeded (note_outcome outcome d)) db.webhook_deliveries;
    })
    audit_sent succeeded noted
    commit
    pure succeeded

  deliver_to : (Request → HttpOutcome) → WebhookDelivery F → Option Webhook → Exec F Bool
  unfolding attempt
  deliver_to client delivery none = pure false
  deliver_to client delivery (some webhook) = attempt client webhook delivery

  deliver_found : (Request → HttpOutcome) → Option (WebhookDelivery F) → Exec F Bool
  unfolding deliver_to
  deliver_found client none = pure false
  deliver_found client (some delivery) = do
    webhook ← query (λ db. get delivery.webhook_id db.webhooks)
    deliver_to client delivery webhook

  -- One attempt, with the HTTP client that it is given.
  unfoldable pub deliver_once : (Request → HttpOutcome) → ℕ → Exec F Bool
  unfolding deliver_found
  deliver_once client delivery_id = do
    delivery ← query (λ db. get delivery_id db.webhook_deliveries)
    deliver_found client delivery

  dispatch : ℕ → Exec F (Unit {0})
  unfolding deliver_once
  dispatch delivery_id =
      if not env.webhook_dispatch_enabled
      then pure tt
      else if env.webhook_delivery_eager
      then (do deliver_once env.client delivery_id; pure tt)
      else delay env (deliver_webhook delivery_id)

  enqueue_to : Ticket → String → Option Webhook → Exec F (Option (WebhookDelivery F))
  unfolding dispatch build_ticket_payload
  enqueue_to ticket event none = pure none
  enqueue_to ticket event (some webhook) = if not webhook.is_active then pure none else (do
    id ← fresh_id
    now ← get_now
    let delivery : WebhookDelivery F = record {
      id = id;
      webhook_id = webhook.id;
      organization_id = ticket.organization_id;
      event = event;
      payload = build_ticket_payload env ticket event id now;
      status = pending;
      attempts = 0;
      last_status_code = none;
      last_error = none;
      created_at = now;
    }
    write (λ db. record db { webhook_deliveries = db.webhook_deliveries ++ (delivery ∷ []) })
    commit
    dispatch id
    query (λ db. get id db.webhook_deliveries))

  unfoldable pub enqueue_for_ticket : Ticket → String → Exec F (Option (WebhookDelivery F))
  unfolding get_config enqueue_to
  enqueue_for_ticket ticket event = do
    webhook ← get_config ticket.organization_id
    enqueue_to ticket event webhook
