-- ===== src/Webhooks/Delivery/Queue.antt =====
-- webhook_service.enqueue_for_ticket: when a delivery is recorded and handed to the queue.
use agentdesk_ai.Base.{
  ℕ, ◌<◌, ◌≡◌, refl, true, false, Option, none, some, [], ◌∷◌, ◌++◌, String, ◌==◌, All, first, suc,
}
use agentdesk_ai.Models.Ticket.{Ticket}
use agentdesk_ai.Models.Records.{Webhook, WebhookDelivery, pending}
use agentdesk_ai.Session.{Db, Session, Env, Result, ok, deliver_webhook, delay}
use agentdesk_ai.Session.Rows.{get, get-append_new, delivery_row}
use agentdesk_ai.Webhooks.Signing.{build_ticket_payload}
use agentdesk_ai.Webhooks.Config.{get_config}
use agentdesk_ai.Webhooks.Delivery.{dispatch, enqueue_to, enqueue_for_ticket}

module _ {F : Type 0} (env : Env F) where
  -- `WebhookDelivery(…)` with the payload of the ticket
  abbrev pub new_delivery : ℕ → ℕ → Ticket → String → Webhook → WebhookDelivery F
  new_delivery id now ticket event webhook = record {
    id = id;
    webhook_id = webhook.id;
    organization_id = ticket.organization_id;
    event = event;
    payload = build_ticket_payload env ticket event id now;
    status = pending;
    attempts = 0;
    last_status_code = none;
    last_error = none;
    created_at = now;
  }

  -- The delivery is committed behind the others and handed to the queue, and nothing is posted yet.
  pub record Queued (d : WebhookDelivery F) (s : Session F)
      (r : Result (Option (WebhookDelivery F))) (t : Session F) : Type 0 where
    pub answered : r ≡ ok (some d)
    pub stored : get d.id t.committed.webhook_deliveries ≡ some d
    pub deliveries : t.committed.webhook_deliveries ≡ s.working.webhook_deliveries ++ (d ∷ [])
    pub tickets : t.committed.tickets ≡ s.working.tickets
    pub webhooks : t.committed.webhooks ≡ s.working.webhooks
    pub queued : t.queued ≡ s.queued ++ (deliver_webhook d.id ∷ [])
    pub posted : t.posted ≡ s.posted

  -- Without a webhook of the organization, or with one that is not active, nothing happens.
  pub enqueue-silent :
      (ticket : Ticket) (event : String) (s : Session F)
      → first (λ w. w.organization_id == ticket.organization_id) s.working.webhooks ≡ none
      → enqueue_for_ticket env ticket event s ≡ (ok none, s)
  unfolding enqueue_for_ticket get_config enqueue_to
  enqueue-silent ticket event s missing = rw missing refl

  pub enqueue-inactive :
      (ticket : Ticket) (event : String) (s : Session F) (w : Webhook)
      → first (λ x. x.organization_id == ticket.organization_id) s.working.webhooks ≡ some w
      → w.is_active ≡ false
      → enqueue_for_ticket env ticket event s ≡ (ok none, s)
  unfolding enqueue_for_ticket get_config enqueue_to
  enqueue-inactive ticket event s w found off = rw (found, off) refl

  dispatch-queues :
      (key : ℕ) (s : Session F)
      → env.webhook_dispatch_enabled ≡ true
      → env.webhook_delivery_eager ≡ false
      → env.broker_accepts (deliver_webhook key) ≡ true
      → dispatch env key s ≡ (ok tt, record s { queued = s.queued ++ (deliver_webhook key ∷ []) })
  unfolding dispatch
  dispatch-queues key s enabled later accepted = simp (enabled, later, accepted, delay)

  pub enqueue-queues :
      (ticket : Ticket) (event : String) (s : Session F) (w : Webhook)
      → first (λ x. x.organization_id == ticket.organization_id) s.working.webhooks ≡ some w
      → w.is_active ≡ true
      → env.webhook_dispatch_enabled ≡ true
      → env.webhook_delivery_eager ≡ false
      → env.broker_accepts (deliver_webhook s.next_id) ≡ true
      → All (λ d. d.id < s.next_id) s.working.webhook_deliveries
      → let (r, t) = enqueue_for_ticket env ticket event s in
        Queued (new_delivery s.next_id s.now ticket event w) s r t
  unfolding enqueue_for_ticket get_config enqueue_to
  enqueue-queues ticket event s w found on enabled later accepted fresh =
      let d = new_delivery s.next_id s.now ticket event w in
      let stored = get-append_new s.working.webhook_deliveries d fresh in
      let db : Db F = record s.working {
        webhook_deliveries = s.working.webhook_deliveries ++ (d ∷ []);
      } in
      let u : Session F = record s { working = db; committed = db; next_id = suc s.next_id } in
      rw (found, on, dispatch-queues s.next_id u enabled later accepted, stored)
        (record {
          answered = refl;
          stored = stored;
          deliveries = refl;
          tickets = refl;
          webhooks = refl;
          queued = refl;
          posted = refl;
        })
