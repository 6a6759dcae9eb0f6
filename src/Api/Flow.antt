-- ===== src/Api/Flow.antt =====
-- From an approval to the receiver of the webhook: ticket_service.approve, the queue, and the task
-- deliver_webhook of workers/tasks.py.
use agentdesk_ai.Json.{dumps}
use agentdesk_ai.Base.{
  ◌<>◌, ℕ, suc, ◌<◌, ◌≡◌, refl, ◌∙◌, ap, true, false, Option, some, [], ◌∷◌, ◌++◌, String, is_blank,
  ◌==◌, first, All, inl, inr,
}
use agentdesk_ai.Models.Ticket.{Ticket, waiting_approval}
use agentdesk_ai.Models.Records.{Webhook, WebhookDelivery, DeliveryStatus}
use agentdesk_ai.Session.{Session, Env, Request, HttpOutcome, deliver_webhook, in_session}
use agentdesk_ai.Session.Rows.{get, ticket_row, webhook_row, delivery_row}
use agentdesk_ai.Webhooks.Signing.{verify, request_for}
use agentdesk_ai.Webhooks.Signing.Laws.{request_for-verify}
use agentdesk_ai.Webhooks.Delivery.{is_success, note_outcome, settle, deliver_once}
use agentdesk_ai.Webhooks.Delivery.Laws.{Attempted, deliver_once_lem}
use agentdesk_ai.Webhooks.Delivery.Queue.{new_delivery}
use agentdesk_ai.Webhooks.Delivery.Effects.{IsQuiet-deliver_once}
use agentdesk_ai.Tickets.Service.{final_text, approve}
use agentdesk_ai.Tickets.Service.Notification.{approved_row, approve-Notified}

module _ {F : Type 0} (env : Env F) where
  -- What is sent at the approval and at the task, what the receiver has, and what is committed then.
  pub record Heard (key : ℕ) (row : Ticket) (d : WebhookDelivery F) (w : Webhook)
      (request : Request) (s t u : Session F) : Type 0 where
    pub handed : t.queued ≡ s.queued ++ (deliver_webhook d.id ∷ [])
    pub waits : t.posted ≡ s.posted
    pub posted : u.posted ≡ s.posted ++ (request ∷ [])
    pub address : request.url ≡ w.url
    pub content : request.content ≡ dumps env.str_float d.payload
    pub event : request.event ≡ "ticket.approved"
    pub signed : request.signature ≡ "sha256=" <> env.hmac_sha256 w.secret request.content
    pub genuine : verify env w.secret request.content request.signature ≡ true
    pub ticket : get key u.committed.tickets ≡ some row
    pub last : WebhookDelivery F
    pub stored : get d.id u.committed.webhook_deliveries ≡ some last
    pub succeeded : last.status ≡ DeliveryStatus.success

  deliver_once-tickets :
      (client : Request → HttpOutcome) (key : ℕ) (s : Session F)
      → (in_session (deliver_once env client key) s).1.committed.tickets ≡ s.committed.tickets
  deliver_once-tickets client key s =
      elim ((IsQuiet-deliver_once env client key).at
        (record s { working = s.committed })).published [ inl p ↦ p.0 | inr p ↦ p.0 ]

  settle-success : (x : WebhookDelivery F) → (settle env true x).status ≡ DeliveryStatus.success
  unfolding settle
  settle-success x = refl

  -- The approval of a stored ticket that waits for it, with a final text that is not blank, in an
  -- organization with an active webhook, and then the queue's task at a later time, with a receiver
  -- that answers it with a 2xx response: the approval hands the task to the queue and posts
  -- nothing; the task posts exactly one request, for `ticket.approved`, to the webhook's address,
  -- with the JSON text of the delivery's payload as its content and, for its signature, `sha256=` and
  -- the HMAC of that content under the webhook's secret, which verify accepts; the delivery is committed as a success, and the ticket as approved.
  -- Deliveries are dispatched to a queue that accepts the task, and every stored delivery's key is
  -- below the next one.
  pub approve-Heard :
      (ticket : Ticket) (actor : ℕ) (edited : Option String) (s : Session F) (row : Ticket)
      (w : Webhook) (client : Request → HttpOutcome) (now : ℕ)
      → get ticket.id s.working.tickets ≡ some row
      → ticket.status ≡ waiting_approval
      → is_blank (final_text ticket edited) ≡ false
      → first (λ x. x.organization_id == row.organization_id) s.working.webhooks ≡ some w
      → get w.id s.working.webhooks ≡ some w
      → w.is_active ≡ true
      → env.webhook_dispatch_enabled ≡ true
      → env.webhook_delivery_eager ≡ false
      → env.broker_accepts (deliver_webhook (suc (suc s.next_id))) ≡ true
      → All (λ d. d.id < s.next_id) s.working.webhook_deliveries
      → is_success env (
          client (
            request_for env
              (new_delivery env
                (suc (suc s.next_id))
                s.now
                (approved_row ticket edited row s.now)
                "ticket.approved"
                w)
              w
              now))
        ≡ true
      → let d =
          new_delivery env
            (suc (suc s.next_id))
            s.now
            (approved_row ticket edited row s.now)
            "ticket.approved"
            w in
        let t = record (approve env ticket actor edited s).1 { now = now } in
        Heard ticket.id
          (approved_row ticket edited row s.now)
          d
          w
          (request_for env d w now)
          s
          t
          (in_session (deliver_once env client d.id) t).1
  unfolding request_for
  approve-Heard ticket actor edited s row w client now found waiting filled hook stored on enabled
        later accepted fresh good =
      let after = approved_row ticket edited row s.now in
      let d = new_delivery env (suc (suc s.next_id)) s.now after "ticket.approved" w in
      let n =
        approve-Notified env ticket actor edited s row w found waiting filled hook on enabled later
          accepted fresh in
      let t : Session F = record (approve env ticket actor edited s).1 { now = now } in
      let o = client (request_for env d w now) in
      let signed = request_for-verify env d w now in
      let a : Attempted env (request_for env d w now) o true d.id d t
          (in_session (deliver_once env client d.id) t).0
          (in_session (deliver_once env client d.id) t).1 =
        rw good at (deliver_once_lem env client t d.id d w n.delivery (rw n.webhooks stored)) in
      record {
        handed = n.queued;
        waits = n.posted;
        posted = a.sent ∙ ap (λ x. x ++ (request_for env d w now ∷ [])) n.posted;
        address = refl;
        content = signed.2;
        event = refl;
        signed = signed.1;
        genuine = (signed.0 _).1 signed.1;
        ticket = ap (get ticket.id) (deliver_once-tickets client d.id t) ∙ n.stored;
        last = settle env true (note_outcome env o d);
        stored = a.row;
        succeeded = settle-success (note_outcome env o d);
      }
