-- ===== src/Tickets/Service/Notification.antt =====
-- ticket_service.approve with webhook_service.enqueue_for_ticket: what an approval sends on its way.
use agentdesk_ai.Base.{
  ℕ, suc, ◌<◌, ◌≡◌, refl, Bool, true, false, Option, some, is_some, [], ◌∷◌, ◌++◌, String, ◌<>◌,
  is_blank, ◌==◌, first, All, All-weaken, arith, if◌then◌else◌,
}
use agentdesk_ai.Models.Ticket.{Ticket, waiting_approval, approved, can_transition}
use agentdesk_ai.Models.Records.{
  Webhook, WebhookDelivery, bool, obj, member, end, response_approved,
}
use agentdesk_ai.Session.{Session, Env, Result, ok, deliver_webhook}
use agentdesk_ai.Session.Rows.{get, update, get-update_self, ticket_row, delivery_row}
use agentdesk_ai.Audit.{record_event}
use agentdesk_ai.Webhooks.Delivery.Queue.{new_delivery, enqueue-queues}
use agentdesk_ai.Tickets.Machine.{decided_from_waiting}
use agentdesk_ai.Tickets.Service.{final_text, finish_approval, approve}
use agentdesk_ai.Tickets.Service.Laws.{moved}

-- The ticket's row after its approval at a time, with the response sent
abbrev pub approved_row : Ticket → Option String → Ticket → ℕ → Ticket
approved_row ticket edited row now = record row {
  status = approved;
  final_response = some (final_text ticket edited);
  updated_at = now;
}

module _ {F : Type 0} (env : Env F) where
  -- What an approval leaves that tells the organization's webhook: the ticket is answered and
  -- committed, and a delivery for it is committed and handed to the queue.
  pub record Notified (key : ℕ) (row : Ticket) (d : WebhookDelivery F) (s : Session F)
      (r : Result Ticket) (t : Session F) : Type 0 where
    pub answered : r ≡ ok row
    pub stored : get key t.committed.tickets ≡ some row
    pub webhooks : t.committed.webhooks ≡ s.working.webhooks
    pub delivery : get d.id t.committed.webhook_deliveries ≡ some d
    pub queued : t.queued ≡ s.queued ++ (deliver_webhook d.id ∷ [])
    pub posted : t.posted ≡ s.posted

  finish_approval-Notified :
      (ticket : Ticket) (actor : ℕ) (edited : Bool) (s : Session F) (row : Ticket) (w : Webhook)
      → get ticket.id s.working.tickets ≡ some row
      → first (λ x. x.organization_id == row.organization_id) s.working.webhooks ≡ some w
      → w.is_active ≡ true
      → env.webhook_dispatch_enabled ≡ true
      → env.webhook_delivery_eager ≡ false
      → env.broker_accepts (deliver_webhook (suc s.next_id)) ≡ true
      → All (λ d. d.id < suc s.next_id) s.working.webhook_deliveries
      → let (r, t) = finish_approval env ticket actor edited s in
        Notified ticket.id row
          (new_delivery env (suc s.next_id) s.now row "ticket.approved" w)
          s
          r
          t
  unfolding finish_approval record_event
  finish_approval-Notified ticket actor edited s row w found hook on enabled later accepted fresh =
      let logged : Session F =
        (record_event env response_approved (some ticket.organization_id) (some actor)
          (some "ticket") (some ticket.id) (some (obj (member "edited" (bool edited) end))) false
          s).1 in
      let u : Session F = record logged { committed = logged.working } in
      let q = enqueue-queues env row "ticket.approved" u w hook on enabled later accepted fresh in
      rw (found, q.answered)
        (record {
          answered = refl;
          stored = rw q.tickets found;
          webhooks = q.webhooks;
          delivery = q.stored;
          queued = q.queued;
          posted = q.posted;
        })

  -- An approval of a stored ticket that waits for it, with a final text that is not blank, in an
  -- organization with an active webhook: the ticket is answered and committed as approved, and a
  -- pending delivery of `ticket.approved`, with the payload of that ticket, is committed and handed
  -- to the queue; nothing is posted before the queue runs it. Deliveries are dispatched to a queue
  -- that accepts the task, and every stored delivery's key is below the next one.
  pub approve-Notified :
      (ticket : Ticket) (actor : ℕ) (edited : Option String) (s : Session F) (row : Ticket)
      (w : Webhook)
      → get ticket.id s.working.tickets ≡ some row
      → ticket.status ≡ waiting_approval
      → is_blank (final_text ticket edited) ≡ false
      → first (λ x. x.organization_id == row.organization_id) s.working.webhooks ≡ some w
      → w.is_active ≡ true
      → env.webhook_dispatch_enabled ≡ true
      → env.webhook_delivery_eager ≡ false
      → env.broker_accepts (deliver_webhook (suc (suc s.next_id))) ≡ true
      → All (λ d. d.id < s.next_id) s.working.webhook_deliveries
      → let after = approved_row ticket edited row s.now in
        let (r, t) = approve env ticket actor edited s in
        Notified ticket.id after
          (new_delivery env (suc (suc s.next_id)) s.now after "ticket.approved" w)
          s
          r
          t
  unfolding approve
  approve-Notified ticket actor edited s row w found waiting filled hook on enabled later accepted
        fresh =
      let final = final_text ticket edited in
      let legal : can_transition ticket.status approved ≡ true =
        (decided_from_waiting ticket.status).0.1 waiting in
      let noted =
        get-update_self ticket.id (λ t. record t { final_response = some final }) s.working.tickets
          (λ t. refl) found in
      let decided =
        get-update_self ticket.id (λ t. record t { status = approved; updated_at = s.now }) _
          (λ t. refl) noted in
      let t : Session F = record s {
        working = record s.working {
          tickets =
              update ticket.id (λ x. record x { final_response = some final }) s.working.tickets;
        };
      } in
      let u : Session F =
        moved (record ticket { final_response = some final }) approved (some actor) "approved"
          (some ("Response approved" <> (if is_some edited then " (edited)" else ""))) t in
      let known =
        All-weaken (λ d. d.id < s.next_id) (λ d. d.id < suc (suc s.next_id))
          s.working.webhook_deliveries (λ d p. omega arith) fresh in
      let ended =
        finish_approval-Notified
          (record ticket { status = approved; final_response = some final; updated_at = s.now })
          actor (is_some edited) u
          (record row { status = approved; final_response = some final; updated_at = s.now }) w
          decided hook on enabled later accepted known in
      rw (filled, legal)
        (record {
          answered = ended.answered;
          stored = ended.stored;
          webhooks = ended.webhooks;
          delivery = ended.delivery;
          queued = ended.queued;
          posted = ended.posted;
        })
