-- ===== src/Webhooks/Delivery/Laws.antt =====
-- webhook_service.deliver_once: one delivery attempt.
use mathlib.Core.Path.{subst}
use mathlib.Core.List.{append-nil}
use agentdesk_ai.Base.{
  none, sym, if◌then◌else◌, ℕ, ◌≡◌, refl, Bool, true, false, some, [], ◌∷◌, ◌++◌, arith,
}
use agentdesk_ai.Models.Records.{
  Webhook, WebhookDelivery, AuditLog, webhook_sent, obj, member, str, end,
}
use agentdesk_ai.Session.{
  Session, Env, Result, ok, Request, HttpOutcome, response, raised, in_session,
}
use agentdesk_ai.Session.Rows.{get, get-key, get-update_self, webhook_row, delivery_row}
use agentdesk_ai.Audit.{record_event}
use agentdesk_ai.Webhooks.Signing.{request_for}
use agentdesk_ai.Webhooks.Delivery.{
  is_success, note_outcome, settle, int_or_null, audit_sent, attempt, deliver_to, deliver_found,
  deliver_once,
}

module _ {F : Type 0} (env : Env F) where
  -- The audit entry of a delivery that got through.
  abbrev pub sent_entry : Session F → WebhookDelivery F → AuditLog F
  sent_entry s d = record {
    id = s.next_id;
    organization_id = some d.organization_id;
    actor_user_id = none;
    event = webhook_sent;
    target_type = some "webhook_delivery";
    target_id = some (env.str_id d.id);
    meta = some (
        obj (
          member "event" (str d.event)
            (member "status_code" (int_or_null env d.last_status_code) end)));
    created_at = s.now;
  }

  -- What an attempt for the delivery `d`, of key `key`, makes of a session, if it posts `request` and `outcome`
  -- comes back.
  pub record Attempted (request : Request) (outcome : HttpOutcome) (succeeded : Bool) (key : ℕ)
      (d : WebhookDelivery F) (s : Session F) (r : Result Bool) (t : Session F) : Type 0 where
    pub answered : r ≡ ok succeeded
    pub row :
        get key t.committed.webhook_deliveries
        ≡ some (settle env succeeded (note_outcome env outcome d))
    pub webhooks : t.committed.webhooks ≡ s.committed.webhooks
    pub sent : t.posted ≡ s.posted ++ (request ∷ [])
    pub audited :
        t.committed.audit_logs
        ≡ s.committed.audit_logs
          ++ (if succeeded then sent_entry s (note_outcome env outcome d) ∷ [] else [])

  settle-key :
      (o : HttpOutcome) (b : Bool) (d : WebhookDelivery F)
      → (settle env b (note_outcome env o d)).id ≡ d.id
  unfolding settle note_outcome
  settle-key (response c) true d = refl
  settle-key (response c) false d = ground arith
  settle-key (raised m) true d = refl
  settle-key (raised m) false d = ground arith

  attempted :
      (client : Request → HttpOutcome) (s : Session F) (d : WebhookDelivery F) (w : Webhook)
      → get d.id s.committed.webhook_deliveries ≡ some d
      → (b : Bool) → is_success env (client (request_for env d w s.now)) ≡ b
      → let (r, t) = in_session (attempt env client w d) s in
        Attempted (request_for env d w s.now) (client (request_for env d w s.now)) b d.id d s r t
  unfolding attempt audit_sent record_event
  attempted client s d w found true e =
      let o = client (request_for env d w s.now) in
      rw e (record {
        answered = refl;
        row =
            get-update_self d.id (λ x. settle env true (note_outcome env o x))
              s.committed.webhook_deliveries (settle-key o true) found;
        webhooks = refl;
        sent = refl;
        audited = refl;
      })
  attempted client s d w found false e =
      let o = client (request_for env d w s.now) in
      rw e (record {
        answered = refl;
        row =
            get-update_self d.id (λ x. settle env false (note_outcome env o x))
              s.committed.webhook_deliveries (settle-key o false) found;
        webhooks = refl;
        sent = refl;
        audited = sym (append-nil s.committed.audit_logs);
      })

  -- For a committed delivery whose webhook is committed, one attempt in a session of its own posts
  -- one request, signed for that webhook, answers whether the outcome was a 2xx response, and
  -- commits the delivery with the outcome noted and its status settled; the webhooks stay.
  pub deliver_once_lem :
      (client : Request → HttpOutcome) (s : Session F) (key : ℕ) (d : WebhookDelivery F)
      (w : Webhook)
      → get key s.committed.webhook_deliveries ≡ some d
      → get d.webhook_id s.committed.webhooks ≡ some w
      → let request = request_for env d w s.now in
        let outcome = client request in
        let (r, t) = in_session (deliver_once env client key) s in
        Attempted request outcome (is_success env outcome) key d s r t
  unfolding deliver_once deliver_found deliver_to
  deliver_once_lem client s key d w found to =
      let same = get-key key s.committed.webhook_deliveries found in
      subst
        (λ k.
          let request = request_for env d w s.now in
          let outcome = client request in
          let (r, t) = in_session (deliver_once env client k) s in
          get k s.committed.webhook_deliveries ≡ some d
          → Attempted request outcome (is_success env outcome) k d s r t)
        same (λ f. rw (f, to) (attempted client s d w f _ refl)) found
