-- ===== src/Webhooks/Retry/Success.antt =====
-- workers/tasks.py: a delivery and the first attempt that is answered by a 2xx response.
use mathlib.Core.Path.{subst}
use agentdesk_ai.Base.{
  ℕ, some, none, zero, suc, ◌+◌, ◌≡◌, ◌≤◌, ◌<◌, refl, true, false, length, ltb, arith,
  length-append, [], ◌∷◌,
}
use agentdesk_ai.Models.Records.{Webhook, WebhookDelivery, DeliveryStatus}
use agentdesk_ai.Session.{Session, in_session, Env, Request, ok, HttpOutcome, response, raised}
use agentdesk_ai.Session.Rows.{get, webhook_row, delivery_row}
use agentdesk_ai.Webhooks.Signing.{request_for}
use agentdesk_ai.Webhooks.Delivery.{is_success, note_outcome, settle, deliver_once}
use agentdesk_ai.Webhooks.Delivery.Laws.{Attempted, deliver_once_lem}
use agentdesk_ai.Webhooks.Retry.{deliver_task, deliver_task_runs}
use agentdesk_ai.Webhooks.Retry.Laws.{unlucky, unlucky-webhook, unlucky_attempt, unlucky_run}

module _ {F : Type 0} (env : Env F) where
  lucky :
      (o : HttpOutcome) (d : WebhookDelivery F)
      → ((settle env true (note_outcome env o d)).attempts ≡ suc d.attempts)
        × ((settle env true (note_outcome env o d)).status ≡ DeliveryStatus.success)
  unfolding settle note_outcome
  lucky (response c) d = ground arith
  lucky (raised m) d = ground arith

  -- What the runs leave when the last of `n` attempts succeeds.
  pub record Delivered (n key : ℕ) (d : WebhookDelivery F) (s t : Session F) : Type 0 where
    pub sent : length t.posted ≡ length s.posted + n
    pub last : WebhookDelivery F
    pub found : get key t.committed.webhook_deliveries ≡ some last
    pub tried : last.attempts ≡ d.attempts + n
    pub succeeded : last.status ≡ DeliveryStatus.success

  lucky_attempt :
      (client : Request → HttpOutcome)
      → ((r : Request) → is_success env (client r) ≡ true)
      → (s : Session F) (key : ℕ) (d : WebhookDelivery F) (w : Webhook)
      → get key s.committed.webhook_deliveries ≡ some d
      → get d.webhook_id s.committed.webhooks ≡ some w
      → let request = request_for env d w s.now in
        let made = in_session (deliver_once env client key) s in
        Attempted env request (client request) true key d s made.0 made.1
  lucky_attempt client good s key d w found to =
      rw (good (request_for env d w s.now)) at (deliver_once_lem env client s key d w found to)

  lucky_run :
      (client : Request → HttpOutcome)
      → ((r : Request) → is_success env (client r) ≡ true)
      → (retries : ℕ) (s : Session F) (key : ℕ) (d : WebhookDelivery F) (w : Webhook)
      → get key s.committed.webhook_deliveries ≡ some d
      → get d.webhook_id s.committed.webhooks ≡ some w
      → deliver_task env client retries key s
        ≡ (ok none, (in_session (deliver_once env client key) s).1)
  unfolding deliver_task
  lucky_run client good retries s key d w found to =
      let a = lucky_attempt client good s key d w found to in rw (a.answered) refl

  module _ (clients : ℕ → Request → HttpOutcome) (times : ℕ → ℕ) (goal : ℕ)
      (bad : (n : ℕ) → n < goal → (r : Request) → is_success env (clients n r) ≡ false)
      (good : (r : Request) → is_success env (clients goal r) ≡ true)
      (allowed : goal ≤ env.webhook_max_retries) where
    delivered :
        (left retries fuel : ℕ)
        → retries + left ≡ goal
        → left ≤ fuel
        → (s : Session F) (key : ℕ) (d : WebhookDelivery F) (w : Webhook)
        → get key s.committed.webhook_deliveries ≡ some d
        → get d.webhook_id s.committed.webhooks ≡ some w
        → Delivered
            (suc left)
            key
            d
            s
            (deliver_task_runs env clients times (suc fuel) retries key s)
    unfolding deliver_task_runs
    delivered zero retries fuel h g s key d w found to =
        let start : Session F = record s { now = times retries } in
        let o = clients retries (request_for env d w (times retries)) in
        let reached : goal ≡ retries = omega arith in
        let here : (r : Request) → is_success env (clients retries r) ≡ true =
          subst (λ n. (r : Request) → is_success env (clients n r) ≡ true) reached good in
        let a = lucky_attempt (clients retries) here start key d w found to in
        rw (lucky_run (clients retries) here retries start key d w found to) (record {
          sent = rw (a.sent) (length-append s.posted (request_for env d w (times retries) ∷ []));
          last = settle env true (note_outcome env o d);
          found = a.row;
          tried = omega (arith, (lucky o d).0);
          succeeded = (lucky o d).1;
        })
    delivered (suc left) retries zero h g s key d w found to = absurd (omega arith)
    delivered (suc left) retries (suc fuel) h g s key d w found to =
        let start : Session F = record s { now = times retries } in
        let o = clients retries (request_for env d w (times retries)) in
        let e = settle env false (note_outcome env o d) in
        let here = bad retries (omega arith) in
        let a = unlucky_attempt env (clients retries) here start key d w found to in
        let t = (in_session (deliver_once env (clients retries) key) start).1 in
        let more : Delivered (suc left) key e t
            (deliver_task_runs env clients times (suc fuel) (suc retries) key t) =
          delivered left (suc retries) fuel (omega arith) (omega arith) t key e w a.row
            (rw (unlucky-webhook env o d, a.webhooks) to) in
        let posts : length t.posted ≡ length s.posted + 1 =
          rw (a.sent) (length-append s.posted (request_for env d w (times retries) ∷ [])) in
        let asked : ltb retries env.webhook_max_retries ≡ true = ground (arith, h, allowed) in
        rw (unlucky_run env (clients retries) here retries start key d w found to, asked)
          (record {
            sent = omega (arith, more.sent, posts);
            last = more.last;
            found = more.found;
            tried = omega (arith, unlucky env o d, more.tried);
            succeeded = more.succeeded;
          })

    -- If a committed delivery has its webhook, and the attempt after `goal` failed ones is answered
    -- by a 2xx response, with `goal` at most `webhook_max_retries`, then the delivery gets through:
    -- the runs post `goal + 1` requests, count each one, and leave the delivery `success`.
    pub attempt_succeeds :
        (s : Session F) (key : ℕ) (d : WebhookDelivery F) (w : Webhook)
        → get key s.committed.webhook_deliveries ≡ some d
        → get d.webhook_id s.committed.webhooks ≡ some w
        → let n = suc env.webhook_max_retries in
          Delivered (suc goal) key d s (deliver_task_runs env clients times n 0 key s)
    attempt_succeeds s key d w found to =
        delivered goal 0 env.webhook_max_retries (omega arith) allowed s key d w found to
