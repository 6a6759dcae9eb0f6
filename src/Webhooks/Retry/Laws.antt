-- ===== src/Webhooks/Retry/Laws.antt =====
-- How often a delivery is tried.
use agentdesk_ai.Base.{
  ℕ, zero, suc, ◌+◌, ◌≡◌, ◌≤◌, ◌<◌, refl, sym, ◌∙◌, Option, none, Bool, true, false, some, length,
  ltb, arith, length-append, [], ◌∷◌,
}
use agentdesk_ai.Models.Records.{Webhook, WebhookDelivery, failed}
use agentdesk_ai.Session.{
  Session, in_session, Result, err, resume, pure, Env, Request, ok, HttpOutcome, response, raised,
}
use agentdesk_ai.Session.Rows.{get, webhook_row, delivery_row}
use agentdesk_ai.Webhooks.Signing.{request_for}
use agentdesk_ai.Webhooks.Delivery.{is_success, note_outcome, settle, deliver_once}
use agentdesk_ai.Webhooks.Delivery.Laws.{Attempted, deliver_once_lem}
use agentdesk_ai.Webhooks.Retry.{next_run, ask_retry, deliver_task, deliver_task_runs}

module _ {F : Type 0} (env : Env F) where
  -- A failed attempt, noted and settled.
  pub unlucky :
      (o : HttpOutcome) (d : WebhookDelivery F)
      → (settle env false (note_outcome env o d)).attempts ≡ suc d.attempts
  unfolding settle note_outcome
  unlucky (response c) d = ground arith
  unlucky (raised m) d = ground arith

  pub unlucky-webhook :
      (o : HttpOutcome) (d : WebhookDelivery F)
      → (settle env false (note_outcome env o d)).webhook_id ≡ d.webhook_id
  unfolding settle note_outcome
  unlucky-webhook (response c) d = ground arith
  unlucky-webhook (raised m) d = ground arith

  unlucky-failed :
      (o : HttpOutcome) (d : WebhookDelivery F)
      → env.webhook_max_retries ≤ suc d.attempts
      → (settle env false (note_outcome env o d)).status ≡ failed
  unfolding settle note_outcome
  unlucky-failed (response c) d h = ground (arith, h)
  unlucky-failed (raised m) d h = ground (arith, h)

  -- What the runs leave when no attempt succeeds: `n` more requests and attempts, and `failed`.
  pub record Exhausted (n key : ℕ) (d : WebhookDelivery F) (s t : Session F) : Type 0 where
    pub sent : length t.posted ≡ length s.posted + n
    pub last : WebhookDelivery F
    pub found : get key t.committed.webhook_deliveries ≡ some last
    pub tried : last.attempts ≡ d.attempts + n
    pub given_up : last.status ≡ failed

  -- One attempt that fails.
  pub unlucky_attempt :
      (client : Request → HttpOutcome)
      → ((r : Request) → is_success env (client r) ≡ false)
      → (s : Session F) (key : ℕ) (d : WebhookDelivery F) (w : Webhook)
      → get key s.committed.webhook_deliveries ≡ some d
      → get d.webhook_id s.committed.webhooks ≡ some w
      → let request = request_for env d w s.now in
        let made = in_session (deliver_once env client key) s in
        Attempted env request (client request) false key d s made.0 made.1
  unlucky_attempt client bad s key d w found to =
      rw (bad (request_for env d w s.now)) at (deliver_once_lem env client s key d w found to)

  -- The run of the task that makes it.
  pub unlucky_run :
      (client : Request → HttpOutcome)
      → ((r : Request) → is_success env (client r) ≡ false)
      → (retries : ℕ) (s : Session F) (key : ℕ) (d : WebhookDelivery F) (w : Webhook)
      → get key s.committed.webhook_deliveries ≡ some d
      → get d.webhook_id s.committed.webhooks ≡ some w
      → deliver_task env client retries key s
        ≡ (ok (ask_retry env retries false), (in_session (deliver_once env client key) s).1)
  unfolding deliver_task
  unlucky_run client bad retries s key d w found to =
      let a = unlucky_attempt client bad s key d w found to in rw (a.answered) refl

  exhausted :
      (clients : ℕ → Request → HttpOutcome) (times : ℕ → ℕ)
      → ((n : ℕ) (r : Request) → is_success env (clients n r) ≡ false)
      → (left retries : ℕ) → retries + left ≡ env.webhook_max_retries
      → (s : Session F) (key : ℕ) (d : WebhookDelivery F) (w : Webhook) → retries ≤ d.attempts
      → get key s.committed.webhook_deliveries ≡ some d
      → get d.webhook_id s.committed.webhooks ≡ some w
      → Exhausted (suc left) key d s (deliver_task_runs env clients times (suc left) retries key s)
  unfolding deliver_task_runs
  exhausted clients times bad zero retries h s key d w enough found to =
      let start : Session F = record s { now = times retries } in
      let o = clients retries (request_for env d w (times retries)) in
      let a = unlucky_attempt (clients retries) (bad retries) start key d w found to in
      let asked : ltb retries env.webhook_max_retries ≡ false = ground (arith, h) in
      rw (unlucky_run (clients retries) (bad retries) retries start key d w found to, asked)
        (record {
          sent = rw (a.sent) (length-append s.posted (request_for env d w (times retries) ∷ []));
          last = settle env false (note_outcome env o d);
          found = a.row;
          tried = omega (arith, unlucky o d);
          given_up = unlucky-failed o d (omega arith);
        })
  exhausted clients times bad (suc left) retries h s key d w enough found to =
      let start : Session F = record s { now = times retries } in
      let o = clients retries (request_for env d w (times retries)) in
      let e = settle env false (note_outcome env o d) in
      let a = unlucky_attempt (clients retries) (bad retries) start key d w found to in
      let t = (in_session (deliver_once env (clients retries) key) start).1 in
      let more : Exhausted (suc left) key e t
          (deliver_task_runs env clients times (suc left) (suc retries) key t) =
        exhausted clients times bad left (suc retries) (omega arith) t key e w
          (omega (arith, unlucky o d)) a.row (rw (unlucky-webhook o d, a.webhooks) to) in
      let posts : length t.posted ≡ length s.posted + 1 =
        rw (a.sent) (length-append s.posted (request_for env d w (times retries) ∷ [])) in
      let asked : ltb retries env.webhook_max_retries ≡ true = ground (arith, h) in
      rw (unlucky_run (clients retries) (bad retries) retries start key d w found to, asked)
        (record {
          sent = omega (arith, more.sent, posts);
          last = more.last;
          found = more.found;
          tried = omega (arith, unlucky o d, more.tried);
          given_up = more.given_up;
        })

  -- If the task's first run finds a committed delivery and its webhook, and no attempt is answered by
  -- a 2xx response, the runs post `webhook_max_retries + 1` requests, each one counted, and leave the
  -- delivery `failed`.
  pub all_attempts_fail :
      (clients : ℕ → Request → HttpOutcome) (times : ℕ → ℕ)
      → ((n : ℕ) (r : Request) → is_success env (clients n r) ≡ false)
      → (s : Session F) (key : ℕ) (d : WebhookDelivery F) (w : Webhook)
      → get key s.committed.webhook_deliveries ≡ some d
      → get d.webhook_id s.committed.webhooks ≡ some w
      → let n = suc env.webhook_max_retries in
        Exhausted n key d s (deliver_task_runs env clients times n 0 key s)
  all_attempts_fail clients times bad s key d w found to =
      exhausted clients times bad env.webhook_max_retries 0 (omega arith) s key d w (omega arith)
        found to

  -- A run that has used up its retries is the last one, whatever would come next.
  stop_asking :
      (retries : ℕ) (again : Session F → Session F) (r : Result Bool) (t : Session F)
      → env.webhook_max_retries ≤ retries
      → let (o, u) = resume r (λ b. pure (ask_retry env retries b)) t in next_run env again o u ≡ u
  stop_asking retries again (ok true) t h = refl
  stop_asking retries again (ok false) t h = ground (arith, h)
  stop_asking retries again (err e) t h = refl

  next_run-ap :
      (f g : Session F → Session F)
      → ((t : Session F) → f t ≡ g t)
      → (r : Result (Option F)) (t : Session F) → next_run env f r t ≡ next_run env g r t
  next_run-ap f g h (ok (some wait)) t = h t
  next_run-ap f g h (ok none) t = refl
  next_run-ap f g h (err e) t = refl

  enough :
      (clients : ℕ → Request → HttpOutcome) (times : ℕ → ℕ) (fuel left retries : ℕ)
      → left < fuel
      → retries + left ≡ env.webhook_max_retries
      → (key : ℕ) (s : Session F)
      → deliver_task_runs env clients times fuel retries key s
        ≡ deliver_task_runs env clients times (suc left) retries key s
  unfolding deliver_task_runs deliver_task
  enough clients times zero left retries g h key s = absurd (omega arith)
  enough clients times (suc fuel) zero retries g h key s =
      let start : Session F = record s { now = times retries } in
      let made = in_session (deliver_once env (clients retries) key) start in
      stop_asking retries (deliver_task_runs env clients times fuel (suc retries) key) made.0 made.1
        (omega arith)
      ∙ sym (stop_asking retries (λ t. t) made.0 made.1 (omega arith))
  enough clients times (suc fuel) (suc left) retries g h key s =
      let start : Session F = record s { now = times retries } in
      let made = deliver_task env (clients retries) retries key start in
      next_run-ap (deliver_task_runs env clients times fuel (suc retries) key)
        (deliver_task_runs env clients times (suc left) (suc retries) key)
        (enough clients times fuel left (suc retries) (omega arith) (omega arith) key) made.0 made.1

  -- Whatever the HTTP client does, the task has stopped asking for a retry after
  -- `webhook_max_retries + 1` runs: room for more runs changes nothing.
  pub enough_runs :
      (clients : ℕ → Request → HttpOutcome) (times : ℕ → ℕ) (fuel : ℕ)
      → env.webhook_max_retries < fuel
      → (key : ℕ) (s : Session F)
      → deliver_task_runs env clients times fuel 0 key s
        ≡ deliver_task_runs env clients times (suc env.webhook_max_retries) 0 key s
  enough_runs clients times fuel g key s =
      enough clients times fuel env.webhook_max_retries 0 g (omega arith) key s
