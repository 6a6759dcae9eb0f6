-- ===== src/Webhooks/Retry.antt =====
-- workers/tasks.py: the task `deliver_webhook`, and its runs one after another until it stops asking
-- for a retry. Each run has the time and the HTTP client that it meets.
pub mod Laws
pub mod Success
use Prim.Native.Nat.{◌^◌}
use agentdesk_ai.Base.{ℕ, zero, suc, ◌*◌, Bool, not, ◌&&◌, Option, none, some, ltb, if◌then◌else◌}
use agentdesk_ai.Session.{
  Session, Env, Request, HttpOutcome, Exec, Result, ok, err, pure, in_session, ◌>>=◌,
}
use agentdesk_ai.Webhooks.Delivery.{deliver_once}

module _ {F : Type 0} (env : Env F) where
  -- `webhook_backoff_base_seconds * (2**retries)`
  abbrev pub countdown : ℕ → F
  countdown retries =
      env.floats.mul env.webhook_backoff_base_seconds (env.floats.of_int (2 ^ retries))

  -- `raise self.retry(countdown=…)` is `some countdown`.
  abbrev pub ask_retry : ℕ → Bool → Option F
  ask_retry retries success =
      if not success && ltb retries env.webhook_max_retries then some (countdown retries) else none

  -- One run of the task.
  unfoldable pub deliver_task : (Request → HttpOutcome) → ℕ → ℕ → Exec F (Option F)
  unfolding deliver_once
  deliver_task client retries delivery_id =
      in_session (deliver_once env client delivery_id) >>= λ success.
      pure (ask_retry retries success)

  abbrev next_run : (Session F → Session F) → Result (Option F) → Session F → Session F
  next_run again (ok (some wait)) t = again t
  next_run again (ok none) t = t
  next_run again (err e) t = t

  -- The runs of the task from one with so many retries behind it, at most `fuel` of them.
  unfoldable pub deliver_task_runs :
      (ℕ → Request → HttpOutcome) → (ℕ → ℕ) → ℕ → ℕ → ℕ → Session F → Session F
  unfolding deliver_task
  deliver_task_runs clients times zero retries delivery_id s = s
  deliver_task_runs clients times (suc fuel) retries delivery_id s =
      let (r, t) =
        deliver_task (clients retries) retries delivery_id (record s { now = times retries }) in
      let again = deliver_task_runs clients times fuel (suc retries) delivery_id in
      next_run again r t
