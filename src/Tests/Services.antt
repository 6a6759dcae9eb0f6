-- ===== src/Tests/Services.antt =====
-- The theorems about the tickets, the webhooks and the runs, at concrete inputs.
use agentdesk_ai.Base.{
  ℕ, ◌<◌, ◌+◌, ◌≡◌, ◌≤◌, refl, inl, true, false, none, some, List, ◌∷◌, [], arith, if◌then◌else◌,
  ◌==◌, is_blank,
}
use agentdesk_ai.Models.Ticket.{
  Ticket, medium, new, waiting_approval, approved, rejected, can_transition,
}
use agentdesk_ai.Models.Records.{str, obj, member, end, response_rejected, ticket_created}
use agentdesk_ai.Session.{Request, Error, Request, HttpOutcome, response, err}
use agentdesk_ai.Session.Rows.{get, ticket_row, webhook_row, delivery_row}
use agentdesk_ai.Tickets.Machine.{Trail, move, start as begin, Visits, approved_after_waiting}
use agentdesk_ai.Tickets.Service.{final_text, approve, reject, create_ticket, new_ticket}
use agentdesk_ai.Tickets.Service.Laws.{approve-commits, approve-refused}
use agentdesk_ai.Json.{dumps}
use agentdesk_ai.Models.Records.{null}
use agentdesk_ai.Base.{◌<>◌, ◌↔◌, String}
use agentdesk_ai.Webhooks.Signing.{verify, request_for}
use agentdesk_ai.Webhooks.Signing.Laws.{request_for-verify}
use agentdesk_ai.Webhooks.Config.{upsert_config}
use agentdesk_ai.Webhooks.Config.Laws.{count_of, upsert_config-one}
use agentdesk_ai.Webhooks.Delivery.{is_success}
use agentdesk_ai.Webhooks.Retry.{deliver_task_runs}
use agentdesk_ai.Webhooks.Retry.Laws.{Exhausted, all_attempts_fail, enough_runs}
use agentdesk_ai.Webhooks.Retry.Success.{Delivered, attempt_succeeds}
use agentdesk_ai.Tickets.Service.Decisions.{
  event_row, Committed, ticket_entry, reject-commits, create_ticket-commits,
}
use agentdesk_ai.Tests.World.{
  world, secret, hook, delivery, waiting, start, with_waiting, refuse_all,
}

trail : Trail new approved
unfolding can_transition
trail = move {t = waiting_approval} (move begin refl) refl

approved_after_waiting_example : Visits waiting_approval trail
approved_after_waiting_example = approved_after_waiting trail (λ p. absurd cc) refl

approve-commits_example :
    get 7 (approve world waiting 2 none with_waiting).1.committed.tickets
    ≡ some (record waiting {
      status = approved;
      final_response = some (final_text waiting none);
      updated_at = 200;
    })
unfolding final_text is_blank
approve-commits_example = approve-commits world waiting 2 none with_waiting waiting refl refl refl

approve-refused_example :
    (e : Error) × ((approve world waiting 2 (some "  ") with_waiting).0 ≡ err e)
    × ((approve world waiting 2 (some "  ") with_waiting).1.committed ≡ with_waiting.committed)
unfolding final_text is_blank
approve-refused_example = approve-refused world waiting 2 (some "  ") with_waiting (inl refl)

reject-commits_example :
    let (r, t) = reject world waiting 2 (some "Too vague") with_waiting in
    Committed 7
      (record waiting { status = rejected; updated_at = 200 })
      (event_row 100 200 waiting "rejected"
        (some waiting_approval)
        (some rejected)
        (some 2)
        (some "Too vague"))
      (ticket_entry world 101 200 response_rejected waiting 2
          (some (obj (member "reason" (str "Too vague") end)))
        ∷ [])
      with_waiting
      r
      t
reject-commits_example =
    reject-commits world waiting 2 (some "Too vague") with_waiting waiting refl refl

create_ticket-commits_example :
    let row = new_ticket 100 200 1 2 "Billing" "The invoice is wrong" medium in
    let (r, t) = create_ticket world 1 2 "Billing" "The invoice is wrong" medium with_waiting in
    Committed 100 row
      (event_row 101 200 row "created" none (some new) (some 2) none)
      (ticket_entry world 102 200 ticket_created row 2 none ∷ [])
      with_waiting
      r
      t
create_ticket-commits_example =
    create_ticket-commits world 1 2 "Billing" "The invoice is wrong" medium with_waiting
      (omega arith, tt)

request_for-verify_example :
    let request = request_for world delivery hook 200 in
    let hmac = "sha256=" <> world.hmac_sha256 secret request.content in
    ((signature : String)
      → (verify world secret request.content signature ≡ true) ↔ (signature ≡ hmac))
    × (request.signature ≡ hmac)
    × (request.content ≡ dumps world.str_float null)
request_for-verify_example = request_for-verify world delivery hook 200

upsert_config-one_example :
    count_of 1 (upsert_config 1 "https://example.org/new" secret true start).1.committed.webhooks
    ≤ 1
unfolding count_of
upsert_config-one_example =
    upsert_config-one 1 "https://example.org/new" secret true start 1 (omega arith)

all_attempts_fail_example :
    Exhausted world 6 4 delivery start
      (deliver_task_runs world refuse_all (λ n. 300 + n) 6 0 4 start)
unfolding is_success
all_attempts_fail_example =
    all_attempts_fail world refuse_all (λ n. 300 + n) (λ n r. refl) start 4 delivery hook refl refl

enough_runs_example :
    deliver_task_runs world refuse_all (λ n. 300 + n) 9 0 4 start
    ≡ deliver_task_runs world refuse_all (λ n. 300 + n) 6 0 4 start
enough_runs_example = enough_runs world refuse_all (λ n. 300 + n) 9 (omega arith) 4 start

-- The third attempt is answered.
abbrev third_time : ℕ → Request → HttpOutcome
third_time n r = if n == 2 then response 200 else response 503

refused_before : (n : ℕ) → n < 2 → (r : Request) → is_success world (third_time n r) ≡ false
unfolding is_success
refused_before n h r = ground arith

attempt_succeeds_example :
    Delivered world 3 4 delivery start
      (deliver_task_runs world third_time (λ n. 300 + n) 6 0 4 start)
unfolding is_success
attempt_succeeds_example =
    attempt_succeeds world third_time (λ n. 300 + n) 2 refused_before (λ r. refl) (omega arith)
      start 4 delivery hook refl refl
