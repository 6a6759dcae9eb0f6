-- ===== src/Tests/Guards.antt =====
-- Who is let in, and what is sent on its way, at concrete inputs.
use agentdesk_ai.Base.{ℕ, ◌≡◌, ◌⊎◌, refl, is_some, some, none, [], ◌∷◌, ◌++◌, arith}
use agentdesk_ai.Models.Ticket.{new}
use agentdesk_ai.Models.Records.{viewer, operator}
use agentdesk_ai.Session.{Session, in_session, err, ok, http, conflict}
use agentdesk_ai.Tickets.Service.{final_text, approve}
use agentdesk_ai.Tickets.Service.Notification.{approved_row}
use agentdesk_ai.Webhooks.Signing.{request_for}
use agentdesk_ai.Webhooks.Delivery.{is_success, deliver_once}
use agentdesk_ai.Tickets.Transition.{new_event}
use agentdesk_ai.Session.Own.{alone}
use agentdesk_ai.Api.Privacy.{SameAnswers, own_rows-SameAnswers}
use agentdesk_ai.Api.Flow.{Heard, approve-Heard}
use agentdesk_ai.Webhooks.Delivery.Queue.{new_delivery}
use agentdesk_ai.Auth.Service.{new_user, create_user}
use agentdesk_ai.Auth.Service.Laws.{Taken, Free, create_user_lem}
use agentdesk_ai.Api.Serve.{post_user, perform}
use agentdesk_ai.Api.Guards.{perform-refused}
use agentdesk_ai.Tests.World.{world, ada, hook, chunk, waiting, tables, start, with_waiting}

approve-Heard_example :
    let row = approved_row waiting none waiting 200 in
    let d = new_delivery world 102 200 row "ticket.approved" hook in
    let t : Session ℕ = record (approve world waiting 2 none with_waiting).1 { now = 260 } in
    Heard world 7 row d hook
      (request_for world d hook 260)
      with_waiting
      t
      (in_session (deliver_once world world.client 102) t).1
unfolding final_text agentdesk_ai.Base.is_blank is_success
approve-Heard_example =
    approve-Heard world waiting 2 none with_waiting waiting hook world.client 260 refl refl refl
      refl refl refl refl refl refl (omega arith, tt) refl

-- Two organizations: a ticket, its event, a user, a webhook and a chunk of another one stand first.
abbrev shared : Session ℕ
shared = record start {
  working = record tables {
    users = record ada { id = 12; organization_id = 5 } ∷ ada ∷ [];
    tickets = record waiting { id = 9; organization_id = 5 } ∷ waiting ∷ [];
    ticket_events =
        new_event 10 40 (record waiting { id = 9; organization_id = 5 }) "created" none (some new)
          (some 12) none
        ∷ new_event 11 50 waiting "created" none (some new) (some 2) none
        ∷ [];
    webhooks = record hook { id = 13; organization_id = 5 } ∷ hook ∷ [];
    document_chunks = record chunk { organization_id = 5 } ∷ chunk ∷ [];
  };
}

own_rows-SameAnswers_example : SameAnswers world (some "access") shared (alone 1 shared)
unfolding agentdesk_ai.Auth.Access.get_current_user
own_rows-SameAnswers_example = own_rows-SameAnswers world (some "access") shared ada refl (record {
  keys = (((λ e. absurd (omega arith)), tt), (tt, tt));
  events =
      ((λ e. absurd (omega arith)), ((λ e. ((λ p. absurd (omega arith)), ((λ p. refl), tt))), tt));
  chunks = tt;
})

-- A session whose only user reads.
abbrev looking : Session ℕ
looking = record start { working = record tables { users = record ada { role = viewer } ∷ [] } }

perform-refused_example :
    perform world (post_user (some "access") "eve@example.org" "password" operator) looking
    ≡ (err (http 403 "Insufficient role for this action"), looking)
unfolding agentdesk_ai.Api.Routes.current_user agentdesk_ai.Auth.Access.get_current_user
    agentdesk_ai.Auth.Access.require_role
perform-refused_example =
    perform-refused world (post_user (some "access") "eve@example.org" "password" operator) _
      looking (http 403 "Insufficient role for this action") refl refl

create_user_lem_example :
    let user = new_user world 100 200 1 "bo@example.org" "password" viewer in
    let (r, t) = create_user world 1 "bo@example.org" "password" viewer start in
    (Taken world 1 "bo@example.org" start.working.users
      × (r ≡ err (conflict "A user with this email already exists in the organization"))
      × (t ≡ start))
    ⊎ (Free world 1 "bo@example.org" start.working.users
        × (r ≡ ok user)
        × (t.committed.users ≡ start.working.users ++ (user ∷ [])))
create_user_lem_example =
    create_user_lem world 1 "bo@example.org" "password" viewer start (omega arith, tt)
