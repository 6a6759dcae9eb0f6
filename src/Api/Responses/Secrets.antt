-- ===== src/Api/Responses/Secrets.antt =====
-- schemas/webhook.py and schemas/user.py: the answers of GET /webhooks and GET /users.
use agentdesk_ai.Base.{
  ℕ, ◌≡◌, refl, ◌∙◌, ap, not, ◌&&◌, leb, Bool, Option, none, some, List, [], ◌∷◌, map, map_option,
  String, str_eq, first, select, ◌==◌, Bool-cases, inl, inr,
}
use agentdesk_ai.Base.Order.{order_by, place, order_by_asc, asc}
use agentdesk_ai.Models.Records.{Webhook, User, Role, admin}
use agentdesk_ai.Session.{Session, Env, Exec, Result, ok, err, resume, ◌>>=◌}
use agentdesk_ai.Session.ReadOnly.{IsReadOnly}
use agentdesk_ai.Auth.Effects.{IsReadOnly-get_current_user}
use agentdesk_ai.Api.Soundness.Common.{IsReadOnly-current_user}
use agentdesk_ai.Session.Rows.{get, user_row}
use agentdesk_ai.Webhooks.Config.{get_config}
use agentdesk_ai.Auth.Tokens.{decode_token}
use agentdesk_ai.Auth.Access.{
  is_empty, active_or_401, require_role, has_role, subject_of, user_of, get_current_user,
}
use agentdesk_ai.Auth.Service.{list_users}
use agentdesk_ai.Api.Routes.{current_user, get_webhook, get_users}
use agentdesk_ai.Api.Responses.{webhook_out, user_out, respond, body}

abbrev pub scrub_webhook : Webhook → Webhook
scrub_webhook w = record w { secret = "" }

abbrev pub scrub_user : User → User
scrub_user u = record u { hashed_password = "" }

abbrev map_result : {A B : Type 0} → (A → B) → Result A → Result B
map_result f (ok a) = ok (f a)
map_result f (err e) = err e

get-scrub :
    (key : ℕ) (us : List User) → get key (map scrub_user us) ≡ map_option scrub_user (get key us)
get-scrub key [] = refl
get-scrub key (u ∷ us) = elim (Bool-cases (u.id == key)) [
  | inl e ↦ rw e refl
  | inr e ↦ rw e (get-scrub key us)
]

first-scrub :
    (o : ℕ) (ws : List Webhook)
    → first (λ w. w.organization_id == o) (map scrub_webhook ws)
      ≡ map_option scrub_webhook (first (λ w. w.organization_id == o) ws)
first-scrub o [] = refl
first-scrub o (w ∷ ws) = elim (Bool-cases (w.organization_id == o)) [
  | inl e ↦ rw e refl
  | inr e ↦ rw e (first-scrub o ws)
]

select-scrub :
    (o : ℕ) (us : List User)
    → select (λ u. u.organization_id == o) (map scrub_user us)
      ≡ map scrub_user (select (λ u. u.organization_id == o) us)
select-scrub o [] = refl
select-scrub o (u ∷ us) = elim (Bool-cases (u.organization_id == o)) [
  | inl e ↦ rw (e, select-scrub o us) refl
  | inr e ↦ rw (e, select-scrub o us) refl
]

earlier : User → User → Bool
earlier = asc (λ u. u.created_at)

place-scrub :
    (u : User) (us : List User)
    → place earlier (scrub_user u) (map scrub_user us) ≡ map scrub_user (place earlier u us)
unfolding place earlier
place-scrub u [] = refl
place-scrub u (x ∷ us) = elim (Bool-cases (leb u.created_at x.created_at)) [
  | inl e ↦ rw e refl
  | inr e ↦ rw (e, place-scrub u us) refl
]

order_by-scrub :
    (us : List User) → order_by earlier (map scrub_user us) ≡ map scrub_user (order_by earlier us)
unfolding order_by
order_by-scrub [] = refl
order_by-scrub (u ∷ us) =
    ap (place earlier (scrub_user u)) (order_by-scrub us) ∙ place-scrub u (order_by earlier us)

module _ {F : Type 0} where
  -- The session with every secret and every password hash replaced by an empty text.
  abbrev pub scrubbed : Session F → Session F
  scrubbed s = record s {
    working = record s.working {
      webhooks = map scrub_webhook s.working.webhooks;
      users = map scrub_user s.working.users;
    };
  }

  active-scrub :
      (o : Option User) (s : Session F)
      → active_or_401 (map_option scrub_user o) (scrubbed s)
        ≡ (map_result scrub_user (active_or_401 {F = F} o s).0, scrubbed s)
  active-scrub none s = refl
  active-scrub (some u) s = elim (Bool-cases u.is_active) [ inl e ↦ rw e refl | inr e ↦ rw e refl ]

  require-scrub :
      (allowed : List Role) (u : User) (s : Session F)
      → require_role allowed (scrub_user u) (scrubbed s)
        ≡ (map_result scrub_user (require_role {F = F} allowed u s).0, scrubbed s)
  unfolding require_role
  require-scrub allowed u s =
      elim (Bool-cases (not (is_empty allowed) && not (has_role allowed u.role))) [
        | inl e ↦ rw e refl
        | inr e ↦ rw e refl
      ]

  -- An action that sees no more of the secrets than `g` lets through, and what follows it.
  bind-scrub :
      {A B : Type 0} (g : A → A) (h : B → B) (m : Exec F A) (f : A → Exec F B) (s : Session F)
      → m (scrubbed s) ≡ (map_result g (m s).0, scrubbed s)
      → IsReadOnly m
      → ((a : A) → f (g a) (scrubbed s) ≡ (map_result h (f a s).0, scrubbed s))
      → (m >>= f) (scrubbed s) ≡ (map_result h ((m >>= f) s).0, scrubbed s)
  bind-scrub {A} {B} g h m f s seen unchanged after = rw seen (go (m s).0 (m s).1 (unchanged.at s))
    where
      go :
          (r : Result A) (t : Session F)
          → t ≡ s
          → resume (map_result g r) f (scrubbed s) ≡ (map_result h (resume r f t).0, scrubbed s)
      go (ok a) t e = rw e (after a)
      go (err e) t p = refl

module _ {F : Type 0} (env : Env F) where
  user_of-scrub :
      (key : Option ℕ) (s : Session F)
      → user_of env key (scrubbed s) ≡ (map_result scrub_user (user_of env key s).0, scrubbed s)
  unfolding user_of
  user_of-scrub none s = refl
  user_of-scrub (some key) s =
      rw (get-scrub key s.working.users) (active-scrub (get key s.working.users) s)

  get_current_user-scrub :
      (creds : Option String) (s : Session F)
      → get_current_user env creds (scrubbed s)
        ≡ (map_result scrub_user (get_current_user env creds s).0, scrubbed s)
  unfolding get_current_user
  get_current_user-scrub none s = refl
  get_current_user-scrub (some token) s = elim (Bool-cases (str_eq token "")) [
    | inl e ↦ rw e refl
    | inr e ↦ rw e (user_of-scrub (subject_of env (decode_token env s.now token "access")) s)
  ]

  current_user-scrub :
      (creds : Option String) (allowed : List Role) (s : Session F)
      → current_user env creds allowed (scrubbed s)
        ≡ (map_result scrub_user (current_user env creds allowed s).0, scrubbed s)
  unfolding current_user
  current_user-scrub creds allowed s =
      bind-scrub scrub_user scrub_user (get_current_user env creds) (require_role allowed) s
        (get_current_user-scrub creds s) (IsReadOnly-get_current_user env creds)
        (λ u. require-scrub allowed u s)

  get_webhook-scrub :
      (creds : Option String) (s : Session F)
      → get_webhook env creds (scrubbed s)
        ≡ (map_result (map_option scrub_webhook) (get_webhook env creds s).0, scrubbed s)
  unfolding get_webhook get_config
  get_webhook-scrub creds s =
      bind-scrub scrub_user (map_option scrub_webhook) (current_user env creds (admin ∷ []))
        (λ u. get_config u.organization_id) s (current_user-scrub creds (admin ∷ []) s)
        (IsReadOnly-current_user env creds (admin ∷ []))
        (λ u. ap (λ w. (ok w, scrubbed s)) (first-scrub u.organization_id s.working.webhooks))

  get_users-scrub :
      (creds : Option String) (s : Session F)
      → get_users env creds (scrubbed s)
        ≡ (map_result (map scrub_user) (get_users env creds s).0, scrubbed s)
  unfolding get_users list_users order_by_asc earlier
  get_users-scrub creds s =
      bind-scrub scrub_user (map scrub_user) (current_user env creds (admin ∷ []))
        (λ u. list_users u.organization_id) s (current_user-scrub creds (admin ∷ []) s)
        (IsReadOnly-current_user env creds (admin ∷ []))
        (λ u.
          ap (λ us. (ok us, scrubbed s))
            (ap (order_by earlier) (select-scrub u.organization_id s.working.users)
              ∙ order_by-scrub
                  (select (λ x. x.organization_id == u.organization_id) s.working.users)))

  webhook_out-scrub :
      (r : Result (Option Webhook))
      → respond (map_option webhook_out) (map_result (map_option scrub_webhook) r)
        ≡ respond (map_option webhook_out) r
  webhook_out-scrub (ok none) = refl
  webhook_out-scrub (ok (some w)) = refl
  webhook_out-scrub (err e) = refl

  users_out : (us : List User) → map user_out (map scrub_user us) ≡ map user_out us
  users_out [] = refl
  users_out (u ∷ us) = ap (λ rest. user_out u ∷ rest) (users_out us)

  users_out-scrub :
      (r : Result (List User))
      → respond (map user_out) (map_result (map scrub_user) r) ≡ respond (map user_out) r
  users_out-scrub (ok us) = ap body (users_out us)
  users_out-scrub (err e) = refl

  -- The answers of GET /webhooks and GET /users hold nothing of a webhook's secret or a user's
  -- password hash: for every caller they are what they would be if all of these were empty.
  pub secrets_hidden :
      (creds : Option String) (s : Session F)
      → (respond (map_option webhook_out) (get_webhook env creds (scrubbed s)).0
          ≡ respond (map_option webhook_out) (get_webhook env creds s).0)
        × (respond (map user_out) (get_users env creds (scrubbed s)).0
            ≡ respond (map user_out) (get_users env creds s).0)
  secrets_hidden creds s = (
    rw (get_webhook-scrub creds s) (webhook_out-scrub (get_webhook env creds s).0),
    rw (get_users-scrub creds s) (users_out-scrub (get_users env creds s).0),
  )
