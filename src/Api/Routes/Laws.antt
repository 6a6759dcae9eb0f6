-- ===== src/Api/Routes/Laws.antt =====
-- Who gets through to a route.
use agentdesk_ai.Base.{
  ℕ, ◌≡◌, refl, Bool, true, false, Option, none, some, List, ◌∷◌, String, if◌then◌else◌,
}
use agentdesk_ai.Models.Records.{Role, User}
use agentdesk_ai.Session.{Session, Env, Result, ok, err, http, resume}
use agentdesk_ai.Session.Rows.{get, user_row}
use agentdesk_ai.Auth.Tokens.{decode_token}
use agentdesk_ai.Auth.Access.{has_role, require_role, subject_of, get_current_user}
use agentdesk_ai.Auth.Access.Laws.{require_role_lem, get_current_user_lem, get_current_user-none}
use agentdesk_ai.Api.Routes.{current_user}

module _ {F : Type 0} (role : Role) (more : List Role) where
  decided :
      (u : User) (t : Session F) (user : User) (b : Bool)
      → has_role (role ∷ more) u.role ≡ b
      → (if◌then◌else◌ {A = Result User × Session F} b
          (ok u, t)
          (err (http 403 "Insufficient role for this action"), t)).0
        ≡ ok user
      → (◌≡◌ {A = Result User} (ok u) (ok user)) × (has_role (role ∷ more) user.role ≡ true)
  decided u t user true e p = (p, cc)
  decided u t user false e p = absurd cc

  allowed :
      (r : Result User) (t : Session F) (user : User)
      → (resume r (require_role (role ∷ more)) t).0 ≡ ok user
      → (r ≡ ok user) × (has_role (role ∷ more) user.role ≡ true)
  allowed (ok u) t user p =
      decided u t user (has_role (role ∷ more) u.role) refl
        (rw (require_role_lem role more u t) at p)
  allowed (err e) t user p = absurd cc

module _ {F : Type 0} (env : Env F) where
  -- A request that gets through to a route which lists at least one role carries a token that is an
  -- access token at that time and names a stored user, and the user is active and has one of the
  -- roles.
  pub current_user_lem :
      (creds : Option String) (role : Role) (more : List Role) (s : Session F) (user : User)
      → (current_user env creds (role ∷ more) s).0 ≡ ok user
      → (token : String) × (key : ℕ) × (creds ≡ some token)
        × (subject_of env (decode_token env s.now token "access") ≡ some key)
        × (get key s.working.users ≡ some user)
        × (user.is_active ≡ true)
        × (has_role (role ∷ more) user.role ≡ true)
  unfolding current_user
  current_user_lem (some token) role more s user p =
      let got = get_current_user env (some token) s in
      let h = allowed role more got.0 got.1 user p in
      let u = get_current_user_lem env token s user h.0 in (token, u.0, refl, u.1, u.2, u.3, h.1)
  current_user_lem none role more s user p =
      let got = get_current_user env none s in
      let h = allowed role more got.0 got.1 user p in
      let refused = get_current_user-none env s in absurd cc
