-- ===== src/Auth/Access/Laws.antt =====
-- Who gets through to a route.
use agentdesk_ai.Base.{
  ℕ, ◌≡◌, refl, Bool, true, false, Bool-cases, inl, inr, Option, none, some, List, ◌∷◌, String,
  str_eq, if◌then◌else◌,
}
use agentdesk_ai.Models.Records.{Role, User}
use agentdesk_ai.Session.{Session, pure, Env, Result, http, ok, err}
use agentdesk_ai.Session.Rows.{get, user_row}
use agentdesk_ai.Auth.Tokens.{decode_token}
use agentdesk_ai.Auth.Access.{
  unauthorized, has_role, active_or_401, require_role, subject_of, user_of, get_current_user,
}

module _ {F : Type 0} where
  gate :
      (u : User) (s : Session F) (user : User) (b : Bool)
      → u.is_active ≡ b
      → ((if b then pure {F = F} u else unauthorized) s).0 ≡ ok user
      → (some u ≡ some user) × (user.is_active ≡ true)
  gate u s user true p e = (cc, cc)
  gate u s user false p e = absurd cc

  active_lem :
      (o : Option User) (s : Session F) (user : User)
      → (active_or_401 o s).0 ≡ ok user
      → (o ≡ some user) × (user.is_active ≡ true)
  active_lem none s user e = absurd cc
  active_lem (some u) s user e = gate u s user u.is_active refl e

  -- `require_role` with at least one role lets exactly the users with one of its roles through.
  pub require_role_lem :
      (role : Role) (more : List Role) (user : User) (s : Session F)
      → require_role (role ∷ more) user s ≡ (
          if has_role (role ∷ more) user.role
          then (ok user, s)
          else (err (http 403 "Insufficient role for this action"), s))
  unfolding require_role
  require_role_lem role more user s = elim (Bool-cases (has_role (role ∷ more) user.role)) [
    | inl e ↦ rw e refl
    | inr e ↦ rw e refl
  ]

module _ {F : Type 0} (env : Env F) where
  user_of_lem :
      (subject : Option ℕ) (s : Session F) (user : User)
      → (user_of env subject s).0 ≡ ok user
      → (key : ℕ) × (subject ≡ some key)
        × (get key s.working.users ≡ some user)
        × (user.is_active ≡ true)
  unfolding user_of
  user_of_lem none s user e = absurd cc
  user_of_lem (some key) s user e =
      let h = active_lem (get key s.working.users) s user e in (key, refl, h.0, h.1)

  -- A request that gets a user has a token that is an access token now, names the stored user, and the
  -- user is active.
  pub get_current_user_lem :
      (token : String) (s : Session F) (user : User)
      → (get_current_user env (some token) s).0 ≡ ok user
      → (key : ℕ) × (subject_of env (decode_token env s.now token "access") ≡ some key)
        × (get key s.working.users ≡ some user)
        × (user.is_active ≡ true)
  unfolding get_current_user
  get_current_user_lem token s user e = elim (Bool-cases (str_eq token "")) [
    | inl p ↦
        let other : ◌≡◌ {A = Result User} (err (http 401 "Could not validate credentials"))
            (ok user) =
          rw p at e in
        absurd cc
    | inr p ↦
        user_of_lem (subject_of env (decode_token env s.now token "access")) s user (rw p at e)
  ]

  pub get_current_user-none :
      (s : Session F)
      → (get_current_user env none s).0 ≡ err (http 401 "Could not validate credentials")
  unfolding get_current_user
  get_current_user-none s = refl
