-- ===== src/Auth/Service/Laws.antt =====
-- services/user_service.py and auth_service.py: what creating a user does, and who may log in.
use agentdesk_ai.Base.{
  ℕ, ◌<◌, ◌≡◌, ◌⊎◌, refl, Bool, true, false, ◌&&◌, Bool-cases, inl, inr, Option, none, some,
  is_some, List, [], ◌∷◌, ◌++◌, String, str_eq, ◌==◌, All,
}
use agentdesk_ai.Models.Records.{Role, User}
use agentdesk_ai.Session.{Session, Env, conflict, auth_error, ok, err}
use agentdesk_ai.Session.Rows.{get-append_new, user_row}
use agentdesk_ai.Auth.Service.{
  token_pair, new_user, add_user, find_by_email, check_password, authenticate, find_member,
  create_user,
}

module _ {F : Type 0} (env : Env F) where
  -- May the user log in with the password?
  abbrev pub may_log_in : String → Option User → Bool
  may_log_in password none = false
  may_log_in password (some user) =
      user.is_active && env.verify_password password user.hashed_password

  check_password_lem :
      (password : String) (found : Option User) (s : Session F)
      → ((user : User) × (found ≡ some user)
          × (may_log_in password found ≡ true)
          × (check_password env password found s ≡ (ok (token_pair env s.now user, user), s)))
        ⊎ ((may_log_in password found ≡ false)
            × (check_password env password found s ≡ (err (auth_error "Invalid credentials"), s)))
  unfolding check_password
  check_password_lem password none s = inr (refl, refl)
  check_password_lem password (some user) s = elim (Bool-cases user.is_active) [
    | inr off ↦ inr (simp off, simp off)
    | inl on ↦ elim (Bool-cases (env.verify_password password user.hashed_password)) [
      | inl right ↦ inl (user, refl, simp (on, right), simp (on, right))
      | inr wrong ↦ inr (simp (on, wrong), simp (on, wrong))
    ]
  ]

  pub authenticate_lem :
      (email password : String) (s : Session F)
      → let found = find_by_email env email s.working.users in
        ((user : User) × (found ≡ some user)
          × (may_log_in password found ≡ true)
          × (authenticate env email password s ≡ (ok (token_pair env s.now user, user), s)))
        ⊎ ((may_log_in password found ≡ false)
            × (authenticate env email password s ≡ (err (auth_error "Invalid credentials"), s)))
  unfolding authenticate
  authenticate_lem email password s =
      check_password_lem password (find_by_email env email s.working.users) s

  -- The user belongs to the organization and has the address, in whatever case.
  abbrev pub is_member : ℕ → String → User → Bool
  is_member organization_id email user =
      user.organization_id == organization_id
      && str_eq (env.sql_lower user.email) (env.py_lower email)

  -- One of the users is such a member.
  abbrev pub Taken : ℕ → String → List User → Type 0
  Taken organization_id email users =
      (before : List User) × (user : User) × (after : List User) × (users
        ≡ before ++ (user ∷ after))
      × (is_member organization_id email user ≡ true)

  abbrev pub Free : ℕ → String → List User → Type 0
  Free organization_id email users = All (λ u. is_member organization_id email u ≡ false) users

  find_member-cases :
      (organization_id : ℕ) (email : String) (users : List User)
      → ((is_some (find_member env organization_id email users) ≡ true)
          × Taken organization_id email users)
        ⊎ ((is_some (find_member env organization_id email users) ≡ false)
            × Free organization_id email users)
  unfolding find_member
  find_member-cases organization_id email [] = inr (refl, tt)
  find_member-cases organization_id email (u ∷ us) =
      elim (Bool-cases (is_member organization_id email u)) [
        | inl here ↦ inl (simp here, ([], u, us, refl, here))
        | inr not_here ↦ elim (find_member-cases organization_id email us) [
          | inl (found, (before, user, after, split, is)) ↦
              inl (simp (not_here, found), (u ∷ before, user, after, cc, is))
          | inr (missing, free) ↦ inr (simp (not_here, missing), (not_here, free))
        ]
      ]

  -- An administrator's new user: refused, with nothing changed, if one of the users is a member of
  -- the organization with the address, and otherwise committed behind the others and answered.
  -- Every stored key is below the next one.
  pub create_user_lem :
      (organization_id : ℕ) (email password : String) (role : Role) (s : Session F)
      → All (λ u. u.id < s.next_id) s.working.users
      → let user = new_user env s.next_id s.now organization_id email password role in
        let (r, t) = create_user env organization_id email password role s in
        (Taken organization_id email s.working.users
          × (r ≡ err (conflict "A user with this email already exists in the organization"))
          × (t ≡ s))
        ⊎ (Free organization_id email s.working.users
            × (r ≡ ok user)
            × (t.committed.users ≡ s.working.users ++ (user ∷ [])))
  unfolding create_user add_user
  create_user_lem organization_id email password role s fresh =
      let user = new_user env s.next_id s.now organization_id email password role in
      let stored = get-append_new s.working.users user fresh in
      elim (find_member-cases organization_id email s.working.users) [
        | inl (found, taken) ↦ rw found (inl (taken, refl, refl))
        | inr (missing, free) ↦ rw (missing, stored) (inr (free, refl, refl))
      ]
