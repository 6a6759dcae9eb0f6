-- ===== src/Auth/Service.antt =====
-- services/auth_service.py and services/user_service.py
pub mod Laws
use agentdesk_ai.Base.{
  ℕ, true, not, ◌&&◌, ◌||◌, Option, none, some, is_some, List, [], ◌∷◌, ◌++◌, String, str_eq, ◌==◌,
  if◌then◌else◌, first, select,
}
use agentdesk_ai.Base.Order.{order_by_asc}
use agentdesk_ai.Models.Records.{Role, admin, User}
use agentdesk_ai.Session.{
  Env, conflict, auth_error, external, Exec, pure, raise, raise_if, raise_if_none, query, fresh_id,
  get_now, write, commit, ◌>>=◌, ◌>>◌,
}
use agentdesk_ai.Session.Rows.{get, user_row}
use agentdesk_ai.Auth.Tokens.{create_access_token, create_refresh_token, decode_token}
use agentdesk_ai.Auth.Access.{subject_of}

pub record TokenPair : Type 0 where
  pub access_token : String
  pub refresh_token : String
  pub token_type : String

module _ {F : Type 0} where
  abbrev pub refresh_user : ℕ → Exec F User
  refresh_user key = do
    found ← query (λ db. get key db.users)
    raise_if_none found (external "could not refresh")

  unfoldable pub list_users : ℕ → Exec F (List User)
  list_users organization_id = query (λ db.
      order_by_asc (λ u. u.created_at)
        (select (λ u. u.organization_id == organization_id) db.users))

module _ {F : Type 0} (env : Env F) where
  unfoldable pub token_pair : ℕ → User → TokenPair
  unfolding create_access_token create_refresh_token
  token_pair now user = record {
    access_token = create_access_token env now user;
    refresh_token = create_refresh_token env now user;
    token_type = "bearer";
  }

  abbrev pub new_user : ℕ → ℕ → ℕ → String → String → Role → User
  new_user id now organization_id email password role = record {
    id = id;
    organization_id = organization_id;
    email = env.py_lower email;
    hashed_password = env.hash_password password;
    role = role;
    is_active = true;
    created_at = now;
  }

  unfoldable pub add_user : ℕ → String → String → Role → Exec F User
  add_user organization_id email password role = do
    id ← fresh_id
    now ← get_now
    let user = new_user id now organization_id email password role
    write (λ db. record db { users = db.users ++ (user ∷ []) })
    commit
    refresh_user id

  unfoldable pub register : String → String → String → Exec F TokenPair
  unfolding add_user token_pair
  register organization_name email password = do
    existing ← query (λ db. first (λ o. str_eq o.name organization_name) db.organizations)
    raise_if (is_some existing) (conflict "Organization name already taken")
    org_id ← fresh_id
    write (λ db. record db {
      organizations = db.organizations ++ (record { id = org_id; name = organization_name } ∷ []);
    })
    user ← add_user org_id email password admin
    now ← get_now
    pure (token_pair now user)

  -- The user of an address, in whichever organization the query finds it first.
  unfoldable pub find_by_email : String → List User → Option User
  find_by_email email = first (λ u. str_eq (env.sql_lower u.email) (env.py_lower email))

  unfoldable pub check_password : String → Option User → Exec F (TokenPair × User)
  unfolding token_pair
  check_password password none = raise (auth_error "Invalid credentials")
  check_password password (some user) =
      if not user.is_active || not (env.verify_password password user.hashed_password)
      then raise (auth_error "Invalid credentials")
      else (do now ← get_now; pure (token_pair now user, user))

  unfoldable pub authenticate : String → String → Exec F (TokenPair × User)
  unfolding find_by_email check_password
  authenticate email password = do
    user ← query (λ db. find_by_email email db.users)
    check_password password user

  unfoldable pub active_or_refused : Option User → Exec F TokenPair
  unfolding token_pair
  active_or_refused none = raise (auth_error "Invalid refresh token")
  active_or_refused (some user) =
      if user.is_active
      then (do now ← get_now; pure (token_pair now user))
      else raise (auth_error "Invalid refresh token")

  unfoldable pub refresh_subject : Option ℕ → Exec F TokenPair
  unfolding active_or_refused
  refresh_subject none = raise (auth_error "Invalid refresh token")
  refresh_subject (some user_id) = do
    user ← query (λ db. get user_id db.users)
    active_or_refused user

  unfoldable pub refresh : String → Exec F TokenPair
  unfolding refresh_subject decode_token subject_of
  refresh refresh_token = do
    now ← get_now
    refresh_subject (subject_of env (decode_token env now refresh_token "refresh"))

  -- The member of an organization with an address.
  unfoldable pub find_member : ℕ → String → List User → Option User
  find_member organization_id email = first (λ u.
      u.organization_id == organization_id && str_eq (env.sql_lower u.email) (env.py_lower email))

  unfoldable pub create_user : ℕ → String → String → Role → Exec F User
  unfolding find_member add_user
  create_user organization_id email password role = do
    existing ← query (λ db. find_member organization_id email db.users)
    raise_if (is_some existing)
        (conflict "A user with this email already exists in the organization")
    add_user organization_id email password role
