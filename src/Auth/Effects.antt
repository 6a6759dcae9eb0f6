-- ===== src/Auth/Effects.antt =====
-- Tokens and users, and what their code does to the tables.
use agentdesk_ai.Base.{ℕ, Option, none, some, refl, List, String}
use agentdesk_ai.Models.Records.{Organization, Role, User}
use agentdesk_ai.Session.{Db, Env, write}
use agentdesk_ai.Session.Growth.{Extends-refl}
use agentdesk_ai.Session.Quiet.{IsQuiet, IsQuiet-write, IsQuiet-raise_if, quiet_rules}
use agentdesk_ai.Session.ReadOnly.{IsReadOnly, IsReadOnly-IsQuiet, read_rules}
use agentdesk_ai.Auth.Access.{active_or_401, user_of, get_current_user, require_role}
use agentdesk_ai.Auth.Service.{
  add_user, register, check_password, authenticate, active_or_refused, refresh_subject, refresh,
  create_user,
}

module _ {F : Type 0} where
  IsQuiet-write_users : (f : Db F → List User) → IsQuiet (write λ db. record db { users = f db })
  IsQuiet-write_users f =
      IsQuiet-write _ (λ db. refl) (λ db. refl) (λ db. Extends-refl db.audit_logs)

  IsQuiet-write_organizations :
      (f : Db F → List Organization) → IsQuiet (write λ db. record db { organizations = f db })
  IsQuiet-write_organizations f =
      IsQuiet-write _ (λ db. refl) (λ db. refl) (λ db. Extends-refl db.audit_logs)

  IsReadOnly-active_or_401 : (user : Option User) → IsReadOnly (active_or_401 {F = F} user)
  IsReadOnly-active_or_401 none = search read_rules
  IsReadOnly-active_or_401 (some user) = search read_rules

  pub IsReadOnly-require_role :
      (allowed : List Role) (user : User) → IsReadOnly (require_role {F = F} allowed user)
  unfolding require_role
  IsReadOnly-require_role allowed user = search read_rules

module _ {F : Type 0} (env : Env F) where
  IsReadOnly-user_of : (key : Option ℕ) → IsReadOnly (user_of env key)
  unfolding user_of
  IsReadOnly-user_of none = search read_rules
  IsReadOnly-user_of (some key) = search (read_rules, IsReadOnly-active_or_401)

  pub IsReadOnly-get_current_user :
      (creds : Option String) → IsReadOnly (get_current_user env creds)
  unfolding get_current_user
  IsReadOnly-get_current_user none = search read_rules
  IsReadOnly-get_current_user (some token) = search (read_rules, IsReadOnly-user_of) depth 8

  IsReadOnly-active_or_refused : (user : Option User) → IsReadOnly (active_or_refused env user)
  unfolding active_or_refused
  IsReadOnly-active_or_refused none = search read_rules
  IsReadOnly-active_or_refused (some user) = search read_rules

  IsReadOnly-refresh_subject : (key : Option ℕ) → IsReadOnly (refresh_subject env key)
  unfolding refresh_subject
  IsReadOnly-refresh_subject none = search read_rules
  IsReadOnly-refresh_subject (some key) = search (read_rules, IsReadOnly-active_or_refused)

  pub IsReadOnly-refresh : (token : String) → IsReadOnly (refresh env token)
  unfolding refresh
  IsReadOnly-refresh token = search (read_rules, IsReadOnly-refresh_subject) depth 8

  IsReadOnly-check_password :
      (password : String) (user : Option User) → IsReadOnly (check_password env password user)
  unfolding check_password
  IsReadOnly-check_password password none = search read_rules
  IsReadOnly-check_password password (some user) = search read_rules depth 8

  IsReadOnly-authenticate : (email password : String) → IsReadOnly (authenticate env email password)
  unfolding authenticate
  IsReadOnly-authenticate email password = search (read_rules, IsReadOnly-check_password)

  IsQuiet-add_user :
      (organization_id : ℕ) (email password : String) (role : Role)
      → IsQuiet (add_user env organization_id email password role)
  unfolding add_user
  IsQuiet-add_user organization_id email password role =
      search (quiet_rules, IsQuiet-write_users) depth 12

  pub IsQuiet-register : (name email password : String) → IsQuiet (register env name email password)
  unfolding register
  IsQuiet-register name email password =
      search (quiet_rules, IsQuiet-raise_if, IsQuiet-write_organizations, IsQuiet-add_user) depth 14

  pub IsQuiet-create_user :
      (organization_id : ℕ) (email password : String) (role : Role)
      → IsQuiet (create_user env organization_id email password role)
  unfolding create_user
  IsQuiet-create_user organization_id email password role =
      search (quiet_rules, IsQuiet-raise_if, IsQuiet-add_user) depth 8

  pub IsQuiet-authenticate : (email password : String) → IsQuiet (authenticate env email password)
  IsQuiet-authenticate email password =
      IsReadOnly-IsQuiet _ (IsReadOnly-authenticate email password)
