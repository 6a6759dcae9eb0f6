-- ===== src/Api/Soundness/Common.antt =====
-- What the routes have in common: the user, the validation, the loaded ticket, the translated error.
use agentdesk_ai.Base.{ℕ, Bool, not, Option, List, String}
use agentdesk_ai.Models.Ticket.{Ticket}
use agentdesk_ai.Models.Records.{Role, User}
use agentdesk_ai.Session.{Session, Env, Error, Exec, pure, raise, ◌>>◌, ◌>>=◌}
use agentdesk_ai.Session.Growth.{Appends, Appends-catch, Appends-raise}
use agentdesk_ai.Session.Quiet.{IsQuiet, IsQuiet-raise_if, quiet_rules}
use agentdesk_ai.Tickets.Service
use agentdesk_ai.Tickets.History.{Past}
use agentdesk_ai.Tickets.History.Sessions.{IsSoundSession, IsLoaded, or_handle-IsSoundSession}
use agentdesk_ai.Tickets.History.Keeps.{
  Keeps, Keeps-quiet, Keeps-bind, Keeps-catch, get_ticket_then,
}
use agentdesk_ai.Session.ReadOnly.{IsReadOnly, IsReadOnly-IsQuiet, read_rules}
use agentdesk_ai.Auth.Effects.{IsReadOnly-get_current_user, IsReadOnly-require_role}
use agentdesk_ai.Api.Routes.{translate, http_of, validate, current_user}

module _ {F : Type 0} where
  IsQuiet-raise_http : {A : Type 0} (e : Error) → IsQuiet {F = F} {A = A} (raise (http_of e))
  IsQuiet-raise_http e = search quiet_rules

  pub Keeps-validated :
      {A : Type 0} (valid : Bool) (m : Exec F A) → Keeps m → Keeps (validate valid >> m)
  Keeps-validated valid m h =
      Keeps-bind (validate valid) (λ _. m)
        (Keeps-quiet (validate valid) (IsQuiet-raise_if (not valid) _)) (λ _. h)

  pub IsReadOnly-translate : {A : Type 0} (m : Exec F A) → IsReadOnly m → IsReadOnly (translate m)
  IsReadOnly-translate m h = search read_rules

  pub Keeps-translate : {A : Type 0} (m : Exec F A) → Keeps m → Keeps (translate m)
  Keeps-translate m h =
      Keeps-catch m (λ e. raise (http_of e)) h
        (λ e. Keeps-quiet (raise (http_of e)) (IsQuiet-raise_http e))

  -- The rest of a route, once the ticket is loaded.
  pub Keeps-load :
      {A : Type 0} (user : User) (ticket_id : ℕ) (f : Ticket → Exec F A)
      → ((past : Past) (ticket : Ticket) (s : Session F)
          → IsSoundSession past s
          → IsLoaded ticket s
          → IsSoundSession past (f ticket s).1)
      → ((ticket : Ticket) → Appends (f ticket))
      → Keeps (translate (Service.get_ticket user.organization_id ticket_id) >>= f)
  Keeps-load user ticket_id f k grows =
      get_ticket_then user.organization_id ticket_id http_of f k grows

  -- After a service operation that keeps the invariant, the translation of what it raises.
  pub translated :
      {past : Past} {A : Type 0} (m : Exec F A) (s : Session F)
      → IsSoundSession past (m s).1
      → IsSoundSession past (translate m s).1
  translated m s h = or_handle-IsSoundSession (m s).0 (λ e. raise (http_of e)) (m s).1 h (λ e. h)

  pub Appends-translate : {A : Type 0} (m : Exec F A) → Appends m → Appends (translate m)
  Appends-translate m h =
      Appends-catch m (λ e. raise (http_of e)) h (λ e. Appends-raise (http_of e))

  pub Keeps-void : {A : Type 0} (m : Exec F A) → Keeps m → Keeps (m >> pure tt)
  Keeps-void m h = Keeps-bind m (λ _. pure tt) h (λ a. Keeps-quiet (pure tt) (search quiet_rules))

module _ {F : Type 0} (env : Env F) where
  pub IsReadOnly-current_user :
      (creds : Option String) (allowed : List Role) → IsReadOnly (current_user env creds allowed)
  unfolding current_user
  IsReadOnly-current_user creds allowed =
      search (read_rules, IsReadOnly-get_current_user, IsReadOnly-require_role)

  pub IsQuiet-current_user :
      (creds : Option String) (allowed : List Role) → IsQuiet (current_user env creds allowed)
  IsQuiet-current_user creds allowed = IsReadOnly-IsQuiet _ (IsReadOnly-current_user creds allowed)

  -- A route begins with the user of the token.
  pub Keeps-route :
      {A : Type 0} (creds : Option String) (allowed : List Role) (f : User → Exec F A)
      → ((user : User) → Keeps (f user))
      → Keeps (current_user env creds allowed >>= f)
  Keeps-route creds allowed f h =
      Keeps-bind (current_user env creds allowed) f
        (Keeps-quiet (current_user env creds allowed) (IsQuiet-current_user creds allowed)) h
