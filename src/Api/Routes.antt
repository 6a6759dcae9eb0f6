-- ===== src/Api/Routes.antt =====
-- api/v1: tickets.py, approvals.py, agent.py, webhooks.py, users.py, auth.py. A route resolves the
-- user of the bearer token, tests the role, validates the body, and calls the service; what the
-- service raises becomes an HTTP error. `http 422` stands for FastAPI's validation error too.
pub mod Laws
pub mod Login
pub mod Documents
pub mod Reads
use Prim.Native.String.{count}
use agentdesk_ai.Base.{
  ℕ, Bool, true, not, ◌&&◌, Option, none, some, List, [], ◌∷◌, String, leb, ◌==◌, if◌then◌else◌,
  select, take,
}
use agentdesk_ai.Base.Order.{order_by_desc}
use agentdesk_ai.Models.Ticket.{Ticket, TicketPriority, TicketStatus, closed, status_eq}
use agentdesk_ai.Models.Records.{
  AgentRun, TicketEvent, Webhook, WebhookDelivery, Role, admin, operator, viewer, User, str, obj,
  member, end, login_failed, login_success,
}
use agentdesk_ai.Session.{
  Env, Error, not_found, invalid_transition, empty_response, conflict, auth_error, http, message_of,
  run_agent, Exec, Result, pure, raise, raise_if, query, catch, ok, err, delay, ◌>>=◌, ◌>>◌,
}
use agentdesk_ai.Audit.{record_event}
use agentdesk_ai.Webhooks.Config.{get_config, upsert_config}
use agentdesk_ai.Tickets.Service
use agentdesk_ai.Tickets.Service.{list_tickets, list_events}
use agentdesk_ai.Runs.Service.{execute_run}
use agentdesk_ai.Runs.Record.{start_run}
use agentdesk_ai.Auth.Access.{get_current_user, require_role}
use agentdesk_ai.Auth.Service.{TokenPair, register, authenticate, refresh, create_user, list_users}

-- `except NotFoundError` and the like: the exception as an HTTP error, or as it is.
abbrev pub http_of : Error → Error
http_of not_found = http 404 "Ticket not found"
http_of (empty_response m) = http 422 m
http_of (invalid_transition s t) = http 409 (message_of (invalid_transition s t))
http_of (conflict m) = http 409 m
http_of (auth_error m) = http 401 m
http_of e = e

-- `Field(min_length=low, max_length=high)`
abbrev pub length_within : ℕ → ℕ → String → Bool
length_within low high text = leb low (count text) && leb (count text) high

module _ {F : Type 0} where
  abbrev pub translate : {A : Type 0} → Exec F A → Exec F A
  translate m = catch m (λ e. raise (http_of e))

  abbrev pub validate : Bool → Exec F (Unit {0})
  validate valid = raise_if (not valid) (http 422 "validation error")

module _ {F : Type 0} (env : Env F) where
  -- `Depends(require_role(…))`
  unfoldable pub current_user : Option String → List Role → Exec F User
  current_user creds allowed = do user ← get_current_user env creds; require_role allowed user

  abbrev pub staff : List Role
  staff = admin ∷ operator ∷ []

  abbrev pub everyone : List Role
  everyone = admin ∷ operator ∷ viewer ∷ []

  unfoldable pub post_ticket : Option String → String → String → TicketPriority → Exec F Ticket
  post_ticket creds title description priority = do
    current ← current_user creds staff
    validate (length_within 1 255 title && leb 1 (count description))
    Service.create_ticket env current.organization_id current.id title description priority

  unfoldable pub get_tickets : Option String → Option TicketStatus → Exec F (List Ticket)
  get_tickets creds status = do
    current ← current_user creds everyone
    list_tickets current.organization_id status

  unfoldable pub get_one_ticket : Option String → ℕ → Exec F Ticket
  get_one_ticket creds ticket_id = do
    current ← current_user creds everyone
    translate (Service.get_ticket current.organization_id ticket_id)

  unfoldable pub get_ticket_events : Option String → ℕ → Exec F (List TicketEvent)
  get_ticket_events creds ticket_id = do
    current ← current_user creds everyone
    translate (list_events current.organization_id ticket_id)

  -- `_load` of approvals.py
  abbrev pub load : User → ℕ → Exec F Ticket
  load current ticket_id = translate (Service.get_ticket current.organization_id ticket_id)

  unfoldable pub approve : Option String → ℕ → Option String → Exec F Ticket
  approve creds ticket_id edited_response = do
    current ← current_user creds staff
    ticket ← load current ticket_id
    translate (Service.approve env ticket current.id edited_response)

  unfoldable pub reject : Option String → ℕ → Option String → Exec F Ticket
  reject creds ticket_id reason = do
    current ← current_user creds staff
    ticket ← load current ticket_id
    translate (Service.reject env ticket current.id reason)

  unfoldable pub edit_draft : Option String → ℕ → String → Exec F Ticket
  edit_draft creds ticket_id content = do
    current ← current_user creds staff
    validate (leb 1 (count content))
    ticket ← load current ticket_id
    translate (Service.edit_draft ticket current.id content)

  -- `agent_run_eager`: the run is executed here, or handed to the queue.
  unfoldable pub dispatch_run : AgentRun F → Exec F (AgentRun F)
  unfolding execute_run
  dispatch_run run =
      if env.agent_run_eager
      then execute_run env run.id
      else (do delay env (run_agent run.id); pure run)

  unfoldable pub start_if_open : User → Ticket → Exec F (AgentRun F)
  unfolding dispatch_run
  start_if_open current ticket = do
    raise_if (status_eq ticket.status closed)
        (http 409 "Cannot run the workflow on a closed ticket")
    run ← start_run env ticket (some current.id)
    dispatch_run run

  unfoldable pub run_workflow : Option String → ℕ → Exec F (AgentRun F)
  unfolding start_if_open
  run_workflow creds ticket_id = do
    current ← current_user creds staff
    ticket ← load current ticket_id
    start_if_open current ticket

  unfoldable pub get_webhook : Option String → Exec F (Option Webhook)
  get_webhook creds = do
    current ← current_user creds (admin ∷ [])
    get_config current.organization_id

  unfoldable pub put_webhook : Option String → String → String → Bool → Exec F Webhook
  put_webhook creds url secret is_active = do
    current ← current_user creds (admin ∷ [])
    validate (length_within 16 255 secret)
    upsert_config current.organization_id url secret is_active

  unfoldable pub get_deliveries : Option String → Exec F (List (WebhookDelivery F))
  get_deliveries creds = do
    current ← current_user creds (admin ∷ [])
    query (λ db. take 100 (
        order_by_desc (λ d. d.created_at)
          (select (λ d. d.organization_id == current.organization_id) db.webhook_deliveries)))

  unfoldable pub get_users : Option String → Exec F (List User)
  get_users creds = do current ← current_user creds (admin ∷ []); list_users current.organization_id

  unfoldable pub post_user : Option String → String → String → Role → Exec F User
  post_user creds email password role = do
    current ← current_user creds (admin ∷ [])
    validate (length_within 8 128 password)
    translate (create_user env current.organization_id email password role)

  unfoldable pub post_register : String → String → String → Exec F TokenPair
  post_register organization_name email password = do
    validate (length_within 1 255 organization_name && length_within 8 128 password)
    translate (register env organization_name email password)

  -- `except AuthError`: the failed login is recorded and committed.
  unfoldable pub refuse_login : String → Error → Exec F TokenPair
  unfolding record_event
  refuse_login email (auth_error m) = do
    record_event env login_failed none none none none (some (obj (member "email" (str email) end)))
        true
    raise (http 401 "Invalid credentials")
  refuse_login email e = raise e

  unfoldable pub accept_login : TokenPair × User → Exec F TokenPair
  unfolding record_event
  accept_login (tokens, user) = do
    record_event env login_success (some user.organization_id) (some user.id) none none none true
    pure tokens

  unfoldable pub after_login : String → Result (TokenPair × User) → Exec F TokenPair
  unfolding refuse_login accept_login
  after_login email (ok pair) = accept_login pair
  after_login email (err e) = refuse_login email e

  -- The `try`, its `except`, and what follows.
  unfoldable pub try_login : String → String → Exec F TokenPair
  unfolding authenticate after_login
  try_login email password s =
      let (r, t) = authenticate env email password s in after_login email r t

  unfoldable pub login : String → String → Exec F TokenPair
  unfolding try_login
  login email password = do validate (leb 1 (count password)); try_login email password

  unfoldable pub refresh_tokens : String → Exec F TokenPair
  refresh_tokens token = translate (refresh env token)
