-- ===== src/Api/Guards.antt =====
-- Which token and which roles every request asks for, as the contract (openapi.yaml) lists them, and
-- what a refused request does.
use agentdesk_ai.Base.{◌≡◌, refl, Option, none, some, List, [], ◌∷◌, String}
use agentdesk_ai.Models.Records.{Role, admin, operator, viewer, User}
use agentdesk_ai.Session.{Session, Env, Error, Exec, err, ◌>>=◌}
use agentdesk_ai.Session.ReadOnly.{IsReadOnly}
use agentdesk_ai.Api.Routes
use agentdesk_ai.Api.Routes.{current_user}
use agentdesk_ai.Api.Routes.Documents
use agentdesk_ai.Api.Routes.Reads.{
  Read, tickets, ticket, events, webhook, deliveries, users, documents, metrics, get_metrics,
  perform_read,
}
use agentdesk_ai.Api.Serve.{
  Call, post_ticket, approve, reject, edit_draft, run_workflow, put_webhook, post_user,
  post_register, login, post_document, read, task, perform,
}
use agentdesk_ai.Api.Soundness.Common.{IsReadOnly-current_user}

abbrev staff_only : List Role
staff_only = admin ∷ operator ∷ []

abbrev members : List Role
members = admin ∷ operator ∷ viewer ∷ []

abbrev admins : List Role
admins = admin ∷ []

abbrev pub read_guard : {F : Type 0} → Read F → Option (Option String × List Role)
read_guard (tickets creds status) = some (creds, members)
read_guard (ticket creds key) = some (creds, members)
read_guard (events creds key) = some (creds, members)
read_guard (webhook creds) = some (creds, admins)
read_guard (deliveries creds) = some (creds, admins)
read_guard (users creds) = some (creds, admins)
read_guard (documents creds) = some (creds, members)
read_guard (metrics creds) = some (creds, admins)
read_guard (Read.search creds text threshold top_k) = some (creds, members)
read_guard (Read.refresh token) = none

-- The token and the roles of a request; registration, login, refresh and the tasks have none.
abbrev pub guard_of : {F : Type 0} → Call F → Option (Option String × List Role)
guard_of (post_ticket creds title description priority) = some (creds, staff_only)
guard_of (approve creds key edited) = some (creds, staff_only)
guard_of (reject creds key reason) = some (creds, staff_only)
guard_of (edit_draft creds key content) = some (creds, staff_only)
guard_of (run_workflow creds key) = some (creds, staff_only)
guard_of (put_webhook creds url secret is_active) = some (creds, admins)
guard_of (post_user creds email password role) = some (creds, admins)
guard_of (post_register name email password) = none
guard_of (login email password) = none
guard_of (post_document creds title content kind) = some (creds, staff_only)
guard_of (read r) = read_guard r
guard_of (task t) = none

module _ {F : Type 0} (env : Env F) where
  stopped :
      {A B : Type 0} (m : Exec F A) (f : A → Exec F B) (s : Session F) (e : Error)
      → IsReadOnly m
      → (m s).0 ≡ err e
      → (m >>= f) s ≡ (err e, s)
  stopped m f s e same h = rw (h, same.at s) refl

  -- Where the guard of the route refuses.
  refused :
      {A B : Type 0} (creds : Option String) (roles : List Role) (f : User → Exec F A)
      (g : A → Exec F B) (guard : Option String × List Role) (s : Session F) (e : Error)
      → some (creds, roles) ≡ some guard
      → (current_user env guard.0 guard.1 s).0 ≡ err e
      → ((current_user env creds roles >>= f) >>= g) s ≡ (err e, s)
  refused creds roles f g guard s e same h =
      let here : (current_user env creds roles s).0 ≡ err e = cc in
      rw (here, (IsReadOnly-current_user env creds roles).at s) refl

  read-refused :
      (r : Read F) (guard : Option String × List Role) (s : Session F) (e : Error)
      → read_guard r ≡ some guard
      → (current_user env guard.0 guard.1 s).0 ≡ err e
      → perform_read env r s ≡ (err e, s)
  unfolding perform_read Routes.get_tickets Routes.get_one_ticket Routes.get_ticket_events
      Routes.get_webhook Routes.get_deliveries Routes.get_users Documents.list_documents
      Documents.search_documents get_metrics
  read-refused (tickets creds status) guard s e listed h = refused creds _ _ _ guard s e listed h
  read-refused (ticket creds key) guard s e listed h = refused creds _ _ _ guard s e listed h
  read-refused (events creds key) guard s e listed h = refused creds _ _ _ guard s e listed h
  read-refused (webhook creds) guard s e listed h = refused creds _ _ _ guard s e listed h
  read-refused (deliveries creds) guard s e listed h = refused creds _ _ _ guard s e listed h
  read-refused (users creds) guard s e listed h = refused creds _ _ _ guard s e listed h
  read-refused (documents creds) guard s e listed h = refused creds _ _ _ guard s e listed h
  read-refused (metrics creds) guard s e listed h = refused creds _ _ _ guard s e listed h
  read-refused (Read.search creds text threshold top_k) guard s e listed h =
      refused creds _ _ _ guard s e listed h
  read-refused (Read.refresh token) guard s e listed h = cc

  -- A request whose token names no active user, or a user without one of the roles that the contract
  -- lists for it, is answered with that refusal and does nothing, whatever its body.
  pub perform-refused :
      (call : Call F) (guard : Option String × List Role) (s : Session F) (e : Error)
      → guard_of call ≡ some guard
      → (current_user env guard.0 guard.1 s).0 ≡ err e
      → perform env call s ≡ (err e, s)
  unfolding perform Routes.post_ticket Routes.approve Routes.reject Routes.edit_draft
      Routes.run_workflow Routes.put_webhook Routes.post_user Documents.create_document
  perform-refused (post_ticket creds title description priority) guard s e listed h =
      refused creds _ _ _ guard s e listed h
  perform-refused (approve creds key edited) guard s e listed h =
      refused creds _ _ _ guard s e listed h
  perform-refused (reject creds key reason) guard s e listed h =
      refused creds _ _ _ guard s e listed h
  perform-refused (edit_draft creds key content) guard s e listed h =
      refused creds _ _ _ guard s e listed h
  perform-refused (run_workflow creds key) guard s e listed h =
      refused creds _ _ _ guard s e listed h
  perform-refused (put_webhook creds url secret is_active) guard s e listed h =
      refused creds _ _ _ guard s e listed h
  perform-refused (post_user creds email password role) guard s e listed h =
      refused creds _ _ _ guard s e listed h
  perform-refused (post_document creds title content kind) guard s e listed h =
      refused creds _ _ _ guard s e listed h
  perform-refused (post_register name email password) guard s e listed h = cc
  perform-refused (login email password) guard s e listed h = cc
  perform-refused (read r) guard s e listed h = read-refused r guard s e listed h
  perform-refused (task t) guard s e listed h = cc
