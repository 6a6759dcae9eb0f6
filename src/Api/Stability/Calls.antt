-- ===== src/Api/Stability/Calls.antt =====
-- Every call, for the organization that it acts for.
use agentdesk_ai.Base.{ℕ, ◌<◌, ◌≡◌, Option, some, none, String, All}
use agentdesk_ai.Models.Ticket.{Ticket}
use agentdesk_ai.Models.Records.{User, AgentRun}
use agentdesk_ai.Session.{Session, deliver_webhook, run_agent, Env, Exec, ok, pure, ◌>>◌}
use agentdesk_ai.Session.Quiet.{IsQuiet, quiet_rules}
use agentdesk_ai.Session.ReadOnly.{IsReadOnly-IsQuiet}
use agentdesk_ai.Session.Rows.{get, ticket_row, run_row}
use agentdesk_ai.Auth.Access.{get_current_user}
use agentdesk_ai.Tickets.Stable.{Tables, Stable, Holds, Preserves-quiet, resume-Holds}
use agentdesk_ai.Runs.Service.{execute_run}
use agentdesk_ai.Runs.Service.Stability.{execute_run-Holds}
use agentdesk_ai.Webhooks.Delivery.Effects.{IsQuiet-deliver_once}
use agentdesk_ai.Api.Routes
use agentdesk_ai.Api.Routes.{translate, length_within, validate, current_user, start_if_open}
use agentdesk_ai.Api.Serve.{
  Call, post_ticket, approve, reject, edit_draft, run_workflow, put_webhook, post_user,
  post_register, login, post_document, read, task, perform_task, perform,
}
use agentdesk_ai.Api.Soundness.Accounts.{
  IsQuiet-put_webhook, IsQuiet-post_user, IsQuiet-post_register, IsQuiet-login,
  IsQuiet-create_document,
}
use agentdesk_ai.Api.Soundness.Reads.{perform_read-IsReadOnly}
use agentdesk_ai.Api.Stability.Requests.{
  post_ticket-Holds, approve-Holds, reject-Holds, edit_draft-Holds, run_workflow-Holds,
}

-- The bearer token of a request that changes tickets.
abbrev pub token_of : {F : Type 0} → Call F → Option (Option String)
token_of (post_ticket creds title description priority) = some creds
token_of (approve creds key edited) = some creds
token_of (reject creds key reason) = some creds
token_of (edit_draft creds key content) = some creds
token_of (run_workflow creds key) = some creds
token_of _ = none

-- The run that a task executes.
abbrev pub run_of : {F : Type 0} → Call F → Option ℕ
run_of (task (run_agent key)) = some key
run_of _ = none

module _ {F : Type 0} (env : Env F) where
  -- For which organization a call changes tickets, in the session that it begins with: a request for
  -- that of the token's user, the task of a run for that of the run's ticket, and the others for
  -- none, so for any.
  pub data ActsFor (s : Session F) (organization_id : ℕ) (call : Call F) : Type 0 where
    request :
        (creds : Option String) (user : User)
        → token_of call ≡ some creds
        → (get_current_user env creds s).0 ≡ ok user
        → user.organization_id ≡ organization_id
        → ActsFor s organization_id call
    run :
        (key : ℕ) (r : AgentRun F) (ticket : Ticket)
        → run_of call ≡ some key
        → get key s.working.agent_runs ≡ some r
        → get r.ticket_id s.working.tickets ≡ some ticket
        → ticket.organization_id ≡ organization_id
        → ActsFor s organization_id call
    nobody : token_of call ≡ none → run_of call ≡ none → ActsFor s organization_id call

module _ {F : Type 0} (env : Env F) {I : Tables} where
  void-Holds :
      {A : Type 0} (m : Exec F A) (s : Session F) → Holds I (m s).1 → Holds I ((m >> pure tt) s).1
  void-Holds m s h =
      resume-Holds (m s).0 (λ _. pure tt) (m s).1 (λ a. Preserves-quiet _ (search quiet_rules)) h

  quiet_void-Holds :
      {A : Type 0} (m : Exec F A) (s : Session F)
      → IsQuiet m
      → Holds I s
      → Holds I ((m >> pure tt) s).1
  quiet_void-Holds m s q h = void-Holds m s ((Preserves-quiet m q).at s h)

  -- What changes no ticket.
  pub quiet-Holds :
      (call : Call F) (s : Session F)
      → token_of call ≡ none
      → run_of call ≡ none
      → Holds I s
      → Holds I (perform env call s).1
  unfolding perform perform_task
  quiet-Holds (post_ticket creds title description priority) s p q h = cc
  quiet-Holds (approve creds key edited) s p q h = cc
  quiet-Holds (reject creds key reason) s p q h = cc
  quiet-Holds (edit_draft creds key content) s p q h = cc
  quiet-Holds (run_workflow creds key) s p q h = cc
  quiet-Holds (put_webhook creds url secret is_active) s p q h =
      quiet_void-Holds _ s (IsQuiet-put_webhook env creds url secret is_active) h
  quiet-Holds (post_user creds email password role) s p q h =
      quiet_void-Holds _ s (IsQuiet-post_user env creds email password role) h
  quiet-Holds (post_register name email password) s p q h =
      quiet_void-Holds _ s (IsQuiet-post_register env name email password) h
  quiet-Holds (login email password) s p q h =
      quiet_void-Holds _ s (IsQuiet-login env email password) h
  quiet-Holds (post_document creds title content source_type) s p q h =
      quiet_void-Holds _ s (IsQuiet-create_document env creds title content source_type) h
  quiet-Holds (read r) s p q h =
      (Preserves-quiet _ (IsReadOnly-IsQuiet _ (perform_read-IsReadOnly env r))).at s h
  quiet-Holds (task (deliver_webhook key)) s p q h =
      quiet_void-Holds _ s (IsQuiet-deliver_once env env.client key) h
  quiet-Holds (task (run_agent key)) s p q h = cc

module _ {F : Type 0} (env : Env F) {organization_id : ℕ} {I : Tables} {Owned : ℕ → Type 0}
    (stable : Stable organization_id I Owned) where
  asked_by :
      (c creds : Option String) (user : User) (s : Session F)
      → some c ≡ some creds
      → (get_current_user env creds s).0 ≡ ok user
      → (get_current_user env c s).0 ≡ ok user
  asked_by c creds user s e known = let same : c ≡ creds = cc in rw same known

  -- A request of a user of the organization.
  request-Holds :
      (call : Call F) (creds : Option String) (user : User) (s : Session F)
      → token_of call ≡ some creds
      → (get_current_user env creds s).0 ≡ ok user
      → user.organization_id ≡ organization_id
      → All (λ r. r.id < s.next_id) s.working.agent_runs
      → Holds I s
      → Holds I (perform env call s).1
  unfolding perform
  request-Holds (post_ticket c title description priority) creds user s asked known own fresh h =
      void-Holds env (Routes.post_ticket env c title description priority) s (
        post_ticket-Holds env stable c user s (asked_by c creds user s asked known) own h title
          description priority)
  request-Holds (approve c key edited) creds user s asked known own fresh h =
      void-Holds env (Routes.approve env c key edited) s
        (approve-Holds env stable c user s (asked_by c creds user s asked known) own h key edited)
  request-Holds (reject c key reason) creds user s asked known own fresh h =
      void-Holds env (Routes.reject env c key reason) s
        (reject-Holds env stable c user s (asked_by c creds user s asked known) own h key reason)
  request-Holds (edit_draft c key content) creds user s asked known own fresh h =
      void-Holds env (Routes.edit_draft env c key content) s (
        edit_draft-Holds env stable c user s (asked_by c creds user s asked known) own h key
          content)
  request-Holds (run_workflow c key) creds user s asked known own fresh h =
      void-Holds env (Routes.run_workflow env c key) s (
        run_workflow-Holds env stable c user s (asked_by c creds user s asked known) own h key
          fresh)
  request-Holds (put_webhook c url secret is_active) creds user s asked known own fresh h = cc
  request-Holds (post_user c email password role) creds user s asked known own fresh h = cc
  request-Holds (post_register name email password) creds user s asked known own fresh h = cc
  request-Holds (login email password) creds user s asked known own fresh h = cc
  request-Holds (post_document c title content source) creds user s asked known own fresh h = cc
  request-Holds (read r) creds user s asked known own fresh h = cc
  request-Holds (task t) creds user s asked known own fresh h = cc

  task-Holds :
      (call : Call F) (key : ℕ) (r : AgentRun F) (ticket : Ticket) (s : Session F)
      → run_of call ≡ some key
      → get key s.working.agent_runs ≡ some r
      → get r.ticket_id s.working.tickets ≡ some ticket
      → ticket.organization_id ≡ organization_id
      → Holds I s
      → Holds I (perform env call s).1
  unfolding perform perform_task
  task-Holds (task (run_agent k)) key r ticket s called found of_run own h =
      let same : k ≡ key = cc in
      void-Holds env (execute_run env k) s
        (execute_run-Holds env stable k r ticket s (rw same found) of_run own h)
  task-Holds (task (deliver_webhook k)) key r ticket s called found of_run own h = cc
  task-Holds (post_ticket c title description priority) key r ticket s called found of_run own h =
      cc
  task-Holds (approve c k edited) key r ticket s called found of_run own h = cc
  task-Holds (reject c k reason) key r ticket s called found of_run own h = cc
  task-Holds (edit_draft c k content) key r ticket s called found of_run own h = cc
  task-Holds (run_workflow c k) key r ticket s called found of_run own h = cc
  task-Holds (put_webhook c url secret is_active) key r ticket s called found of_run own h = cc
  task-Holds (post_user c email password role) key r ticket s called found of_run own h = cc
  task-Holds (post_register name email password) key r ticket s called found of_run own h = cc
  task-Holds (login email password) key r ticket s called found of_run own h = cc
  task-Holds (post_document c title content src) key r ticket s called found of_run own h = cc
  task-Holds (read x) key r ticket s called found of_run own h = cc

  -- A call preserves what is stable for the organization that it acts for.
  pub perform-Holds :
      (call : Call F) (s : Session F)
      → ActsFor env s organization_id call
      → All (λ r. r.id < s.next_id) s.working.agent_runs
      → Holds I s
      → Holds I (perform env call s).1
  perform-Holds call s (request creds user asked known own) fresh h =
      request-Holds call creds user s asked known own fresh h
  perform-Holds call s (run key r ticket called found of_run own) fresh h =
      task-Holds call key r ticket s called found of_run own h
  perform-Holds call s (nobody p q) fresh h = quiet-Holds env call s p q h
