-- ===== src/Api/Soundness.antt =====
-- api/v1 and workers/tasks.py: the invariant of the tickets, over the calls one after another.
pub mod Common
pub mod Tickets
pub mod Accounts
pub mod Reads
use agentdesk_ai.Base.{ℕ, List, [], ◌∷◌}
use agentdesk_ai.Session.{Session, Task, deliver_webhook, run_agent, Env, pure, in_session}
use agentdesk_ai.Webhooks.Delivery.{deliver_once}
use agentdesk_ai.Webhooks.Delivery.Effects.{IsQuiet-deliver_once}
use agentdesk_ai.Tickets.History.{Past}
use agentdesk_ai.Tickets.History.Sessions.{IsSoundSession}
use agentdesk_ai.Tickets.History.Keeps.{Keeps, Keeps-quiet, Keeps-in_session}
use agentdesk_ai.Runs.Service.{execute_run}
use agentdesk_ai.Api.Routes
use agentdesk_ai.Api.Routes.Documents
use agentdesk_ai.Api.Routes.Reads.{perform_read}
use agentdesk_ai.Session.ReadOnly.{IsReadOnly-IsQuiet}
use agentdesk_ai.Api.Soundness.Reads.{perform_read-IsReadOnly}
use agentdesk_ai.Api.Serve.{
  Call, post_ticket, approve, reject, edit_draft, run_workflow, put_webhook, post_user,
  post_register, login, post_document, read, task, perform_task, perform, serve,
}
use agentdesk_ai.Api.Soundness.Common.{Keeps-void}
use agentdesk_ai.Api.Soundness.Tickets.{
  Keeps-post_ticket, Keeps-approve, Keeps-reject, Keeps-edit_draft, Keeps-execute_run,
  Keeps-run_workflow,
}
use agentdesk_ai.Api.Soundness.Accounts.{
  IsQuiet-put_webhook, IsQuiet-post_user, IsQuiet-post_register, IsQuiet-login,
  IsQuiet-create_document,
}

module _ {F : Type 0} (env : Env F) where
  Keeps-perform_task : (t : Task) → Keeps (perform_task env t)
  unfolding perform_task
  Keeps-perform_task (deliver_webhook key) =
      Keeps-void (deliver_once env env.client key)
        (Keeps-quiet (deliver_once env env.client key) (IsQuiet-deliver_once env env.client key))
  Keeps-perform_task (run_agent key) = Keeps-void (execute_run env key) (Keeps-execute_run env key)

  pub Keeps-perform : (call : Call F) → Keeps (perform env call)
  unfolding perform
  Keeps-perform (post_ticket creds title description priority) =
      Keeps-void (Routes.post_ticket env creds title description priority)
        (Keeps-post_ticket env creds title description priority)
  Keeps-perform (approve creds key edited) =
      Keeps-void (Routes.approve env creds key edited) (Keeps-approve env creds key edited)
  Keeps-perform (reject creds key reason) =
      Keeps-void (Routes.reject env creds key reason) (Keeps-reject env creds key reason)
  Keeps-perform (edit_draft creds key content) =
      Keeps-void (Routes.edit_draft env creds key content) (Keeps-edit_draft env creds key content)
  Keeps-perform (run_workflow creds key) =
      Keeps-void (Routes.run_workflow env creds key) (Keeps-run_workflow env creds key)
  Keeps-perform (put_webhook creds url secret is_active) =
      Keeps-void (Routes.put_webhook env creds url secret is_active)
        (Keeps-quiet _ (IsQuiet-put_webhook env creds url secret is_active))
  Keeps-perform (post_user creds email password role) =
      Keeps-void (Routes.post_user env creds email password role)
        (Keeps-quiet _ (IsQuiet-post_user env creds email password role))
  Keeps-perform (post_register name email password) =
      Keeps-void (Routes.post_register env name email password)
        (Keeps-quiet _ (IsQuiet-post_register env name email password))
  Keeps-perform (login email password) =
      Keeps-void (Routes.login env email password)
        (Keeps-quiet _ (IsQuiet-login env email password))
  Keeps-perform (post_document creds title content source_type) =
      Keeps-void (Documents.create_document env creds title content source_type)
        (Keeps-quiet _ (IsQuiet-create_document env creds title content source_type))
  Keeps-perform (read r) =
      Keeps-quiet (perform_read env r)
        (IsReadOnly-IsQuiet (perform_read env r) (perform_read-IsReadOnly env r))
  Keeps-perform (task t) = Keeps-perform_task t

  -- From a sound session, after any list of timed requests and queue tasks, served one after
  -- another, the session is sound: in what it sees and in what is committed, the events of every
  -- ticket are a run of the state machine that ends in the ticket's status, and an approved ticket
  -- has a final response that is not blank.
  pub serve-IsSoundSession :
      {past : Past} (calls : List (ℕ × Call F)) (s : Session F)
      → IsSoundSession past s
      → IsSoundSession past (serve env calls s)
  unfolding serve
  serve-IsSoundSession [] s h = h
  serve-IsSoundSession ((now, call) ∷ more) s h =
      let started : Session F = record s { now = now } in
      serve-IsSoundSession more (in_session (perform env call) started).1 (
        (Keeps-in_session (perform env call) (Keeps-perform call)).at started
          (record { seen = h.seen; stored = h.stored }))
