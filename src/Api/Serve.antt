-- ===== src/Api/Serve.antt =====
-- The system as its clients see it: an HTTP request or a task of the queue, each in a session of
-- its own (db/engine.py, core/deps.py and workers/tasks.py), one after the other.
use agentdesk_ai.Base.{ℕ, Bool, Option, List, [], ◌∷◌, String}
use agentdesk_ai.Models.Ticket.{TicketPriority}
use agentdesk_ai.Models.Records.{Role, DocumentSource}
use agentdesk_ai.Session.{
  Session, Task, deliver_webhook, run_agent, Env, Exec, pure, in_session, ◌>>◌,
}
use agentdesk_ai.Webhooks.Delivery.{deliver_once}
use agentdesk_ai.Runs.Service.{execute_run}
use agentdesk_ai.Api.Routes
use agentdesk_ai.Api.Routes.Documents
use agentdesk_ai.Api.Routes.Reads.{Read, perform_read}

-- The requests; the first argument is the bearer token.
pub data Call (F : Type 0) : Type 0 where
  post_ticket : Option String → String → String → TicketPriority → Call F
  approve reject : Option String → ℕ → Option String → Call F
  edit_draft : Option String → ℕ → String → Call F
  run_workflow : Option String → ℕ → Call F
  put_webhook : Option String → String → String → Bool → Call F
  post_user : Option String → String → String → Role → Call F
  post_register : String → String → String → Call F
  login : String → String → Call F
  post_document : Option String → String → String → DocumentSource → Call F
  read : Read F → Call F
  task : Task → Call F

module _ {F : Type 0} (env : Env F) where
  -- The body of a task of the queue.
  unfoldable pub perform_task : Task → Exec F (Unit {0})
  unfolding deliver_once execute_run
  perform_task (deliver_webhook delivery_id) = deliver_once env env.client delivery_id >> pure tt
  perform_task (run_agent run_id) = execute_run env run_id >> pure tt

  unfoldable pub perform : Call F → Exec F (Unit {0})
  unfolding perform_task Routes.post_ticket Routes.approve Routes.reject Routes.edit_draft
      Routes.run_workflow Routes.put_webhook Routes.post_user Routes.post_register Routes.login
      Documents.create_document perform_read
  perform (post_ticket creds title description priority) =
      Routes.post_ticket env creds title description priority >> pure tt
  perform (approve creds ticket_id edited) = Routes.approve env creds ticket_id edited >> pure tt
  perform (reject creds ticket_id reason) = Routes.reject env creds ticket_id reason >> pure tt
  perform (edit_draft creds ticket_id content) =
      Routes.edit_draft env creds ticket_id content >> pure tt
  perform (run_workflow creds ticket_id) = Routes.run_workflow env creds ticket_id >> pure tt
  perform (put_webhook creds url secret is_active) =
      Routes.put_webhook env creds url secret is_active >> pure tt
  perform (post_user creds email password role) =
      Routes.post_user env creds email password role >> pure tt
  perform (post_register organization_name email password) =
      Routes.post_register env organization_name email password >> pure tt
  perform (login email password) = Routes.login env email password >> pure tt
  perform (post_document creds title content source_type) =
      Documents.create_document env creds title content source_type >> pure tt
  perform (read r) = perform_read env r
  perform (task t) = perform_task t

  -- The clock moves on to the time of each call.
  unfoldable pub serve : List (ℕ × Call F) → Session F → Session F
  unfolding perform
  serve [] s = s
  serve ((now, call) ∷ more) s = serve more (in_session (perform call) (record s { now = now })).1
