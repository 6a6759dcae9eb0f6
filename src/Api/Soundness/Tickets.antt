-- ===== src/Api/Soundness/Tickets.antt =====
-- The routes of tickets.py, approvals.py and agent.py, and the invariant of the tickets.
use Prim.Native.String.{count}
use agentdesk_ai.Base.{ℕ, ◌&&◌, leb, Option, some, String}
use agentdesk_ai.Models.Ticket.{Ticket, TicketPriority, closed, status_eq}
use agentdesk_ai.Models.Records.{User, AgentRun}
use agentdesk_ai.Session.{run_agent, Env, pure, raise_if, delay, ◌>>◌, ◌>>=◌}
use agentdesk_ai.Session.Quiet.{IsQuiet-raise_if, quiet_rules}
use agentdesk_ai.Tickets.Service
use agentdesk_ai.Tickets.Service.Soundness.{
  create_ticket-IsSoundSession, approve-IsSoundSession, reject-IsSoundSession,
  edit_draft-IsSoundSession,
}
use agentdesk_ai.Tickets.Service.Growth.{
  Appends-create_ticket, Appends-approve, Appends-reject, Appends-edit_draft,
}
use agentdesk_ai.Tickets.History.Keeps.{Keeps, Keeps-quiet, Keeps-bind, Keeps-if}
use agentdesk_ai.Runs.Service.{execute_run}
use agentdesk_ai.Runs.Record.{start_run}
use agentdesk_ai.Runs.Service.Effects.{IsQuiet-start_run}
use agentdesk_ai.Runs.Service.Growth.{Appends-execute_run}
use agentdesk_ai.Runs.Service.Soundness.{execute_run-IsSoundSession}
use agentdesk_ai.Api.Routes
use agentdesk_ai.Api.Routes.{
  translate, http_of, length_within, validate, current_user, dispatch_run, start_if_open,
  refuse_login, accept_login, after_login,
}
use agentdesk_ai.Api.Soundness.Common.{
  Keeps-validated, Keeps-load, Appends-translate, translated, Keeps-route,
}

module _ {F : Type 0} (env : Env F) where
  pub Keeps-post_ticket :
      (creds : Option String) (title description : String) (priority : TicketPriority)
      → Keeps (Routes.post_ticket env creds title description priority)
  unfolding Routes.post_ticket
  Keeps-post_ticket creds title description priority = Keeps-route env creds _ _ (λ user.
      Keeps-validated (length_within 1 255 title && leb 1 (count description))
        (Service.create_ticket env user.organization_id user.id title description priority)
        (record {
          at =
              create_ticket-IsSoundSession env user.organization_id user.id title description
                priority;
          appends =
              Appends-create_ticket env user.organization_id user.id title description priority;
        }))

  pub Keeps-approve :
      (creds : Option String) (ticket_id : ℕ) (edited : Option String)
      → Keeps (Routes.approve env creds ticket_id edited)
  unfolding Routes.approve
  Keeps-approve creds ticket_id edited = Keeps-route env creds _ _ (λ user.
      Keeps-load user ticket_id (λ ticket. translate (Service.approve env ticket user.id edited))
        (λ past ticket s h l.
          translated (Service.approve env ticket user.id edited) s
            (approve-IsSoundSession env ticket user.id edited s h l))
        (λ ticket. Appends-translate _ (Appends-approve env ticket user.id edited)))

  pub Keeps-reject :
      (creds : Option String) (ticket_id : ℕ) (reason : Option String)
      → Keeps (Routes.reject env creds ticket_id reason)
  unfolding Routes.reject
  Keeps-reject creds ticket_id reason = Keeps-route env creds _ _ (λ user.
      Keeps-load user ticket_id (λ ticket. translate (Service.reject env ticket user.id reason))
        (λ past ticket s h l.
          translated (Service.reject env ticket user.id reason) s
            (reject-IsSoundSession env ticket user.id reason s h l))
        (λ ticket. Appends-translate _ (Appends-reject env ticket user.id reason)))

  pub Keeps-edit_draft :
      (creds : Option String) (ticket_id : ℕ) (content : String)
      → Keeps (Routes.edit_draft env creds ticket_id content)
  unfolding Routes.edit_draft
  Keeps-edit_draft creds ticket_id content = Keeps-route env creds _ _ (λ user.
      Keeps-validated (leb 1 (count content))
        (Routes.load env user ticket_id >>= λ ticket.
          translate (Service.edit_draft ticket user.id content))
        (Keeps-load user ticket_id (λ ticket. translate (Service.edit_draft ticket user.id content))
          (λ past ticket s h l.
            translated (Service.edit_draft ticket user.id content) s
              (edit_draft-IsSoundSession ticket user.id content s h l))
          (λ ticket. Appends-translate _ (Appends-edit_draft ticket user.id content))))

  pub Keeps-execute_run : (key : ℕ) → Keeps (execute_run env key)
  Keeps-execute_run key = record {
    at = execute_run-IsSoundSession env key;
    appends = Appends-execute_run env key;
  }

  pub Keeps-dispatch_run : (run : AgentRun F) → Keeps (dispatch_run env run)
  unfolding dispatch_run
  Keeps-dispatch_run run =
      Keeps-if env.agent_run_eager (execute_run env run.id)
        (delay env (run_agent run.id) >> pure run) (Keeps-execute_run run.id)
        (Keeps-quiet (delay env (run_agent run.id) >> pure run) (search quiet_rules))

  pub Keeps-start_if_open : (user : User) (ticket : Ticket) → Keeps (start_if_open env user ticket)
  unfolding start_if_open
  Keeps-start_if_open user ticket =
      Keeps-bind (raise_if (status_eq ticket.status closed) _) _
        (Keeps-quiet (raise_if (status_eq ticket.status closed) _) (IsQuiet-raise_if _ _))
        (λ u.
          Keeps-bind (start_run env ticket (some user.id)) (dispatch_run env)
            (Keeps-quiet (start_run env ticket (some user.id)) (IsQuiet-start_run env ticket _))
            Keeps-dispatch_run)

  pub Keeps-run_workflow :
      (creds : Option String) (ticket_id : ℕ) → Keeps (Routes.run_workflow env creds ticket_id)
  unfolding Routes.run_workflow
  Keeps-run_workflow creds ticket_id = Keeps-route env creds _ _ (λ user.
      Keeps-load user ticket_id (start_if_open env user)
        (λ past ticket s h l. (Keeps-start_if_open user ticket).at s h)
        (λ ticket. (Keeps-start_if_open user ticket).appends))
