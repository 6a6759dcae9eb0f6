-- ===== src/Api/Stability/Anyone.antt =====
-- The calls, and what is stable for every organization, whoever asks.
use Prim.Native.String.{count}
use agentdesk_ai.Base.{
  ℕ, ◌≡◌, Bool, not, refl, inl, inr, Option, Option-cases, none, List, String, ◌&&◌, leb,
}
use agentdesk_ai.Models.Ticket.{Ticket}
use agentdesk_ai.Models.Records.{Role, User, AgentRun}
use agentdesk_ai.Session.{Env, Exec, raise, deliver_webhook, run_agent, pure, ◌>>=◌, ◌>>◌}
use agentdesk_ai.Session.Quiet.{IsQuiet-raise_if, quiet_rules}
use agentdesk_ai.Session.Rows.{get, ticket_row, run_row}
use agentdesk_ai.Tickets.Service
use agentdesk_ai.Tickets.Stable.{
  Tables, Stable, Preserves, Preserves-quiet, Preserves-bind, Preserves-catch, Preserves-if,
}
use agentdesk_ai.Tickets.Service.Stability.{
  Preserves-create_ticket, Preserves-approve, Preserves-reject, Preserves-edit_draft, calm_rules,
}
use agentdesk_ai.Runs.Service.{execute_run}
use agentdesk_ai.Runs.Service.Effects.{IsQuiet-start_run}
use agentdesk_ai.Runs.Service.Stability.{execute_run-Holds}
use agentdesk_ai.Api.Routes
use agentdesk_ai.Api.Routes.{
  translate, http_of, length_within, validate, current_user, dispatch_run, start_if_open,
}
use agentdesk_ai.Api.Serve.{
  Call, post_ticket, approve, reject, edit_draft, run_workflow, put_webhook, post_user,
  post_register, login, post_document, read, task, perform_task, perform,
}
use agentdesk_ai.Api.Soundness.Common.{IsQuiet-current_user}
use agentdesk_ai.Api.Stability.{loaded-Holds}
use agentdesk_ai.Api.Stability.Calls.{token_of, run_of, quiet-Holds}

module _ {F : Type 0} (env : Env F) {I : Tables}
    (stable : (organization_id : ℕ) → Stable organization_id I (λ key. Unit)) where
  Preserves-execute_run : (key : ℕ) → Preserves I (execute_run env key)
  unfolding execute_run
  Preserves-execute_run key = record {
    at = λ s h. elim (Option-cases (get key s.working.agent_runs)) [
      | inl missing ↦ rw missing h
      | inr (run, found) ↦ elim (Option-cases (get run.ticket_id s.working.tickets)) [
        | inl missing ↦ rw (found, missing) h
        | inr (ticket, of_run) ↦
            execute_run-Holds env (stable ticket.organization_id) key run ticket s found of_run refl
              h
      ]
    ];
  }

  Preserves-dispatch_run : (run : AgentRun F) → Preserves I (dispatch_run env run)
  unfolding dispatch_run
  Preserves-dispatch_run run = search (calm_rules, Preserves-if, Preserves-execute_run) depth 8

  Preserves-start_if_open :
      (user : User) (ticket : Ticket) → Preserves I (start_if_open env user ticket)
  unfolding start_if_open
  Preserves-start_if_open user ticket =
      search (calm_rules, IsQuiet-raise_if, IsQuiet-start_run, Preserves-dispatch_run) depth 8

  Preserves-route :
      {A : Type 0} (creds : Option String) (allowed : List Role) (f : User → Exec F A)
      → ((user : User) → Preserves I (f user))
      → Preserves I (current_user env creds allowed >>= f)
  Preserves-route creds allowed f h =
      Preserves-bind (current_user env creds allowed) f
        (Preserves-quiet _ (IsQuiet-current_user env creds allowed)) h

  Preserves-loaded :
      {A : Type 0} (user : User) (key : ℕ) (g : Ticket → Exec F A)
      → ((ticket : Ticket) → Preserves I (g ticket))
      → Preserves I (Routes.load env user key >>= g)
  Preserves-loaded user key g k = record {
    at = λ s h.
        loaded-Holds env (stable user.organization_id) user key g s refl h
          (λ ticket found mine. (k ticket).at s h);
  }

  pub Preserves-translate : {A : Type 0} (m : Exec F A) → Preserves I m → Preserves I (translate m)
  Preserves-translate m h =
      Preserves-catch m (λ e. raise (http_of e)) h (λ e. Preserves-quiet _ (search quiet_rules))

  Preserves-void : {A : Type 0} (m : Exec F A) → Preserves I m → Preserves I (m >> pure tt)
  Preserves-void m h =
      Preserves-bind m (λ _. pure tt) h (λ _. Preserves-quiet _ (search quiet_rules))

  Preserves-validated :
      {A : Type 0} (valid : Bool) (m : Exec F A) → Preserves I m → Preserves I (validate valid >> m)
  Preserves-validated valid m h =
      Preserves-bind (validate valid) (λ _. m) (Preserves-quiet _ (IsQuiet-raise_if (not valid) _))
        (λ _. h)

  Preserves-quiet_call :
      (call : Call F) → token_of call ≡ none → run_of call ≡ none → Preserves I (perform env call)
  Preserves-quiet_call call p q = record { at = λ s h. quiet-Holds env call s p q h }

  pub Preserves-perform : (call : Call F) → Preserves I (perform env call)
  unfolding perform perform_task Routes.post_ticket Routes.approve Routes.reject Routes.edit_draft
      Routes.run_workflow
  Preserves-perform (post_ticket creds title description priority) =
      Preserves-void (Routes.post_ticket env creds title description priority) (
        Preserves-route creds _ _ (λ user.
          Preserves-validated (length_within 1 255 title && leb 1 (count description))
            (Service.create_ticket env user.organization_id user.id title description priority)
            (Preserves-create_ticket (stable user.organization_id) env user.id title description
              priority)))
  Preserves-perform (approve creds key edited) =
      Preserves-void (Routes.approve env creds key edited) (
        Preserves-route creds _ _ (λ user. Preserves-loaded user key _ (λ ticket.
          Preserves-translate _
            (Preserves-approve (stable ticket.organization_id) env ticket user.id edited refl tt))))
  Preserves-perform (reject creds key reason) =
      Preserves-void (Routes.reject env creds key reason) (
        Preserves-route creds _ _ (λ user. Preserves-loaded user key _ (λ ticket.
          Preserves-translate _
            (Preserves-reject (stable ticket.organization_id) env ticket user.id reason refl tt))))
  Preserves-perform (edit_draft creds key content) =
      Preserves-void (Routes.edit_draft env creds key content) (
        Preserves-route creds _ _ (λ user.
          Preserves-validated (leb 1 (count content))
            (Routes.load env user key >>= λ ticket.
              translate (Service.edit_draft ticket user.id content))
            (Preserves-loaded user key _ (λ ticket. Preserves-translate _ (
              Preserves-edit_draft (stable ticket.organization_id) ticket user.id content refl
                tt)))))
  Preserves-perform (run_workflow creds key) = Preserves-void (Routes.run_workflow env creds key) (
      Preserves-route creds _ _
        (λ user. Preserves-loaded user key (start_if_open env user) (Preserves-start_if_open user)))
  Preserves-perform (put_webhook creds url secret is_active) =
      Preserves-quiet_call (put_webhook creds url secret is_active) refl refl
  Preserves-perform (post_user creds email password role) =
      Preserves-quiet_call (post_user creds email password role) refl refl
  Preserves-perform (post_register name email password) =
      Preserves-quiet_call (post_register name email password) refl refl
  Preserves-perform (login email password) = Preserves-quiet_call (login email password) refl refl
  Preserves-perform (post_document creds title content kind) =
      Preserves-quiet_call (post_document creds title content kind) refl refl
  Preserves-perform (read r) = Preserves-quiet_call (read r) refl refl
  Preserves-perform (task (deliver_webhook key)) =
      Preserves-quiet_call (task (deliver_webhook key)) refl refl
  Preserves-perform (task (run_agent key)) =
      Preserves-void (execute_run env key) (Preserves-execute_run key)
