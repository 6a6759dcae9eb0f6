-- ===== src/Api/Stability.antt =====
-- The routes and tasks, and the stable predicates of the tickets of the organization they act for.
pub mod Requests
pub mod Calls
pub mod Anyone
use agentdesk_ai.Base.{
  ℕ, suc, ◌<◌, ◌≡◌, refl, Bool, true, false, not, Bool-cases, Option-cases, inl, inr, Option, some,
  none, List, [], ◌∷◌, ◌==◌, ◌&&◌, ==_iff, All, String, if◌then◌else◌, leb,
}
use agentdesk_ai.Models.Ticket.{Ticket, TicketPriority, closed, status_eq}
use agentdesk_ai.Models.Records.{Role, User, AgentRun}
use agentdesk_ai.Session.{
  Session, Task, deliver_webhook, run_agent, Env, Error, Exec, Result, ok, err, resume, or_handle,
  pure, raise, raise_if, delay, in_session, ◌>>=◌, ◌>>◌,
}
use agentdesk_ai.Session.Quiet.{IsQuiet, IsQuiet-raise_if, quiet_rules}
use agentdesk_ai.Session.ReadOnly.{IsReadOnly, IsReadOnly-IsQuiet}
use agentdesk_ai.Session.Rows.{get, get-key, get-append_new, ticket_row, run_row}
use agentdesk_ai.Audit.{record_event}
use agentdesk_ai.Auth.Access.{is_empty, has_role, get_current_user, require_role}
use agentdesk_ai.Auth.Effects.{IsReadOnly-get_current_user, IsReadOnly-require_role}
use agentdesk_ai.Tickets.Service
use agentdesk_ai.Tickets.Stable.{
  Tables, Stable, Holds, Preserves, Preserves-quiet, Preserves-bind, Preserves-catch, Quiet-Holds,
  if-Holds, resume-Holds, or_handle-Holds,
}
use agentdesk_ai.Tickets.Service.Stability.{
  Preserves-create_ticket, Preserves-approve, Preserves-reject, Preserves-edit_draft, calm_rules,
}
use agentdesk_ai.Runs.Service.{execute_run}
use agentdesk_ai.Runs.Record.{new_run, start_run}
use agentdesk_ai.Runs.Service.Effects.{IsQuiet-start_run}
use agentdesk_ai.Runs.Service.Stability.{execute_run-Holds}
use agentdesk_ai.Api.Routes
use agentdesk_ai.Api.Routes.{
  translate, http_of, validate, current_user, dispatch_run, start_if_open,
}

module _ {F : Type 0} (env : Env F) {organization_id : ℕ} {I : Tables} {Owned : ℕ → Type 0}
    (stable : Stable organization_id I Owned) where
  -- A route, for a user of the organization.
  pub route-Holds :
      {A : Type 0} (creds : Option String) (allowed : List Role) (f : User → Exec F A) (user : User)
      (s : Session F)
      → (get_current_user env creds s).0 ≡ ok user
      → Holds I s
      → Holds I (f user s).1
      → Holds I ((current_user env creds allowed >>= f) s).1
  unfolding current_user require_role
  route-Holds creds allowed f user s known h k =
      let same : (get_current_user env creds s).1 ≡ s =
        (IsReadOnly-get_current_user env creds).at s in
      rw (known, same)
        (elim (Bool-cases (not (is_empty allowed) && not (has_role allowed user.role))) [
          | inl refused ↦ rw refused h
          | inr let_in ↦ rw let_in k
        ])

  -- The rest of a route, once a ticket of the organization is loaded.
  load-Holds :
      {A : Type 0} (key : ℕ) (g : Ticket → Exec F A) (s : Session F)
      → Holds I s
      → ((ticket : Ticket)
          → get key s.working.tickets ≡ some ticket
          → ticket.organization_id ≡ organization_id
          → Holds I (g ticket s).1)
      → Holds I ((translate (Service.get_ticket organization_id key) >>= g) s).1
  unfolding Service.get_ticket
  load-Holds key g s h k = elim (Option-cases (get key s.working.tickets)) [
    | inl missing ↦ rw missing h
    | inr (ticket, found) ↦
        rw found (elim (Bool-cases (ticket.organization_id == organization_id)) [
          | inl own ↦ rw own (k ticket found ((==_iff _ _).0 own))
          | inr foreign ↦ rw foreign h
        ])
  ]

  pub loaded-Holds :
      {A : Type 0} (user : User) (key : ℕ) (g : Ticket → Exec F A) (s : Session F)
      → user.organization_id ≡ organization_id
      → Holds I s
      → ((ticket : Ticket)
          → get ticket.id s.working.tickets ≡ some ticket
          → ticket.organization_id ≡ organization_id
          → Holds I (g ticket s).1)
      → Holds I ((Routes.load env user key >>= g) s).1
  loaded-Holds user key g s own h k = rw own (
      load-Holds key g s h
        (λ ticket found mine. k ticket (cc (get-key key s.working.tickets found, found)) mine))

  -- The service operations on a ticket that was loaded, with what they raise translated.
  pub on_ticket-Holds :
      {A : Type 0} (user : User) (key : ℕ) (m : Ticket → Exec F A) (s : Session F)
      → user.organization_id ≡ organization_id
      → Holds I s
      → ((ticket : Ticket)
          → ticket.organization_id ≡ organization_id
          → Owned ticket.id
          → Preserves I (m ticket))
      → Holds I ((Routes.load env user key >>= λ ticket. translate (m ticket)) s).1
  on_ticket-Holds user key m s own h k =
      loaded-Holds user key (λ ticket. translate (m ticket)) s own h
        (λ ticket found mine.
          let held = stable.load _ _ ticket.id ticket h.seen found mine in
          (Preserves-catch (m ticket) (λ e. raise (http_of e)) (k ticket mine held)
              (λ e. Preserves-quiet _ (search quiet_rules))).at
            s h)

  -- A run is started under a new key, and found again.
  start_run-found :
      (ticket : Ticket) (actor : Option ℕ) (s : Session F)
      → All (λ r. r.id < s.next_id) s.working.agent_runs
      → let run = new_run s.next_id s.now ticket in
        let (r, t) = start_run env ticket actor s in
        (r ≡ ok run)
        × (get s.next_id t.working.agent_runs ≡ some run)
        × (t.working.tickets ≡ s.working.tickets)
  unfolding start_run record_event
  start_run-found ticket actor s fresh =
      let found = get-append_new s.working.agent_runs (new_run s.next_id s.now ticket) fresh in
      rw found (refl, found, refl)

  dispatch_run-Holds :
      (run : AgentRun F) (ticket : Ticket) (s : Session F)
      → get run.id s.working.agent_runs ≡ some run
      → get run.ticket_id s.working.tickets ≡ some ticket
      → ticket.organization_id ≡ organization_id
      → Holds I s
      → Holds I (dispatch_run env run s).1
  unfolding dispatch_run
  dispatch_run-Holds run ticket s found of_run own h =
      if-Holds env.agent_run_eager (execute_run env run.id)
        (delay env (run_agent run.id) >> pure run) s
        (execute_run-Holds env stable run.id run ticket s found of_run own h)
        ((Preserves-quiet _ (queue-IsQuiet run)).at s h)
    where
      queue-IsQuiet : (r : AgentRun F) → IsQuiet (delay env (run_agent r.id) >> pure r)
      queue-IsQuiet r = search quiet_rules

  pub start_if_open-Holds :
      (user : User) (ticket : Ticket) (s : Session F)
      → All (λ r. r.id < s.next_id) s.working.agent_runs
      → get ticket.id s.working.tickets ≡ some ticket
      → ticket.organization_id ≡ organization_id
      → Holds I s
      → Holds I (start_if_open env user ticket s).1
  unfolding start_if_open
  start_if_open-Holds user ticket s fresh found own h =
      let actor = some user.id in
      let (answered, stored, kept) = start_run-found ticket actor s fresh in
      let t : Session F = (start_run env ticket actor s).1 in
      let started : Holds I t = Quiet-Holds ((IsQuiet-start_run env ticket actor).at s) h in
      let run = new_run s.next_id s.now ticket in
      let ended = dispatch_run-Holds run ticket t stored (rw kept found) own started in
      elim (Bool-cases (status_eq ticket.status closed)) [
        | inl shut ↦ rw shut h
        | inr still_open ↦ rw still_open (start_run-then ticket actor s run answered ended)
      ]
    where
      start_run-then :
          (x : Ticket) (actor : Option ℕ) (u : Session F) (run : AgentRun F)
          → (start_run env x actor u).0 ≡ ok run
          → Holds I (dispatch_run env run (start_run env x actor u).1).1
          → Holds I ((start_run env x actor >>= dispatch_run env) u).1
      start_run-then x actor u run answered ended = rw answered ended
