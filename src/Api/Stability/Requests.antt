-- ===== src/Api/Stability/Requests.antt =====
-- The routes that change tickets, for a user of the organization.
use Prim.Native.String.{count}
use agentdesk_ai.Base.{ℕ, ◌<◌, ◌≡◌, Bool, true, false, Option, String, ◌&&◌, leb, All}
use agentdesk_ai.Models.Ticket.{Ticket, TicketPriority}
use agentdesk_ai.Models.Records.{User}
use agentdesk_ai.Session.{Session, Env, Exec, ok, ◌>>=◌, ◌>>◌}
use agentdesk_ai.Session.Rows.{ticket_row, run_row}
use agentdesk_ai.Auth.Access.{get_current_user}
use agentdesk_ai.Tickets.Service
use agentdesk_ai.Tickets.Stable.{Tables, Stable, Holds, Preserves}
use agentdesk_ai.Tickets.Service.Stability.{
  Preserves-create_ticket, Preserves-approve, Preserves-reject, Preserves-edit_draft,
}
use agentdesk_ai.Api.Routes
use agentdesk_ai.Api.Routes.{translate, length_within, validate, current_user, start_if_open}
use agentdesk_ai.Api.Stability.{route-Holds, loaded-Holds, on_ticket-Holds, start_if_open-Holds}

module _ {F : Type 0} (env : Env F) {I : Tables} where
  validated-Holds :
      {A : Type 0} (valid : Bool) (m : Exec F A) (s : Session F)
      → Holds I s
      → Holds I (m s).1
      → Holds I ((validate valid >> m) s).1
  validated-Holds true m s h k = k
  validated-Holds false m s h k = h

module _ {F : Type 0} (env : Env F) {organization_id : ℕ} {I : Tables} {Owned : ℕ → Type 0}
    (stable : Stable organization_id I Owned) where
  module _ (c : Option String) (user : User) (s : Session F)
      (known : (get_current_user env c s).0 ≡ ok user)
      (own : user.organization_id ≡ organization_id) (h : Holds I s) where
    pub post_ticket-Holds :
        (title description : String) (priority : TicketPriority)
        → Holds I (Routes.post_ticket env c title description priority s).1
    unfolding Routes.post_ticket
    post_ticket-Holds title description priority =
        let valid = length_within 1 255 title && leb 1 (count description) in
        route-Holds env stable c (Routes.staff env)
          (λ u.
            validate valid
            >> Service.create_ticket env u.organization_id u.id title description priority)
          user s known h
          (validated-Holds env valid
            (Service.create_ticket env user.organization_id user.id title description priority) s h
            (rw own
              ((Preserves-create_ticket stable env user.id title description priority).at s h)))

    -- A decision on a ticket, of a user of the staff.
    on_ticket_route-Holds :
        {A : Type 0} (key : ℕ) (m : User → Ticket → Exec F A)
        → ((ticket : Ticket)
            → ticket.organization_id ≡ organization_id
            → Owned ticket.id
            → Preserves I (m user ticket))
        → Holds I
            ((current_user env c (Routes.staff env) >>= λ u.
                Routes.load env u key >>= λ ticket. translate (m u ticket))
              s).1
    on_ticket_route-Holds key m k =
        route-Holds env stable c (Routes.staff env)
          (λ u. Routes.load env u key >>= λ ticket. translate (m u ticket)) user s known h
          (on_ticket-Holds env stable user key (m user) s own h k)

    pub approve-Holds :
        (key : ℕ) (edited : Option String) → Holds I (Routes.approve env c key edited s).1
    unfolding Routes.approve
    approve-Holds key edited =
        on_ticket_route-Holds key (λ u ticket. Service.approve env ticket u.id edited)
          (λ ticket. Preserves-approve stable env ticket user.id edited)

    pub reject-Holds :
        (key : ℕ) (reason : Option String) → Holds I (Routes.reject env c key reason s).1
    unfolding Routes.reject
    reject-Holds key reason =
        on_ticket_route-Holds key (λ u ticket. Service.reject env ticket u.id reason)
          (λ ticket. Preserves-reject stable env ticket user.id reason)

    pub edit_draft-Holds :
        (key : ℕ) (content : String) → Holds I (Routes.edit_draft env c key content s).1
    unfolding Routes.edit_draft
    edit_draft-Holds key content =
        let valid = leb 1 (count content) in
        route-Holds env stable c (Routes.staff env)
          (λ u.
            validate valid
            >> (Routes.load env u key >>= λ ticket.
                translate (Service.edit_draft ticket u.id content)))
          user s known h
          (validated-Holds env valid
            (Routes.load env user key >>= λ ticket.
              translate (Service.edit_draft ticket user.id content))
            s h
            (on_ticket-Holds env stable user key
              (λ ticket. Service.edit_draft ticket user.id content) s own h
              (λ ticket. Preserves-edit_draft stable ticket user.id content)))

    pub run_workflow-Holds :
        (key : ℕ)
        → All (λ r. r.id < s.next_id) s.working.agent_runs
        → Holds I (Routes.run_workflow env c key s).1
    unfolding Routes.run_workflow
    run_workflow-Holds key fresh =
        route-Holds env stable c (Routes.staff env)
          (λ u. Routes.load env u key >>= start_if_open env u) user s known h
          (loaded-Holds env stable user key (start_if_open env user) s own h
            (λ ticket found mine. start_if_open-Holds env stable user ticket s fresh found mine h))
