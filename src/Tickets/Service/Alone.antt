-- ===== src/Tickets/Service/Alone.antt =====
-- What the queries of ticket_service.py read, of the rows of one organization alone.
use agentdesk_ai.Base.{
  ℕ, ◌≡◌, refl, Bool-cases, inl, inr, Option, none, some, All-weaken, ◌==◌, ==_iff, arith,
  select-select, select-select_All,
}
use agentdesk_ai.Models.Ticket.{Ticket, TicketStatus}
use agentdesk_ai.Session.{Session, Exec, ◌>>=◌}
use agentdesk_ai.Session.Rows.{get, All-get, get-key, ticket_row, user_row}
use agentdesk_ai.Session.Selected.{keep, get-select}
use agentdesk_ai.Tickets.Service.{check_tenant, get_ticket, list_tickets, list_events}
use agentdesk_ai.Session.Own.{alone, IsFiled}

module _ {F : Type 0} (organization_id : ℕ) (s : Session F) where
  pub list_tickets-alone :
      (status : Option TicketStatus)
      → (list_tickets organization_id status s).0
        ≡ (list_tickets organization_id status (alone organization_id s)).0
  unfolding list_tickets
  list_tickets-alone status =
      rw
        (select-select (λ t. t.organization_id == organization_id)
          (λ t. t.organization_id == organization_id) s.working.tickets (λ t h. h))
        refl

  pub get_ticket-alone :
      (key : ℕ)
      → IsFiled organization_id s.working
      → (get_ticket organization_id key s).0
        ≡ (get_ticket organization_id key (alone organization_id s)).0
  unfolding get_ticket check_tenant
  get_ticket-alone key filed =
      rw (get-select (λ t. t.organization_id == organization_id) key s.working.tickets filed.keys)
        (same (get key s.working.tickets))
    where
      same :
          (o : Option Ticket)
          → (check_tenant organization_id o s).0
            ≡ (check_tenant organization_id
                (keep (λ t. t.organization_id == organization_id) o)
                (alone organization_id s)).0
      same none = refl
      same (some t) = elim (Bool-cases (t.organization_id == organization_id)) [
        | inl e ↦ rw (e, e) refl
        | inr e ↦ rw e refl
      ]

  check_tenant-alone :
      {A : Type 0} (o : Option Ticket) (f : Ticket → Exec F A)
      → ((t : Ticket)
          → o ≡ some t
          → t.organization_id ≡ organization_id
          → (f t s).0 ≡ (f t (alone organization_id s)).0)
      → ((check_tenant organization_id o >>= f) s).0
        ≡ ((check_tenant organization_id (keep (λ t. t.organization_id == organization_id) o) >>= f)
            (alone organization_id s)).0
  unfolding check_tenant
  check_tenant-alone none f h = refl
  check_tenant-alone (some t) f h = elim (Bool-cases (t.organization_id == organization_id)) [
    | inl e ↦ rw (e, e) (h t refl ((==_iff _ _).0 e))
    | inr e ↦ rw e refl
  ]

  pub list_events-alone :
      (key : ℕ)
      → IsFiled organization_id s.working
      → (list_events organization_id key s).0
        ≡ (list_events organization_id key (alone organization_id s)).0
  unfolding list_events get_ticket
  list_events-alone key filed =
      rw (get-select (λ t. t.organization_id == organization_id) key s.working.tickets filed.keys) (
        check_tenant-alone (get key s.working.tickets) _ (λ t found tenant.
          let known = All-get _ key s.working.tickets filed.events found tenant in
          let same = get-key key s.working.tickets found in
          rw
            (select-select_All (λ e. e.organization_id == organization_id) (λ e. e.ticket_id == key)
              s.working.ticket_events
              (All-weaken _ _ s.working.ticket_events (λ e h p. ground (arith, h)) known))
            refl))
