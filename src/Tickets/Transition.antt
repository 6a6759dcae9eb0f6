-- ===== src/Tickets/Transition.antt =====
-- ticket_service.py: the events of a ticket, and transition, the one way to change its status. A
-- `Ticket` argument is the object that the session has loaded: what the code reads from it is read
-- from the argument, what it assigns is written to the columns of its row, and the changed object is
-- returned.
use agentdesk_ai.Base.{ℕ, not, Option, some, [], ◌∷◌, ◌++◌, String}
use agentdesk_ai.Models.Ticket.{Ticket, TicketStatus, can_transition}
use agentdesk_ai.Models.Records.{TicketEvent}
use agentdesk_ai.Session.{
  invalid_transition, external, Exec, pure, raise_if, raise_if_none, query, fresh_id, get_now,
  write, ◌>>=◌, ◌>>◌,
}
use agentdesk_ai.Session.Rows.{get, update, ticket_row}

-- `TicketEvent(…)`
abbrev pub new_event :
    ℕ
    → ℕ
    → Ticket
    → String
    → Option TicketStatus
    → Option TicketStatus
    → Option ℕ
    → Option String
    → TicketEvent
new_event id now ticket event_type from_status to_status actor_user_id message = record {
  id = id;
  ticket_id = ticket.id;
  organization_id = ticket.organization_id;
  event_type = event_type;
  from_status = from_status;
  to_status = to_status;
  actor_user_id = actor_user_id;
  message = message;
  created_at = now;
}

module _ {F : Type 0} where
  -- `db.refresh(ticket)`
  abbrev pub refresh_ticket : ℕ → Exec F Ticket
  refresh_ticket key = do
    found ← query (λ db. get key db.tickets)
    raise_if_none found (external "could not refresh")

  abbrev pub add_event :
      Ticket
      → String
      → Option TicketStatus
      → Option TicketStatus
      → Option ℕ
      → Option String
      → Exec F (Unit {0})
  add_event ticket event_type from_status to_status actor_user_id message = do
    id ← fresh_id
    now ← get_now
    let event = new_event id now ticket event_type from_status to_status actor_user_id message
    write (λ db. record db { ticket_events = db.ticket_events ++ (event ∷ []) })

  -- Validates and applies a status change and appends the event. It does not commit.
  unfoldable pub transition :
      Ticket → TicketStatus → Option ℕ → String → Option String → Exec F Ticket
  unfolding can_transition
  transition ticket to_status actor_user_id event_type message = do
    raise_if (not (can_transition ticket.status to_status))
        (invalid_transition ticket.status to_status)
    now ← get_now
    write (λ db. record db {
      tickets =
          update ticket.id (λ t. record t { status = to_status; updated_at = now }) db.tickets;
    })
    add_event ticket event_type (some ticket.status) (some to_status) actor_user_id message
    pure (record ticket { status = to_status; updated_at = now })
