-- ===== src/Tickets/History.antt =====
-- The events of a ticket read as a run of its state machine, and the invariant of the tables.
pub mod Keeps
pub mod Steps
pub mod Sessions
pub mod Trails
use agentdesk_ai.Base.{
  ℕ, ◌<◌, ◌≡◌, refl, false, ◌&&◌, Option, none, some, List, [], ◌∷◌, ◌++◌, arith, ◌==◌,
  if◌then◌else◌, String, is_blank, All,
}
use agentdesk_ai.Models.Ticket.{Ticket, TicketStatus, new, approved, status_eq, can_transition}
use agentdesk_ai.Models.Records.{TicketEvent}
use agentdesk_ai.Session.Rows.{get, ticket_row}

-- Where a run stands: before the creation, at a status, or past a move that the table forbids.
pub data Standing : Type 0 where
  absent : Standing
  at : TicketStatus → Standing
  broken : Standing

-- One event of the ticket. An event with no new status, such as an edit, moves nothing.
abbrev pub advance : Standing → Option TicketStatus → Option TicketStatus → Standing
advance r from_status none = r
advance absent none (some t) = if status_eq t new then at t else broken
advance (at s) (some f) (some t) = if status_eq s f && can_transition f t then at t else broken
advance _ _ (some t) = broken

-- The events of the ticket with key `k`, in order.
unfoldable pub replay_from : ℕ → Standing → List TicketEvent → Standing
replay_from k r [] = r
replay_from k r (e ∷ es) =
    replay_from k (if e.ticket_id == k then advance r e.from_status e.to_status else r) es

unfoldable pub replay : ℕ → List TicketEvent → Standing
unfolding replay_from
replay k es = replay_from k absent es

replay_from-append :
    (k : ℕ) (r : Standing) (es : List TicketEvent) (e : TicketEvent)
    → replay_from k r (es ++ (e ∷ [])) ≡ (
        if e.ticket_id == k
        then advance (replay_from k r es) e.from_status e.to_status
        else replay_from k r es)
unfolding replay_from
replay_from-append k r [] e = refl
replay_from-append k r (x ∷ es) e =
    replay_from-append k (if x.ticket_id == k then advance r x.from_status x.to_status else r) es e

pub replay-append :
    (k : ℕ) (es : List TicketEvent) (e : TicketEvent)
    → replay k (es ++ (e ∷ []))
      ≡ (if e.ticket_id == k then advance (replay k es) e.from_status e.to_status else replay k es)
unfolding replay
replay-append k es e = replay_from-append k absent es e

-- A key that no event names has no history.
replay_from-absent :
    (k : ℕ) (r : Standing) (es : List TicketEvent)
    → All (λ e. e.ticket_id < k) es
    → replay_from k r es ≡ r
unfolding replay_from
replay_from-absent k r [] h = refl
replay_from-absent k r (e ∷ es) h = ground (arith, replay_from-absent k r es h.1)

pub replay-absent :
    (k : ℕ) (es : List TicketEvent) → All (λ e. e.ticket_id < k) es → replay k es ≡ absent
unfolding replay
replay-absent k es h = replay_from-absent k absent es h

-- An approved ticket has a final response with more than white space.
abbrev pub HasFinal : Ticket → Type 0
HasFinal t = t.status ≡ approved → (f : String) × (t.final_response ≡ some f) × (is_blank f ≡ false)

-- The tickets and their events at some moment before.
pub record Past : Type 0 where
  pub tickets : List Ticket
  pub events : List TicketEvent

-- The ticket is still there, with its organization.
abbrev pub Stays : Ticket → List Ticket → Type 0
Stays t ts = (u : Ticket) × (get t.id ts ≡ some u) × (u.organization_id ≡ t.organization_id)

-- What holds of the tickets and their events: keys are below the next one to be given, the events
-- of each ticket are a run of the state machine that ends in its status, what is approved has a
-- final response, and since the past moment no ticket went away and events were only added.
pub record IsSound (past : Past) (next : ℕ) (tickets : List Ticket) (events : List TicketEvent)
    : Type 0 where
  pub ticket_keys : All (λ t. t.id < next) tickets
  pub event_keys : All (λ e. e.ticket_id < next) events
  pub histories : All (λ t. replay t.id events ≡ at t.status) tickets
  pub finals : All HasFinal tickets
  pub kept : (t : Ticket) → get t.id past.tickets ≡ some t → Stays t tickets
  pub grown : (more : List TicketEvent) × (events ≡ past.events ++ more)
