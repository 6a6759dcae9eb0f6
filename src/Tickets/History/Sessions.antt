-- ===== src/Tickets/History/Sessions.antt =====
-- The invariant of a session: of what it sees and of what is committed.
use native.Mathlib.Nat.{le_trans}
use agentdesk_ai.Base.{◌<◌, ◌≡◌, inl, inr, some}
use agentdesk_ai.Models.Ticket.{Ticket}
use agentdesk_ai.Session.{Session, Exec, Result, ok, err, Error, resume, or_handle, ◌>>=◌}
use agentdesk_ai.Session.Quiet.{Quiet, IsQuiet}
use agentdesk_ai.Session.Rows.{get, ticket_row, All-get}
use agentdesk_ai.Tickets.History.{Past, at, replay, IsSound}
use agentdesk_ai.Tickets.History.Steps.{IsSound-later}

module _ {F : Type 0} where
  pub record IsSoundSession (past : Past) (s : Session F) : Type 0 where
    pub seen : IsSound past s.next_id s.working.tickets s.working.ticket_events
    pub stored : IsSound past s.next_id s.committed.tickets s.committed.ticket_events

  -- What a ticket object is right after `db.get`: its status is the one that its events lead to.
  pub record IsLoaded (ticket : Ticket) (s : Session F) : Type 0 where
    pub known : ticket.id < s.next_id
    pub standing : replay ticket.id s.working.ticket_events ≡ at ticket.status

module _ {F : Type 0} {past : Past} where
  -- What leaves the tickets alone keeps the invariant.
  pub Quiet-IsSoundSession :
      {s t : Session F} → Quiet s t → IsSoundSession past s → IsSoundSession past t
  Quiet-IsSoundSession {s} {t} q h =
      let seen : IsSound past t.next_id s.working.tickets s.working.ticket_events =
        IsSound-later s.working.tickets s.working.ticket_events h.seen t.next_id q.ids in
      let stored : IsSound past t.next_id s.committed.tickets s.committed.ticket_events =
        IsSound-later s.committed.tickets s.committed.ticket_events h.stored t.next_id q.ids in
      record {
        seen = rw (q.tickets, q.events) seen;
        stored = elim q.published [ inl p ↦ rw (p.0, p.1) stored | inr p ↦ rw (p.0, p.1) seen ];
      }

  -- After an action that keeps the invariant, a block that leaves the tickets alone.
  pub resume-IsSoundSession :
      {A B : Type 0} (r : Result A) (f : A → Exec F B) (t : Session F)
      → ((a : A) → IsQuiet (f a))
      → IsSoundSession past t
      → IsSoundSession past (resume r f t).1
  resume-IsSoundSession (ok a) f t q h = Quiet-IsSoundSession ((q a).at t) h
  resume-IsSoundSession (err e) f t q h = h

  pub get-IsLoaded :
      (ticket : Ticket) (s : Session F)
      → IsSoundSession past s
      → get ticket.id s.working.tickets ≡ some ticket
      → IsLoaded ticket s
  get-IsLoaded ticket s h e = record {
    known = All-get (λ t. t.id < s.next_id) ticket.id s.working.tickets h.seen.ticket_keys e;
    standing =
        All-get (λ t. replay t.id s.working.ticket_events ≡ at t.status) ticket.id s.working.tickets
          h.seen.histories e;
  }

  -- An action that leaves the tickets alone, and then what keeps the invariant for a ticket that
  -- was loaded before.
  pub quiet_then-IsSoundSession :
      {A B : Type 0} (ticket : Ticket) (m : Exec F A) (f : A → Exec F B) (s : Session F)
      → IsQuiet m
      → IsSoundSession past s
      → IsLoaded ticket s
      → ((a : A) (t : Session F)
          → IsSoundSession past t
          → IsLoaded ticket t
          → IsSoundSession past (f a t).1)
      → IsSoundSession past ((m >>= f) s).1
  quiet_then-IsSoundSession {A} ticket m f s q h l k = go (m s).0 (m s).1 (q.at s)
    where
      go : (r : Result A) (t : Session F) → Quiet s t → IsSoundSession past (resume r f t).1
      go (ok a) t p =
          k a t (Quiet-IsSoundSession p h)
            (record { known = le_trans l.known p.ids; standing = rw p.events l.standing })
      go (err e) t p = Quiet-IsSoundSession p h

  pub or_handle-IsSoundSession :
      {A : Type 0} (r : Result A) (handler : Error → Exec F A) (t : Session F)
      → IsSoundSession past t
      → ((e : Error) → IsSoundSession past (handler e t).1)
      → IsSoundSession past (or_handle r handler t).1
  or_handle-IsSoundSession (ok a) handler t h k = h
  or_handle-IsSoundSession (err e) handler t h k = k e
