-- ===== src/Tickets/Stable.antt =====
-- What holds of the tickets and their events at every write: the interface of such a predicate, and
-- the actions that preserve it.
use agentdesk_ai.Base.{
  ℕ, ◌≡◌, Bool, true, false, inl, inr, some, List, [], ◌∷◌, ◌++◌, if◌then◌else◌,
}
use agentdesk_ai.Models.Ticket.{Ticket}
use agentdesk_ai.Models.Records.{TicketEvent}
use agentdesk_ai.Session.{
  Session, Exec, Result, Error, ok, err, resume, or_handle, catch, rollback, write, in_session,
  ◌>>=◌,
}
use agentdesk_ai.Session.Quiet.{Quiet, IsQuiet}
use agentdesk_ai.Session.Rows.{get, update, ticket_row}

-- A predicate of the two tables.
abbrev pub Tables : Type 1
Tables = List Ticket → List TicketEvent → Type 0

-- It survives what is done for one organization: an update of an owned ticket that keeps its key and
-- its organization, a new ticket, and a new event. A ticket that is found there, of the
-- organization, is owned.
pub record Stable (organization_id : ℕ) (I : Tables) (Owned : ℕ → Type 0) : Type 0 where
  pub load :
      (ts : List Ticket) (es : List TicketEvent) (key : ℕ) (t : Ticket)
      → I ts es
      → get key ts ≡ some t
      → t.organization_id ≡ organization_id
      → Owned key
  pub change :
      (ts : List Ticket) (es : List TicketEvent) (key : ℕ) (f : Ticket → Ticket)
      → Owned key
      → ((t : Ticket) → (f t).id ≡ t.id)
      → ((t : Ticket) → (f t).organization_id ≡ t.organization_id)
      → I ts es
      → I (update key f ts) es
  pub add :
      (ts : List Ticket) (es : List TicketEvent) (t : Ticket)
      → t.organization_id ≡ organization_id
      → I ts es
      → I (ts ++ (t ∷ [])) es
  pub note :
      (ts : List Ticket) (es : List TicketEvent) (e : TicketEvent)
      → e.organization_id ≡ organization_id
      → I ts es
      → I ts (es ++ (e ∷ []))

pub record Holds {F : Type 0} (I : Tables) (s : Session F) : Type 0 where
  pub seen : I s.working.tickets s.working.ticket_events
  pub stored : I s.committed.tickets s.committed.ticket_events

pub record Preserves {F A : Type 0} (I : Tables) (m : Exec F A) : Type 0 where
  pub at : (s : Session F) → Holds I s → Holds I (m s).1

module _ {F : Type 0} {I : Tables} where
  pub Quiet-Holds : {s t : Session F} → Quiet s t → Holds I s → Holds I t
  Quiet-Holds q h = record {
    seen = rw (q.tickets, q.events) h.seen;
    stored = elim q.published [ inl p ↦ rw (p.0, p.1) h.stored | inr p ↦ rw (p.0, p.1) h.seen ];
  }

  pub Preserves-quiet : {A : Type 0} (m : Exec F A) → IsQuiet m → Preserves I m
  Preserves-quiet m q = record { at = λ s h. Quiet-Holds (q.at s) h }

  pub resume-Holds :
      {A B : Type 0} (r : Result A) (f : A → Exec F B) (t : Session F)
      → ((a : A) → Preserves I (f a))
      → Holds I t
      → Holds I (resume r f t).1
  resume-Holds (ok a) f t k h = (k a).at t h
  resume-Holds (err e) f t k h = h

  pub or_handle-Holds :
      {A : Type 0} (r : Result A) (handler : Error → Exec F A) (t : Session F)
      → ((e : Error) → Preserves I (handler e))
      → Holds I t
      → Holds I (or_handle r handler t).1
  or_handle-Holds (ok a) handler t k h = h
  or_handle-Holds (err e) handler t k h = (k e).at t h

  pub Preserves-bind :
      {A B : Type 0} (m : Exec F A) (f : A → Exec F B)
      → Preserves I m
      → ((a : A) → Preserves I (f a))
      → Preserves I (m >>= f)
  Preserves-bind m f hm hf = record { at = λ s h. resume-Holds (m s).0 f (m s).1 hf (hm.at s h) }

  pub Preserves-catch :
      {A : Type 0} (m : Exec F A) (handler : Error → Exec F A)
      → Preserves I m
      → ((e : Error) → Preserves I (handler e))
      → Preserves I (catch m handler)
  Preserves-catch m handler hm hh = record {
    at = λ s h. or_handle-Holds (m s).0 handler (m s).1 hh (hm.at s h);
  }

  pub Preserves-rollback : Preserves {F = F} I rollback
  Preserves-rollback = record { at = λ s h. record { seen = h.stored; stored = h.stored } }

  pub Preserves-if :
      {A : Type 0} (b : Bool) (m n : Exec F A)
      → Preserves I m
      → Preserves I n
      → Preserves I (if b then m else n)
  Preserves-if true m n hm hn = hm
  Preserves-if false m n hm hn = hn

  pub if-Holds :
      {A : Type 0} (b : Bool) (m n : Exec F A) (s : Session F)
      → Holds I (m s).1
      → Holds I (n s).1
      → Holds I ((if b then m else n) s).1
  if-Holds true m n s hm hn = hm
  if-Holds false m n s hm hn = hn

  -- A session begins with what is committed, and what it has not committed is dropped.
  pub Preserves-in_session :
      {A : Type 0} (m : Exec F A) → Preserves I m → Preserves I (in_session m)
  Preserves-in_session m hm = record {
    at = λ s h.
        let begun : Session F = record s { working = s.committed } in
        let ended = hm.at begun (record { seen = h.stored; stored = h.stored }) in
        record { seen = ended.stored; stored = ended.stored };
  }

module _ {F : Type 0} {organization_id : ℕ} {I : Tables} {Owned : ℕ → Type 0}
    (stable : Stable organization_id I Owned) where
  pub Preserves-change :
      (key : ℕ) (f : Ticket → Ticket)
      → Owned key
      → ((t : Ticket) → (f t).id ≡ t.id)
      → ((t : Ticket) → (f t).organization_id ≡ t.organization_id)
      → Preserves {F = F} I (write λ db. record db { tickets = update key f db.tickets })
  Preserves-change key f own ids owners = record {
    at = λ s h. record { seen = stable.change _ _ key f own ids owners h.seen; stored = h.stored };
  }

  pub Preserves-add :
      (t : Ticket)
      → t.organization_id ≡ organization_id
      → Preserves {F = F} I (write λ db. record db { tickets = db.tickets ++ (t ∷ []) })
  Preserves-add t own = record {
    at = λ s h. record { seen = stable.add _ _ t own h.seen; stored = h.stored };
  }

  pub Preserves-note :
      (e : TicketEvent)
      → e.organization_id ≡ organization_id
      → Preserves {F = F} I (write λ db. record db { ticket_events = db.ticket_events ++ (e ∷ []) })
  Preserves-note e own = record {
    at = λ s h. record { seen = stable.note _ _ e own h.seen; stored = h.stored };
  }
