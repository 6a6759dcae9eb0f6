-- ===== src/Tickets/History/Trails.antt =====
-- What the events that came later say of a ticket: a trail of its state machine.
use agentdesk_ai.Base.{
  ℕ, ◌≡◌, ◌⊎◌, inl, inr, refl, Bool, true, false, ◌&&◌, Bool-cases, Option, none, some, List, [],
  ◌∷◌, ◌++◌, ◌==◌, if◌then◌else◌,
}
use agentdesk_ai.Models.Ticket.{Ticket, TicketStatus, status_eq, status_eq_iff, can_transition}
use agentdesk_ai.Models.Records.{TicketEvent}
use agentdesk_ai.Session.Rows.{get, get-key, ticket_row, All-get}
use agentdesk_ai.Tickets.Machine.{Trail, start, move}
use agentdesk_ai.Tickets.History.{
  Standing, absent, at, broken, advance, replay_from, replay, IsSound,
}

trail-trail : {a b c : TicketStatus} → Trail a b → Trail b c → Trail a c
trail-trail r start = r
trail-trail r (move q legal) = move (trail-trail r q) legal

both_true : (x y : Bool) → (x && y) ≡ true → (x ≡ true) × (y ≡ true)
both_true true true e = (refl, refl)
both_true true false e = cc
both_true false y e = cc

-- What one event does to a ticket that stands somewhere.
advance-cases :
    (a : TicketStatus) (f t : Option TicketStatus)
    → (advance (at a) f t ≡ broken) ⊎ ((c : TicketStatus) × (advance (at a) f t ≡ at c) × Trail a c)
advance-cases a f none = inr (a, refl, start)
advance-cases a none (some t) = inl refl
advance-cases a (some f) (some t) = elim (Bool-cases (status_eq a f && can_transition f t)) [
  | inr e ↦ inl (rw e refl)
  | inl e ↦
      let (same, legal) = both_true (status_eq a f) (can_transition f t) e in
      inr (t, rw e refl, move start (rw ((status_eq_iff a f).0 same) legal))
]

advance_broken : (f t : Option TicketStatus) → advance broken f t ≡ broken
advance_broken f none = refl
advance_broken none (some t) = refl
advance_broken (some f) (some t) = refl

if_same : {r x : Standing} (b : Bool) → x ≡ r → (if b then x else r) ≡ r
if_same true e = e
if_same false e = refl

broken-stays : (k : ℕ) (es : List TicketEvent) → replay_from k broken es ≡ broken
unfolding replay_from
broken-stays k [] = refl
broken-stays k (e ∷ es) =
    rw (if_same (e.ticket_id == k) (advance_broken e.from_status e.to_status)) (broken-stays k es)

replay_from-Trail :
    (k : ℕ) (a b : TicketStatus) (es : List TicketEvent)
    → replay_from k (at a) es ≡ at b
    → Trail a b
unfolding replay_from
replay_from-Trail k a b [] h = let same : a ≡ b = cc in rw same start
replay_from-Trail k a b (e ∷ es) h = elim (Bool-cases (e.ticket_id == k)) [
  | inr other ↦ replay_from-Trail k a b es (rw other at h)
  | inl own ↦ elim (advance-cases a e.from_status e.to_status) [
    | inl bad ↦ absurd (cc (broken-stays k es, rw (own, bad) at h))
    | inr (c, moved, trail) ↦ trail-trail trail (replay_from-Trail k c b es (rw (own, moved) at h))
  ]
]

replay_from-later :
    (k : ℕ) (r : Standing) (es more : List TicketEvent)
    → replay_from k r (es ++ more) ≡ replay_from k (replay_from k r es) more
unfolding replay_from
replay_from-later k r [] more = refl
replay_from-later k r (e ∷ es) more =
    replay_from-later k (if e.ticket_id == k then advance r e.from_status e.to_status else r) es
      more

stands_later :
    (k : ℕ) {a b : TicketStatus} (es evs more : List TicketEvent)
    → evs ≡ es ++ more
    → replay k es ≡ at a
    → replay k evs ≡ at b
    → replay_from k (at a) more ≡ at b
unfolding replay
stands_later k es evs more all began stands =
    cc (all, began, stands, replay_from-later k absent es more)

-- A ticket of the past is still there, with its organization, and its status has moved along a
-- trail of the state machine.
pub record Moved (t u : Ticket) : Type 0 where
  pub same_id : u.id ≡ t.id
  pub same_organization : u.organization_id ≡ t.organization_id
  pub trail : Trail t.status u.status

pub IsSound-Moved :
    {n m : ℕ} (tickets later : List Ticket) (events evs : List TicketEvent) (t : Ticket)
    → IsSound (record { tickets = tickets; events = events }) n tickets events
    → IsSound (record { tickets = tickets; events = events }) m later evs
    → get t.id tickets ≡ some t
    → (u : Ticket) × (get t.id later ≡ some u) × Moved t u
unfolding replay
IsSound-Moved tickets later events evs t before after found =
    let (u, there, owner) = after.kept t found in
    let same_key = get-key t.id later there in
    let began =
      All-get (λ x. replay x.id events ≡ at x.status) t.id tickets before.histories found in
    let stands = All-get (λ x. replay x.id evs ≡ at x.status) t.id later after.histories there in
    let (more, all) = after.grown in
    (
      u,
      there,
      record {
        same_id = same_key;
        same_organization = owner;
        trail =
            replay_from-Trail t.id t.status u.status more
              (stands_later t.id events evs more all began (rw same_key at stands));
      },
    )
