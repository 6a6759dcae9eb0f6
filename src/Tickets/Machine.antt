-- ===== src/Tickets/Machine.antt =====
-- What the table ALLOWED_TRANSITIONS permits, one move at a time and over trails of moves.
use agentdesk_ai.Base.{◌≡◌, ◌≢◌, ◌↔◌, ◌⊎◌, inl, inr, refl, true, false, arith}
use agentdesk_ai.Models.Ticket.{
  TicketStatus, new, triaged, draft_ready, waiting_approval, approved, rejected, escalated, closed,
  can_transition,
}

-- A status can be left for `closed` exactly if it is not `closed`, no move leaves `closed`, and no
-- move stays where it is.
closed_last :
    (s : TicketStatus)
    → ((can_transition s closed ≡ true) ↔ (s ≢ closed))
      × (can_transition closed s ≡ false)
      × (can_transition s s ≡ false)
unfolding can_transition
closed_last s = ground arith

-- One move leads to `approved`, and one to `rejected`, exactly from `waiting_approval`.
pub decided_from_waiting :
    (s : TicketStatus)
    → ((can_transition s approved ≡ true) ↔ (s ≡ waiting_approval))
      × ((can_transition s rejected ≡ true) ↔ (s ≡ waiting_approval))
unfolding can_transition
decided_from_waiting s = ground arith

-- Moves that the table allows, one after another.
pub data Trail (s : TicketStatus) : TicketStatus → Type 0 where
  start : Trail s s
  move : {t u : TicketStatus} → Trail s t → can_transition t u ≡ true → Trail s u

-- The trail stands at `v` at some moment.
abbrev pub Visits : (v : TicketStatus) {s t : TicketStatus} → Trail s t → Type 0
Visits v {s} start = s ≡ v
Visits v (move {u = u} r e) = (u ≡ v) ⊎ Visits v r

Visits-end : {s t v : TicketStatus} (r : Trail s t) → t ≡ v → Visits v r
Visits-end start e = e
Visits-end (move r m) e = inl e

-- A trail that ends in `approved` and does not begin there has waited for an approval on the way.
pub approved_after_waiting :
    {s t : TicketStatus} (r : Trail s t) → s ≢ approved → t ≡ approved → Visits waiting_approval r
approved_after_waiting start ne e = absurd (ne e)
approved_after_waiting (move {t = t} r m) ne e =
    inr (Visits-end r ((decided_from_waiting t).0.0 (rw e at m)))

-- Every status is reached from `new`, and `closed` is reached from every status.
pub all_reached : (t : TicketStatus) → Trail new t × Trail t closed
unfolding can_transition
all_reached new = (start, move start refl)
all_reached triaged = (move start refl, move start refl)
all_reached draft_ready = (move {t = triaged} (move start refl) refl, move start refl)
all_reached waiting_approval = (move start refl, move start refl)
all_reached approved = (move {t = waiting_approval} (move start refl) refl, move start refl)
all_reached rejected = (move {t = waiting_approval} (move start refl) refl, move start refl)
all_reached escalated = (move start refl, move start refl)
all_reached closed = (move start refl, start)
