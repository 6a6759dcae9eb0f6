-- ===== src/Tickets/History/Steps.antt =====
-- What each change of the tables does to the invariant.
use mathlib.Core.List.{append_assoc}
use agentdesk_ai.Base.{
  ℕ, refl, Bool-cases, inl, inr, ◌==◌, ==_iff, ◌∙◌, suc, ◌<◌, ◌≤◌, ◌≡◌, true, none, some, List, [],
  ◌∷◌, ◌++◌, arith, All, All-append, All-weaken, All-both,
}
use agentdesk_ai.Models.Ticket.{Ticket, TicketStatus, new, can_transition}
use agentdesk_ai.Models.Records.{TicketEvent}
use agentdesk_ai.Session.Rows.{
  get, get-update_self, get-update_ne, get-append_old, update, ticket_row, All-update,
}
use agentdesk_ai.Tickets.History.{
  Past, Stays, at, replay, replay-append, replay-absent, HasFinal, IsSound,
}

pub get-update :
    (j k : ℕ) (f : Ticket → Ticket) (ts : List Ticket) (u : Ticket)
    → ((t : Ticket) → (f t).id ≡ t.id)
    → ((t : Ticket) → (f t).organization_id ≡ t.organization_id)
    → get j ts ≡ some u
    → (v : Ticket) × (get j (update k f ts) ≡ some v) × (v.organization_id ≡ u.organization_id)
get-update j k f ts u ids owners found = elim (Bool-cases (j == k)) [
  | inl e ↦
      let p = (==_iff j k).0 e in (f u, rw p (get-update_self k f ts ids (rw p at found)), owners u)
  | inr e ↦ (u, get-update_ne j k f ts ids (λ p. ground (arith, p)) ∙ found, refl)
]

module _ {past : Past} {n : ℕ} (ts : List Ticket) (es : List TicketEvent)
    (h : IsSound past n ts es) where
  grown-append :
      (e : TicketEvent) → (more : List TicketEvent) × (es ++ (e ∷ []) ≡ past.events ++ more)
  grown-append e =
      (h.grown.0 ++ (e ∷ []), rw h.grown.1 (append_assoc past.events h.grown.0 (e ∷ [])))

  Stays-append : (x t : Ticket) → get t.id past.tickets ≡ some t → Stays t (ts ++ (x ∷ []))
  Stays-append x t e =
      let (u, found, owner) = h.kept t e in (u, get-append_old t.id ts x found, owner)

  Stays-update :
      (k : ℕ) (f : Ticket → Ticket)
      → ((t : Ticket) → (f t).id ≡ t.id)
      → ((t : Ticket) → (f t).organization_id ≡ t.organization_id)
      → (t : Ticket) → get t.id past.tickets ≡ some t
      → Stays t (update k f ts)
  Stays-update k f ids owners t e =
      let (u, found, owner) = h.kept t e in
      let (v, there, same) = get-update t.id k f ts u ids owners found in (v, there, same ∙ owner)

  pub IsSound-later : (m : ℕ) → n ≤ m → IsSound past m ts es
  IsSound-later m le = record {
    ticket_keys = All-weaken (λ t. t.id < n) (λ t. t.id < m) ts (λ t p. omega arith) h.ticket_keys;
    event_keys =
        All-weaken (λ e. e.ticket_id < n) (λ e. e.ticket_id < m) es (λ e p. omega arith)
          h.event_keys;
    histories = h.histories;
    finals = h.finals;
    kept = h.kept;
    grown = h.grown;
  }

  -- An UPDATE of columns other than the status.
  pub IsSound-update :
      (k : ℕ) (f : Ticket → Ticket)
      → ((t : Ticket) → (f t).id ≡ t.id)
      → ((t : Ticket) → (f t).organization_id ≡ t.organization_id)
      → ((t : Ticket) → (f t).status ≡ t.status)
      → ((t : Ticket) → HasFinal t → HasFinal (f t))
      → IsSound past n (update k f ts) es
  IsSound-update k f same_id same_owner same_status final = record {
    ticket_keys =
        All-update (λ t. t.id < n) (λ t. t.id < n) k f ts (λ t e p. rw (same_id t) p) (λ t e p. p)
          h.ticket_keys;
    event_keys = h.event_keys;
    histories =
        All-update (λ t. replay t.id es ≡ at t.status) (λ t. replay t.id es ≡ at t.status) k f ts
          (λ t e p. rw (same_id t, same_status t) p) (λ t e p. p) h.histories;
    finals = All-update HasFinal HasFinal k f ts (λ t e p. final t p) (λ t e p. p) h.finals;
    kept = Stays-update k f same_id same_owner;
    grown = h.grown;
  }

  -- An event that states no new status.
  pub IsSound-note :
      (e : TicketEvent) → e.ticket_id < n → e.to_status ≡ none → IsSound past n ts (es ++ (e ∷ []))
  IsSound-note e known quiet = record {
    ticket_keys = h.ticket_keys;
    event_keys = All-append (λ x. x.ticket_id < n) es (e ∷ []) h.event_keys (known, tt);
    histories =
        All-weaken (λ t. replay t.id es ≡ at t.status)
          (λ t. replay t.id (es ++ (e ∷ [])) ≡ at t.status) ts
          (λ t p. ground (arith, replay-append t.id es e)) h.histories;
    finals = h.finals;
    kept = h.kept;
    grown = grown-append e;
  }

  -- A legal move of the ticket `k`, with its event.
  pub IsSound-move :
      (k : ℕ) (f : Ticket → Ticket) (e : TicketEvent) (from_status to_status : TicketStatus)
      → k < n
      → replay k es ≡ at from_status
      → can_transition from_status to_status ≡ true
      → e.ticket_id ≡ k
      → e.from_status ≡ some from_status
      → e.to_status ≡ some to_status
      → ((t : Ticket) → (f t).id ≡ t.id)
      → ((t : Ticket) → (f t).organization_id ≡ t.organization_id)
      → ((t : Ticket) → (f t).status ≡ to_status)
      → All (λ t. t.id ≡ k → HasFinal (f t)) ts
      → IsSound past n (update k f ts) (es ++ (e ∷ []))
  IsSound-move k f e from_status to_status known stands legal key left entered ids owners moved
        final =
      record {
        ticket_keys =
            All-update (λ t. t.id < n) (λ t. t.id < n) k f ts (λ t p q. rw (ids t) q) (λ t p q. q)
              h.ticket_keys;
        event_keys = All-append (λ x. x.ticket_id < n) es (e ∷ []) h.event_keys (rw key known, tt);
        histories =
            All-update (λ t. replay t.id es ≡ at t.status)
              (λ t. replay t.id (es ++ (e ∷ [])) ≡ at t.status) k f ts
              (λ t p q. ground (arith, replay-append (f t).id es e, ids t, moved t))
              (λ t p q. ground (arith, replay-append t.id es e)) h.histories;
        finals =
            All-update (λ t. HasFinal t × (t.id ≡ k → HasFinal (f t))) HasFinal k f ts
              (λ t p q. q.1 p) (λ t p q. q.0)
              (All-both HasFinal (λ t. t.id ≡ k → HasFinal (f t)) ts h.finals final);
        kept = Stays-update k f ids owners;
        grown = grown-append e;
      }

  -- A new ticket, with its event.
  pub IsSound-create :
      (t : Ticket) (e : TicketEvent)
      → t.id ≡ n
      → t.status ≡ new
      → e.ticket_id ≡ n
      → e.from_status ≡ none
      → e.to_status ≡ some new
      → IsSound past (suc n) (ts ++ (t ∷ [])) (es ++ (e ∷ []))
  IsSound-create t e key fresh of_ticket left entered = record {
    ticket_keys =
        All-append (λ x. x.id < suc n) ts (t ∷ [])
          (All-weaken (λ x. x.id < n) (λ x. x.id < suc n) ts (λ x p. omega arith) h.ticket_keys)
          (omega arith, tt);
    event_keys =
        All-append (λ x. x.ticket_id < suc n) es (e ∷ [])
          (All-weaken (λ x. x.ticket_id < n) (λ x. x.ticket_id < suc n) es (λ x p. omega arith)
            h.event_keys)
          (omega arith, tt);
    histories =
        All-append (λ x. replay x.id (es ++ (e ∷ [])) ≡ at x.status) ts (t ∷ [])
          (old_histories ts h.ticket_keys h.histories)
          (ground (arith, replay-append t.id es e, replay-absent n es h.event_keys), tt);
    finals = All-append HasFinal ts (t ∷ []) h.finals ((λ p. ground arith), tt);
    kept = Stays-append t;
    grown = grown-append e;
  }
    where
      old_histories :
          (xs : List Ticket)
          → All (λ x. x.id < n) xs
          → All (λ x. replay x.id es ≡ at x.status) xs
          → All (λ x. replay x.id (es ++ (e ∷ [])) ≡ at x.status) xs
      old_histories [] a b = tt
      old_histories (x ∷ xs) a b =
          (ground (arith, replay-append x.id es e), old_histories xs a.1 b.1)
