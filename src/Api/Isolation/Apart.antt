-- ===== src/Api/Isolation/Apart.antt =====
-- The tickets and events of the other organizations, as a predicate of the tables.
use agentdesk_ai.Base.{
  ℕ, ◌≡◌, ◌≢◌, ◌↔◌, refl, ◌∙◌, Bool, not, Bool-cases, inl, inr, some, List, [], ◌∷◌, ◌++◌, ◌==◌,
  ==_iff, arith, select,
}
use agentdesk_ai.Models.Ticket.{Ticket}
use agentdesk_ai.Models.Records.{TicketEvent}
use agentdesk_ai.Session.Rows.{
  get, update, get-update_self, get-update_ne, get-append_old, ticket_row,
}
use agentdesk_ai.Tickets.Stable.{Stable}

abbrev pub is_foreign : ℕ → TicketEvent → Bool
is_foreign organization_id e = not (e.organization_id == organization_id)

-- By key, the tickets of the other organizations are the same as in the past, none more and none
-- fewer, and so are their events, in their order.
pub record IsApart (organization_id : ℕ) (past : List Ticket) (past_events : List TicketEvent)
    (ts : List Ticket) (es : List TicketEvent) : Type 0 where
  pub rows :
      (key : ℕ) (t : Ticket)
      → t.organization_id ≢ organization_id
      → (get key past ≡ some t) ↔ (get key ts ≡ some t)
  pub events :
      select (is_foreign organization_id) es ≡ select (is_foreign organization_id) past_events

-- No other organization had a ticket with the key.
abbrev pub IsOwn : ℕ → List Ticket → ℕ → Type 0
IsOwn organization_id past key =
    (t : Ticket) → get key past ≡ some t → t.organization_id ≡ organization_id

module _ (organization_id : ℕ) where
  same_org :
      (t : Ticket)
      → (t.organization_id ≢ organization_id → t.organization_id ≡ organization_id)
      → t.organization_id ≡ organization_id
  same_org t h = elim (Bool-cases (t.organization_id == organization_id)) [
    | inl e ↦ (==_iff _ _).0 e
    | inr e ↦ h (λ p. ground (arith, p))
  ]

  select-note :
      (es : List TicketEvent) (e : TicketEvent)
      → e.organization_id ≡ organization_id
      → select (is_foreign organization_id) (es ++ (e ∷ []))
        ≡ select (is_foreign organization_id) es
  select-note [] e own = ground arith
  select-note (x ∷ xs) e own = ground (arith, select-note xs e own)

  get-append_own :
      (key : ℕ) (ts : List Ticket) (x t : Ticket)
      → x.organization_id ≡ organization_id
      → t.organization_id ≢ organization_id
      → get key (ts ++ (x ∷ [])) ≡ some t
      → get key ts ≡ some t
  get-append_own key [] x t own other e = elim (Bool-cases (x.id == key)) [
    | inl p ↦ absurd (other (cc (rw p at e)))
    | inr p ↦ cc (rw p at e)
  ]
  get-append_own key (y ∷ ys) x t own other e = elim (Bool-cases (y.id == key)) [
    | inl p ↦ rw p (rw p at e)
    | inr p ↦ rw p (get-append_own key ys x t own other (rw p at e))
  ]

  get-update_back :
      (key : ℕ) (f : Ticket → Ticket) (ts : List Ticket) (t : Ticket)
      → ((x : Ticket) → (f x).id ≡ x.id)
      → get key (update key f ts) ≡ some t
      → (x : Ticket) × (get key ts ≡ some x) × (t ≡ f x)
  get-update_back key f [] t ids e = cc
  get-update_back key f (y ∷ ys) t ids e = elim (Bool-cases (y.id == key)) [
    | inl p ↦
        let there : get key (y ∷ ys) ≡ some y = rw p refl in
        let same : t ≡ f y = cc (e, get-update_self key f (y ∷ ys) ids there) in (y, there, same)
    | inr p ↦
        let kept : get key (y ∷ update key f ys) ≡ some t = rw p at e in
        let (x, found, same) = get-update_back key f ys t ids (rw p at kept) in
        (x, rw p found, same)
  ]

module _ (organization_id : ℕ) (past : List Ticket) (past_events : List TicketEvent) where
  pub IsApart-Stable :
      Stable organization_id (IsApart organization_id past past_events) (IsOwn organization_id past)
  IsApart-Stable = record {
    load = λ ts es key t h found own u before.
        same_org organization_id u (λ other. cc ((h.rows key u other).0 before));
    change = λ ts es key f own ids owners h. record {
      rows = λ k t other. elim (Bool-cases (k == key)) [
        | inl p ↦
            let e : k ≡ key = (==_iff k key).0 p in
            rw e (
              λ before. absurd (other (own t before)),
              λ after.
                  let (x, found, same) = get-update_back organization_id key f ts t ids after in
                  let owner : t.organization_id ≡ x.organization_id = cc (owners x, same) in
                  let foreign : x.organization_id ≢ organization_id = λ q. other (owner ∙ q) in
                  absurd (foreign (own x ((h.rows key x foreign).1 found))),
            )
        | inr p ↦
            let ne : k ≢ key = λ q. ground (arith, q) in
            rw (get-update_ne k key f ts ids ne) (h.rows k t other)
      ];
      events = h.events;
    };
    add = λ ts es t own h. record {
      rows = λ k u other. (
        λ e. get-append_old k ts t ((h.rows k u other).0 e),
        λ e. (h.rows k u other).1 (get-append_own organization_id k ts t u own other e),
      );
      events = h.events;
    };
    note = λ ts es e own h. record {
      rows = h.rows;
      events = select-note organization_id es e own ∙ h.events;
    };
  }

  pub IsApart-refl : IsApart organization_id past past_events past past_events
  IsApart-refl = record { rows = λ k t other. (λ e. e, λ e. e); events = refl }
