-- ===== src/Metrics/Counts.antt =====
-- The counts of `tickets_by_status` and `total_tickets` in services/metrics_service.py.
use mathlib.Core.Path.{subst}
use agentdesk_ai.Base.{
  Option, none, some, or_default, String, str_eq, eq_iff, ◌∙◌, ℕ, suc, ◌+◌, ◌≡◌, refl, sym, ap,
  true, false, Bool-cases, inl, inr, List, [], ◌∷◌, map, length, select, ◌==◌, if◌then◌else◌, arith,
}
use agentdesk_ai.Models.Ticket.{
  Ticket, TicketStatus, new, triaged, draft_ready, waiting_approval, approved, rejected, escalated,
  closed, status_eq, status_eq_iff, status_value,
}
use agentdesk_ai.Session.{Db, Env}
use agentdesk_ai.Metrics.{add_to_group, group_by_status, metrics_of}

-- What the groups count together.
unfoldable pub sum_counts : {A : Type 0} → List (A × ℕ) → ℕ
sum_counts [] = 0
sum_counts (g ∷ gs) = g.1 + sum_counts gs

sum_counts-add_to_group :
    (s : TicketStatus) (gs : List (TicketStatus × ℕ))
    → sum_counts (add_to_group s gs) ≡ suc (sum_counts gs)
unfolding sum_counts add_to_group
sum_counts-add_to_group s [] = omega arith
sum_counts-add_to_group s ((t, n) ∷ gs) = ground (arith, sum_counts-add_to_group s gs)

sum_counts-group_by_status : (ts : List Ticket) → sum_counts (group_by_status ts) ≡ length ts
unfolding sum_counts group_by_status
sum_counts-group_by_status [] = refl
sum_counts-group_by_status (t ∷ ts) =
    omega
      (arith, sum_counts-add_to_group t.status (group_by_status ts), sum_counts-group_by_status ts)

sum_counts-map :
    {A B : Type 0} (f : A → B) (gs : List (A × ℕ))
    → sum_counts (map (λ g. (f g.0, g.1)) gs) ≡ sum_counts gs
unfolding sum_counts
sum_counts-map f [] = refl
sum_counts-map f (g ∷ gs) = omega (arith, sum_counts-map f gs)

-- `tickets_by_status.get(key)`
unfoldable pub count_for : String → List (String × ℕ) → Option ℕ
count_for key [] = none
count_for key ((k, n) ∷ entries) = if str_eq k key then some n else count_for key entries

-- A status is read back from its text.
parse_status : String → Option TicketStatus
parse_status v =
    if str_eq v "new"
    then some new
    else if str_eq v "triaged"
    then some triaged
    else if str_eq v "draft_ready"
    then some draft_ready
    else if str_eq v "waiting_approval"
    then some waiting_approval
    else if str_eq v "approved"
    then some approved
    else if str_eq v "rejected"
    then some rejected
    else if str_eq v "escalated"
    then some escalated
    else if str_eq v "closed"
    then some closed
    else none

parse_status-status_value : (s : TicketStatus) → parse_status (status_value s) ≡ some s
unfolding parse_status status_value
parse_status-status_value new = refl
parse_status-status_value triaged = refl
parse_status-status_value draft_ready = refl
parse_status-status_value waiting_approval = refl
parse_status-status_value approved = refl
parse_status-status_value rejected = refl
parse_status-status_value escalated = refl
parse_status-status_value closed = refl

same_value : (s t : TicketStatus) → str_eq (status_value s) (status_value t) ≡ status_eq s t
same_value s t = elim (Bool-cases (status_eq s t)) [
  | inl e ↦
      let p = (status_eq_iff s t).0 e in
      (eq_iff (status_value s) (status_value t)).1 (ap status_value p) ∙ sym e
  | inr e ↦ elim (Bool-cases (str_eq (status_value s) (status_value t))) [
    | inr f ↦ f ∙ sym e
    | inl f ↦
        let p = ap parse_status ((eq_iff (status_value s) (status_value t)).0 f) in
        let q : s ≡ t = cc (parse_status-status_value s, parse_status-status_value t) in
        absurd (cc ((status_eq_iff s t).1 q))
  ]
]

count_group : TicketStatus → List (TicketStatus × ℕ) → Option ℕ
count_group q [] = none
count_group q ((s, n) ∷ gs) = if status_eq s q then some n else count_group q gs

count_for-map :
    (q : TicketStatus) (gs : List (TicketStatus × ℕ))
    → count_for (status_value q) (map (λ g. (status_value g.0, g.1)) gs) ≡ count_group q gs
unfolding count_for count_group
count_for-map q [] = refl
count_for-map q ((s, n) ∷ gs) = rw (same_value s q, count_for-map q gs) refl

-- How many tickets have the status, if any has.
abbrev pub number_of : TicketStatus → List Ticket → ℕ
number_of q ts = length (select (λ t. status_eq t.status q) ts)

abbrev pub if_any : ℕ → Option ℕ
if_any n = if n == 0 then none else some n

other_group :
    (q s t : TicketStatus) → status_eq t s ≡ false → status_eq t q ≡ true → status_eq s q ≡ false
other_group q s t e f = elim (Bool-cases (status_eq s q)) [
  | inr g ↦ g
  | inl g ↦
      absurd (cc ((status_eq_iff t s).1 (cc ((status_eq_iff t q).0 f, (status_eq_iff s q).0 g))))
]

count_group-add_to_group :
    (q s : TicketStatus) (gs : List (TicketStatus × ℕ))
    → count_group q (add_to_group s gs)
      ≡ (if status_eq s q then some (suc (or_default (count_group q gs) 0)) else count_group q gs)
unfolding count_group add_to_group
count_group-add_to_group q s [] = refl
count_group-add_to_group q s ((t, n) ∷ gs) = elim (Bool-cases (status_eq t s)) [
  | inl e ↦
      let p = (status_eq_iff t s).0 e in
      subst
        (λ u.
          count_group q (if status_eq t u then (t, suc n) ∷ gs else (t, n) ∷ add_to_group u gs) ≡ (
            if status_eq u q
            then some (suc (or_default (if status_eq t q then some n else count_group q gs) 0))
            else if status_eq t q
            then some n
            else count_group q gs))
        p
        (rw ((status_eq_iff t t).1 refl)
          (elim (Bool-cases (status_eq t q)) [ inl f ↦ rw f refl | inr f ↦ rw f refl ]))
  | inr e ↦ rw e (elim (Bool-cases (status_eq t q)) [
    | inl f ↦ rw (f, other_group q s t e f) refl
    | inr f ↦ rw f (count_group-add_to_group q s gs)
  ])
]

counted : (n : ℕ) → some (suc (or_default (if_any n) 0)) ≡ if_any (suc n)
counted n = ground arith

count_group-group_by_status :
    (q : TicketStatus) (ts : List Ticket)
    → count_group q (group_by_status ts) ≡ if_any (number_of q ts)
unfolding count_group group_by_status
count_group-group_by_status q [] = refl
count_group-group_by_status q (t ∷ ts) =
    rw (count_group-add_to_group q t.status (group_by_status ts), count_group-group_by_status q ts)
      (elim (Bool-cases (status_eq t.status q)) [
        | inl e ↦ rw e (counted (number_of q ts))
        | inr e ↦ rw e refl
      ])

module _ {F : Type 0} (env : Env F) (organization_id : ℕ) (db : Db F) where
  abbrev pub own_tickets : List Ticket
  own_tickets = select (λ t. t.organization_id == organization_id) db.tickets

  -- The groups of the metrics count every ticket of the organization once: their counts add up to
  -- `total_tickets`, the entry of a status counts the tickets of the organization with that status,
  -- and a status that none of them has is no entry.
  pub tickets_by_status-counts :
      (sum_counts (metrics_of env organization_id db).tickets_by_status
        ≡ (metrics_of env organization_id db).total_tickets)
      × ((q : TicketStatus)
          → count_for (status_value q) (metrics_of env organization_id db).tickets_by_status
            ≡ if_any (number_of q own_tickets))
  unfolding metrics_of
  tickets_by_status-counts = (
    sum_counts-map status_value (group_by_status own_tickets)
        ∙ sum_counts-group_by_status own_tickets,
    λ q. count_for-map q (group_by_status own_tickets) ∙ count_group-group_by_status q own_tickets,
  )
