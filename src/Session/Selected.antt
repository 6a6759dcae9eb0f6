-- ===== src/Session/Selected.antt =====
-- Rows by key among selected rows.
use agentdesk_ai.Base.{
  ℕ, ◌≡◌, refl, ◌≢◌, Bool, true, Option, inl, inr, none, some, List, [], ◌∷◌, arith, ◌==◌,
  if◌then◌else◌, Bool-cases, All, select, ==_iff,
}
use agentdesk_ai.Session.Rows.{Row, get}

-- The row, if it passes the test
abbrev pub keep : {R : Type 0} → (R → Bool) → Option R → Option R
keep p none = none
keep p (some x) = if p x then some x else none

module _ {R : Type 0} ⦃r : Row R⦄ where
  -- No key is given twice.
  abbrev pub HasKeys : List R → Type 0
  HasKeys [] = Unit
  HasKeys (x ∷ xs) = All (λ y. r.key y ≢ r.key x) xs × HasKeys xs

  get-select-absent :
      (p : R → Bool) (k : ℕ) (t : List R) → All (λ y. r.key y ≢ k) t → get k (select p t) ≡ none
  get-select-absent p k [] h = refl
  get-select-absent p k (x ∷ xs) h = elim (Bool-cases (p x)) [
    | inl e ↦ rw e (ground (arith, h.0, get-select-absent p k xs h.1))
    | inr e ↦ rw e (get-select-absent p k xs h.1)
  ]

  pub get-select :
      (p : R → Bool) (k : ℕ) (t : List R) → HasKeys t → get k (select p t) ≡ keep p (get k t)
  get-select p k [] h = refl
  get-select p k (x ∷ xs) h = elim (Bool-cases (r.key x == k)) [
    | inl e ↦ elim (Bool-cases (p x)) [
      | inl f ↦ rw (f, e, f) refl
      | inr f ↦ rw (e, f) (get-select-absent p k xs (rw ((==_iff _ _).0 e) at h.0))
    ]
    | inr e ↦ elim (Bool-cases (p x)) [
      | inl f ↦ rw (f, e) (get-select p k xs h.1)
      | inr f ↦ rw (e, f) (get-select p k xs h.1)
    ]
  ]

  -- A row that passes the test is found among the selected ones.
  pub get-select_own :
      (p : R → Bool) (k : ℕ) (t : List R) {x : R}
      → get k t ≡ some x
      → p x ≡ true
      → get k (select p t) ≡ some x
  get-select_own p k [] e h = cc
  get-select_own p k (y ∷ ys) {x} e h = ground (arith, get-select_own p k ys {x = x})
