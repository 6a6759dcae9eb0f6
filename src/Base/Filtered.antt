-- ===== src/Base/Filtered.antt =====
-- Sorting, selecting and cutting off: what may come first.
use mathlib.Core.Path.{◌≡◌, refl, sym, ap, ◌∙◌}
use mathlib.Core.Logic.{inl, inr}
use mathlib.Core.Bool.{Bool, true, false}
use mathlib.Core.List.{List, [], ◌∷◌}
use Prim.Native.Nat.{ℕ, zero, suc}
use agentdesk_ai.Base.Tests.{Bool-cases}
use agentdesk_ai.Base.Lists.{All, select, take}
use agentdesk_ai.Base.Order.{place, order_by, order_by-IsOrdered, IsOrdered}

module _ {A : Type 0} (p : A → Bool) where
  select-none : (xs : List A) → All (λ x. p x ≡ false) xs → select p xs ≡ []
  select-none [] h = refl
  select-none (x ∷ xs) h = rw (h.0) (select-none xs h.1)

  take-nil : (n : ℕ) → take {A = A} n [] ≡ []
  take-nil zero = refl
  take-nil (suc n) = refl

  -- If a row that fails the test has only such rows behind it, the cut may come first.
  abbrev pub IsDownward : List A → Type 0
  IsDownward [] = Unit
  IsDownward (x ∷ xs) = (p x ≡ false → All (λ y. p y ≡ false) xs) × IsDownward xs

  pub select-take :
      (n : ℕ) (xs : List A) → IsDownward xs → select p (take n xs) ≡ take n (select p xs)
  select-take zero xs h = refl
  select-take (suc n) [] h = refl
  select-take (suc n) (x ∷ xs) h = elim (Bool-cases (p x)) [
    | inl e ↦ rw (e, select-take n xs h.1) refl
    | inr e ↦ rw (e, select-take n xs h.1, select-none xs (h.0 e), take-nil n) refl
  ]

module _ {A : Type 0} (before : A → A → Bool)
    (trans : (x y z : A) → before x y ≡ true → before y z ≡ true → before x z ≡ true)
    (total : (x y : A) → before x y ≡ false → before y x ≡ true) where
  -- Behind a row that stands in front of all of `ys`, it is placed in front of the selected ones.
  place_first :
      (p : A → Bool) (x : A) (ys : List A)
      → All (λ y. before x y ≡ true) ys
      → place before x (select p ys) ≡ x ∷ select p ys
  unfolding place
  place_first p x [] h = refl
  place_first p x (y ∷ ys) h = elim (Bool-cases (p y)) [
    | inl e ↦ rw (e, h.0) refl
    | inr e ↦ rw e (place_first p x ys h.1)
  ]

  select-place_in :
      (p : A → Bool) (x : A) (ys : List A)
      → p x ≡ true
      → IsOrdered before ys
      → select p (place before x ys) ≡ place before x (select p ys)
  unfolding place
  select-place_in p x [] e h = rw e refl
  select-place_in p x (y ∷ ys) e h = elim (Bool-cases (before x y)) [
    | inl first ↦
        rw (first, e) (sym (place_first p x (y ∷ ys) (first, all_behind x y ys first h.0)))
    | inr later ↦ elim (Bool-cases (p y)) [
      | inl f ↦ rw (later, f, later, select-place_in p x ys e h.1) refl
      | inr f ↦ rw (later, f, select-place_in p x ys e h.1) refl
    ]
  ]
    where
      all_behind :
          (x y : A) (zs : List A)
          → before x y ≡ true
          → All (λ z. before y z ≡ true) zs
          → All (λ z. before x z ≡ true) zs
      all_behind x y [] e h = tt
      all_behind x y (z ∷ zs) e h = (trans x y z e h.0, all_behind x y zs e h.1)

  select-place_out :
      (p : A → Bool) (x : A) (ys : List A)
      → p x ≡ false
      → select p (place before x ys) ≡ select p ys
  unfolding place
  select-place_out p x [] e = rw e refl
  select-place_out p x (y ∷ ys) e = elim (Bool-cases (before x y)) [
    | inl first ↦ rw (first, e) refl
    | inr later ↦ rw (later, select-place_out p x ys e) refl
  ]

  -- Rows may be selected before the sort.
  pub select-order_by :
      (p : A → Bool) (xs : List A) → select p (order_by before xs) ≡ order_by before (select p xs)
  unfolding order_by
  select-order_by p [] = refl
  select-order_by p (x ∷ xs) = elim (Bool-cases (p x)) [
    | inl e ↦ rw e (
        select-place_in p x (order_by before xs) e (order_by-IsOrdered before trans total xs)
        ∙ ap (place before x) (select-order_by p xs))
    | inr e ↦ rw e (select-place_out p x (order_by before xs) e ∙ select-order_by p xs)
  ]
