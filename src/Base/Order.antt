-- ===== src/Base/Order.antt =====
-- `ORDER BY` a number: a stable sort, so equal keys keep the order of insertion.
use Prim.Native.Nat.{ℕ}
use mathlib.Core.Path.{◌≡◌}
use mathlib.Core.Logic.{inl, inr}
use mathlib.Core.Bool.{Bool, true, false}
use mathlib.Core.List.{List, [], ◌∷◌}
use native.Mathlib.Omega.{arith}
use agentdesk_ai.Base.Tests.{leb, if◌then◌else◌, Bool-cases}
use agentdesk_ai.Base.Lists.{All}
use mathlib.Core.List.{Perm}
use mathlib.Core.List.Perm

module _ {A : Type 0} (before : A → A → Bool) where
  unfoldable pub place : A → List A → List A
  place x [] = x ∷ []
  place x (y ∷ ys) = let later = place x ys in if before x y then x ∷ y ∷ ys else y ∷ later

  unfoldable pub order_by : List A → List A
  unfolding place
  order_by [] = []
  order_by (x ∷ xs) = place x (order_by xs)

  place-perm : (x : A) (ys : List A) → Perm (place x ys) (x ∷ ys)
  unfolding place
  place-perm x [] = Perm.refl (x ∷ [])
  place-perm x (y ∷ ys) = elim (Bool-cases (before x y)) [
    | inl e ↦ rw e (Perm.refl (x ∷ y ∷ ys))
    | inr e ↦ rw e (Perm.trans (Perm.cons y (place-perm x ys)) (Perm.swap x y ys))
  ]

  pub order_by-perm : (xs : List A) → Perm (order_by xs) xs
  unfolding order_by
  order_by-perm [] = Perm.refl []
  order_by-perm (x ∷ xs) = Perm.trans (place-perm x (order_by xs)) (Perm.cons x (order_by-perm xs))

  -- In the order: nothing that stands behind a row is strictly before it.
  abbrev pub IsOrdered : List A → Type 0
  IsOrdered [] = Unit
  IsOrdered (x ∷ xs) = All (λ y. before x y ≡ true) xs × IsOrdered xs

module _ {A : Type 0} (before : A → A → Bool) where
  pub All-place :
      (P : A → Type 0) (x : A) (ys : List A) → P x → All P ys → All P (place before x ys)
  unfolding place
  All-place P x [] p h = (p, tt)
  All-place P x (y ∷ ys) p h = elim (Bool-cases (before x y)) [
    | inl e ↦ rw e (p, h)
    | inr e ↦ rw e (h.0, All-place P x ys p h.1)
  ]

  pub All-order_by : (P : A → Type 0) (xs : List A) → All P xs → All P (order_by before xs)
  unfolding order_by
  All-order_by P [] h = tt
  All-order_by P (x ∷ xs) h = All-place P x (order_by before xs) h.0 (All-order_by P xs h.1)

  module _ (trans : (x y z : A) → before x y ≡ true → before y z ≡ true → before x z ≡ true)
      (total : (x y : A) → before x y ≡ false → before y x ≡ true) where
    All-weaken :
        (x y : A) (ys : List A)
        → before x y ≡ true
        → All (λ z. before y z ≡ true) ys
        → All (λ z. before x z ≡ true) ys
    All-weaken x y [] e h = tt
    All-weaken x y (z ∷ ys) e h = (trans x y z e h.0, All-weaken x y ys e h.1)

    place-IsOrdered :
        (x : A) (ys : List A) → IsOrdered before ys → IsOrdered before (place before x ys)
    unfolding place
    place-IsOrdered x [] h = (tt, tt)
    place-IsOrdered x (y ∷ ys) h = elim (Bool-cases (before x y)) [
      | inl e ↦ rw e ((e, All-weaken x y ys e h.0), h)
      | inr e ↦
          rw e (All-place (λ z. before y z ≡ true) x ys (total x y e) h.0, place-IsOrdered x ys h.1)
    ]

    -- A sort by a transitive and total order gives an ordered list.
    pub order_by-IsOrdered : (xs : List A) → IsOrdered before (order_by before xs)
    unfolding order_by
    order_by-IsOrdered [] = tt
    order_by-IsOrdered (x ∷ xs) = place-IsOrdered x (order_by before xs) (order_by-IsOrdered xs)

module _ {A : Type 0} (key : A → ℕ) where
  abbrev pub asc : A → A → Bool
  asc x y = leb (key x) (key y)

  abbrev pub desc : A → A → Bool
  desc x y = leb (key y) (key x)

  unfoldable pub order_by_asc : List A → List A
  unfolding order_by
  order_by_asc = order_by asc

  unfoldable pub order_by_desc : List A → List A
  unfolding order_by
  order_by_desc = order_by desc

  pub order_by_desc-perm : (xs : List A) → Perm (order_by_desc xs) xs
  unfolding order_by_desc
  order_by_desc-perm = order_by-perm desc

  pub order_by_desc-IsOrdered : (xs : List A) → IsOrdered desc (order_by_desc xs)
  unfolding order_by_desc
  order_by_desc-IsOrdered =
      order_by-IsOrdered desc (λ x y z e f. ground arith) (λ x y e. ground arith)

  pub All-order_by_desc : (P : A → Type 0) (xs : List A) → All P xs → All P (order_by_desc xs)
  unfolding order_by_desc
  All-order_by_desc P xs h = All-order_by desc P xs h
