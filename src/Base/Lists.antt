-- ===== src/Base/Lists.antt =====
-- Lists measured by native numbers, rows selected by a test, and a predicate on every row.
use Prim.Native.Nat.{ℕ, zero, suc, ◌+◌, ◌≤◌}
use mathlib.Core.Path.{◌≡◌, refl}
use mathlib.Core.Logic.{inl, inr}
use mathlib.Core.Bool.{Bool, true}
use mathlib.Core.Option.{Option, none, some}
use mathlib.Core.List.{List, [], ◌∷◌, ◌++◌, map}
use native.Mathlib.Omega.{arith}
use agentdesk_ai.Base.Tests.{if◌then◌else◌, Bool-cases}

module _ {ℓ} {A : Type ℓ} where
  abbrev pub length : List A → ℕ
  length [] = 0
  length (x ∷ xs) = suc (length xs)

  -- The rows that pass a test, in order.
  abbrev pub select : (A → Bool) → List A → List A
  select p [] = []
  select p (x ∷ xs) = let rest = select p xs in if p x then x ∷ rest else rest

  -- The first row that passes a test.
  abbrev pub first : (A → Bool) → List A → Option A
  first p [] = none
  first p (x ∷ xs) = let rest = first p xs in if p x then some x else rest

  abbrev pub take : ℕ → List A → List A
  take zero xs = []
  take (suc n) [] = []
  take (suc n) (x ∷ xs) = x ∷ take n xs

  pub length-append : (xs ys : List A) → length (xs ++ ys) ≡ length xs + length ys
  length-append [] ys = omega arith
  length-append (x ∷ xs) ys = omega (arith, length-append xs ys)

module _ {ℓ κ} {A : Type ℓ} where
  abbrev pub All : (A → Type κ) → List A → Type κ
  All P [] = Unit
  All P (x ∷ xs) = P x × All P xs

  pub All-append : (P : A → Type κ) (xs ys : List A) → All P xs → All P ys → All P (xs ++ ys)
  All-append P [] ys hx hy = hy
  All-append P (x ∷ xs) ys hx hy = (hx.0, All-append P xs ys hx.1 hy)

  pub All-weaken : (P Q : A → Type κ) (xs : List A) → ((x : A) → P x → Q x) → All P xs → All Q xs
  All-weaken P Q [] f h = tt
  All-weaken P Q (x ∷ xs) f h = (f x h.0, All-weaken P Q xs f h.1)

  pub All-both : (P Q : A → Type κ) (xs : List A) → All P xs → All Q xs → All (λ x. P x × Q x) xs
  All-both P Q [] hp hq = tt
  All-both P Q (x ∷ xs) hp hq = ((hp.0, hq.0), All-both P Q xs hp.1 hq.1)

  pub All-select :
      (P : A → Type κ) (p : A → Bool) (xs : List A)
      → ((x : A) → p x ≡ true → P x)
      → All P (select p xs)
  All-select P p [] h = tt
  All-select P p (x ∷ xs) h = elim (Bool-cases (p x)) [
    | inl e ↦ rw e (h x e, All-select P p xs h)
    | inr e ↦ rw e (All-select P p xs h)
  ]

module _ {ℓ κ} {A : Type ℓ} where
  pub All-select_of :
      (P : A → Type κ) (p : A → Bool) (xs : List A)
      → All (λ x. p x ≡ true → P x) xs
      → All P (select p xs)
  All-select_of P p [] h = tt
  All-select_of P p (x ∷ xs) h = elim (Bool-cases (p x)) [
    | inl e ↦ rw e (h.0 e, All-select_of P p xs h.1)
    | inr e ↦ rw e (All-select_of P p xs h.1)
  ]

module _ {ℓ} {A : Type ℓ} where
  -- Of two tests the stronger decides, whichever comes first.
  pub select-select :
      (p q : A → Bool) (xs : List A)
      → ((x : A) → q x ≡ true → p x ≡ true)
      → select q (select p xs) ≡ select q xs
  select-select p q [] h = refl
  select-select p q (x ∷ xs) h = elim (Bool-cases (p x)) [
    | inl e ↦ rw (e, select-select p q xs h) refl
    | inr e ↦ elim (Bool-cases (q x)) [
      | inl f ↦ absurd (cc (h x f))
      | inr f ↦ rw (e, f, select-select p q xs h) refl
    ]
  ]

  -- The same, where the one implies the other for the rows of the list.
  pub select-select_All :
      (p q : A → Bool) (xs : List A)
      → All (λ x. q x ≡ true → p x ≡ true) xs
      → select q (select p xs) ≡ select q xs
  select-select_All p q [] h = refl
  select-select_All p q (x ∷ xs) h = elim (Bool-cases (p x)) [
    | inl e ↦ rw (e, select-select_All p q xs h.1) refl
    | inr e ↦ elim (Bool-cases (q x)) [
      | inl f ↦ absurd (cc (h.0 f))
      | inr f ↦ rw (e, f, select-select_All p q xs h.1) refl
    ]
  ]

  -- The first row that passes the test is found among the selected ones.
  pub first-select : (p : A → Bool) (xs : List A) → first p (select p xs) ≡ first p xs
  first-select p [] = refl
  first-select p (x ∷ xs) = elim (Bool-cases (p x)) [
    | inl e ↦ rw (e, e) refl
    | inr e ↦ rw e (first-select p xs)
  ]

  -- Functions that agree on the rows of a list.
  pub map-All :
      {B : Type ℓ} (f g : A → B) (xs : List A) → All (λ x. f x ≡ g x) xs → map f xs ≡ map g xs
  map-All f g [] h = refl
  map-All f g (x ∷ xs) h = rw (h.0, map-All f g xs h.1) refl

  pub length-select-le : (p : A → Bool) (xs : List A) → length (select p xs) ≤ length xs
  length-select-le p [] = omega arith
  length-select-le p (x ∷ xs) = ground (arith, length-select-le p xs)

  pub length-map {κ} : {B : Type κ} (f : A → B) (xs : List A) → length (map f xs) ≡ length xs
  length-map f [] = refl
  length-map f (x ∷ xs) = omega (arith, length-map f xs)
