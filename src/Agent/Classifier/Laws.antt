-- ===== src/Agent/Classifier/Laws.antt =====
-- What the classifier suggests.
use mathlib.Core.Path.{subst}
use agentdesk_ai.Base.{
  ℕ, ◌≡◌, ◌≤◌, ap, sym, ◌<◌, ◌⊎◌, inl, inr, refl, Bool, if◌then◌else◌, true, false, Bool-cases,
  List, [], ◌∷◌, String, ltb, arith, All,
}
use agentdesk_ai.Agent.Classifier.{any_hit, max_from, best_type}

-- `m` is an entry, scores more than every entry before it, and no less than any behind it.
abbrev pub IsFirstMax : String × ℕ → List (String × ℕ) → Type 0
IsFirstMax m [] = ⊥
IsFirstMax m (x ∷ xs) = ((x ≡ m) × All (λ y. y.1 ≤ m.1) xs) ⊎ ((x.1 < m.1) × IsFirstMax m xs)

head-le : (m x : String × ℕ) (xs : List (String × ℕ)) → IsFirstMax m (x ∷ xs) → x.1 ≤ m.1
head-le m x xs (inl (e, h)) = omega (arith, ap (λ y. y.1) e)
head-le m x xs (inr (l, h)) = omega arith

max_from-step :
    (best x : String × ℕ) (xs : List (String × ℕ)) (b : Bool)
    → ltb best.1 x.1 ≡ b
    → max_from best (x ∷ xs) ≡ max_from (if b then x else best) xs
unfolding max_from
max_from-step best x xs b e = rw e refl

keep_first :
    (best x m : String × ℕ) (xs : List (String × ℕ))
    → x.1 ≤ best.1
    → IsFirstMax m (best ∷ xs)
    → IsFirstMax m (best ∷ x ∷ xs)
keep_first best x m xs l (inl (e, h)) = inl (e, (omega (arith, ap (λ y. y.1) e), h))
keep_first best x m xs l (inr (k, h)) = inr (k, inr (omega arith, h))

max_from-IsFirstMax :
    (best : String × ℕ) (xs : List (String × ℕ)) → IsFirstMax (max_from best xs) (best ∷ xs)
unfolding max_from
max_from-IsFirstMax best [] = inl (refl, tt)
max_from-IsFirstMax best (x ∷ xs) = elim (Bool-cases (ltb best.1 x.1)) [
  | inl e ↦
      let h = max_from-IsFirstMax x xs in
      let l = head-le (max_from x xs) x xs h in
      subst (λ m. IsFirstMax m (best ∷ x ∷ xs)) (sym (max_from-step best x xs true e))
        (inr (ground (arith, e, l), h))
  | inr e ↦
      subst (λ m. IsFirstMax m (best ∷ x ∷ xs)) (sym (max_from-step best x xs false e))
        (keep_first best x (max_from best xs) xs (ground (arith, e)) (max_from-IsFirstMax best xs))
]

any_hit-All : (xs : List (String × ℕ)) (n : ℕ) → any_hit xs ≡ true → All (λ y. y.1 ≤ n) xs → 0 < n
unfolding any_hit
any_hit-All [] n e h = cc
any_hit-All (x ∷ xs) n e h = ground (arith, h.0, any_hit-All xs n, h.1)

any_hit-max :
    (m : String × ℕ) (xs : List (String × ℕ)) → any_hit xs ≡ true → IsFirstMax m xs → 0 < m.1
unfolding any_hit
any_hit-max m [] e h = absurd h
any_hit-max m (x ∷ xs) e (inl (p, h)) =
    any_hit-All (x ∷ xs) m.1 e (omega (arith, ap (λ y. y.1) p), h)
any_hit-max m (x ∷ xs) e (inr (l, h)) = omega arith

no_hit : (xs : List (String × ℕ)) → any_hit xs ≡ false → All (λ y. y.1 ≡ 0) xs
unfolding any_hit
no_hit [] e = tt
no_hit (x ∷ xs) e = elim (Bool-cases (ltb 0 x.1)) [
  | inl p ↦ absurd (ground (arith, p, e))
  | inr p ↦ (ground (arith, p), no_hit xs (ground (arith, p, e)))
]

-- The suggested type is `general` if every score is 0, and otherwise the type of the first of the
-- largest scores, which is not 0.
best_type_lem :
    (scores : List (String × ℕ))
    → (All (λ y. y.1 ≡ 0) scores × (best_type scores ≡ "general"))
      ⊎ ((m : String × ℕ) × IsFirstMax m scores × (0 < m.1) × (best_type scores ≡ m.0))
unfolding best_type
best_type_lem [] = inl (tt, refl)
best_type_lem (x ∷ xs) = elim (Bool-cases (any_hit (x ∷ xs))) [
  | inl e ↦
      let h = max_from-IsFirstMax x xs in
      rw e (inr (max_from x xs, h, any_hit-max (max_from x xs) (x ∷ xs) e h, refl))
  | inr e ↦ rw e (inl (no_hit (x ∷ xs) e, refl))
]
