-- ===== src/Providers/Mock/Laws.antt =====
-- The vectors of the mock embedding provider.
use agentdesk_ai.Base.{
  ℕ, zero, Bool, true, false, if◌then◌else◌, suc, ◌≡◌, refl, ◌∙◌, ◌≢◌, List, [], ◌∷◌, String,
  length, length-map, All, ap,
}
use agentdesk_ai.Session.{Floats, answer}
use agentdesk_ai.Words.{Word, tokens}
use agentdesk_ai.Providers.Mock.{replicate, change_at, add_tokens, normalized, embed_one, embed}

module _ {A : Type 0} where
  length-replicate : (n : ℕ) (x : A) → length (replicate n x) ≡ n
  unfolding replicate
  length-replicate zero x = refl
  length-replicate (suc n) x = ap suc (length-replicate n x)

  length-change_at : (i : ℕ) (f : A → A) (xs : List A) → length (change_at i f xs) ≡ length xs
  unfolding change_at
  length-change_at i f [] = refl
  length-change_at zero f (x ∷ xs) = refl
  length-change_at (suc i) f (x ∷ xs) = ap suc (length-change_at i f xs)

  length-if :
      {n : ℕ} (b : Bool) (xs ys : List A)
      → length xs ≡ n
      → length ys ≡ n
      → length (if b then xs else ys) ≡ n
  length-if true xs ys p q = p
  length-if false xs ys p q = q

module _ {F : Type 0} (floats : Floats F) (word_hash : Word → ℕ) where
  length-add_tokens :
      (dim : ℕ) (toks : List Word) (vec : List F)
      → length (add_tokens floats word_hash dim toks vec) ≡ length vec
  unfolding add_tokens
  length-add_tokens dim [] vec = refl
  length-add_tokens dim (tok ∷ toks) vec = length-add_tokens dim toks _ ∙ length-change_at _ _ vec

  length-normalized : (vec : List F) → length (normalized floats vec) ≡ length vec
  unfolding normalized
  length-normalized vec = length-if _ _ _ (length-change_at 0 _ vec) (length-map _ vec)

  length-start :
      (n : ℕ) (toks : List Word)
      → length (
          normalized floats (add_tokens floats word_hash n toks (replicate n (floats.literal 0 0))))
        ≡ n
  length-start n toks = length-normalized _ ∙ (length-add_tokens n toks _ ∙ length-replicate n _)

  -- Every vector that the mock gives has `dim` entries, and it gives one for each text: for a
  -- dimension other than 0 no text makes it fail.
  pub embed_lem :
      (dim : ℕ) (texts : List String)
      → dim ≢ 0
      → (vectors : List (List F)) × (embed floats word_hash dim texts ≡ answer vectors)
        × (length vectors ≡ length texts)
        × All (λ v. length v ≡ dim) vectors
  unfolding embed embed_one
  embed_lem dim [] h = ([], refl, refl, tt)
  embed_lem zero (text ∷ texts) h = absurd (h refl)
  embed_lem (suc n) (text ∷ texts) h =
      let (vectors, e, l, a) = embed_lem (suc n) texts h in
      (
        normalized floats (
              add_tokens floats word_hash (suc n) (tokens text)
                (replicate (suc n) (floats.literal 0 0)))
            ∷ vectors,
        rw e refl,
        ap suc l,
        (length-start (suc n) (tokens text), a),
      )
