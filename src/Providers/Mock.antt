-- ===== src/Providers/Mock.antt =====
-- providers/mock.py. `word_hash` stands for the first eight bytes of a token's SHA-256, read as a
-- big-endian number.
pub mod Laws
use Prim.Native.Nat.{◌%◌}
use agentdesk_ai.Base.{
  ℕ, zero, suc, ◌+◌, ◌/◌, Bool, ◌&&◌, List, [], ◌∷◌, map, String, str_eq, ◌<>◌, is_blank, strip,
  length, ◌==◌, if◌then◌else◌,
}
use agentdesk_ai.Session.{Floats, LlmResult, Answer, answer, failure}
use agentdesk_ai.Words.{Word, tokens}

module _ {ℓ} {A : Type ℓ} where
  unfoldable pub replicate : ℕ → A → List A
  replicate zero x = []
  replicate (suc n) x = x ∷ replicate n x

  -- `vec[idx] = f(vec[idx])`, for an index in range.
  unfoldable pub change_at : ℕ → (A → A) → List A → List A
  change_at i f [] = []
  change_at zero f (x ∷ xs) = f x ∷ xs
  change_at (suc i) f (x ∷ xs) = x ∷ change_at i f xs

module _ {F : Type 0} (floats : Floats F) where
  abbrev zero_float : F
  zero_float = floats.literal 0 0

  abbrev one_float : F
  one_float = floats.literal 1 0

  -- `1.0 if (h >> 8) & 1 else -1.0`
  unfoldable pub sign_of : ℕ → F
  sign_of h = if h / 256 % 2 == 1 then one_float else floats.sub zero_float one_float

  -- The vector divided by its norm, or with 1.0 for its first entry if the norm is 0.0.
  unfoldable pub normalized : List F → List F
  unfolding change_at
  normalized vec =
      let norm = floats.sqrt (floats.sum (map (λ v. floats.mul v v) vec)) in
      if floats.le norm zero_float && floats.le zero_float norm
      then change_at 0 (λ x. one_float) vec
      else map (λ v. floats.div v norm) vec

module _ {F : Type 0} (floats : Floats F) (word_hash : Word → ℕ) where
  -- The loop over the tokens.
  unfoldable pub add_tokens : ℕ → List Word → List F → List F
  unfolding change_at sign_of
  add_tokens dim [] vec = vec
  add_tokens dim (tok ∷ toks) vec =
      let h = word_hash tok in
      add_tokens dim toks (change_at (h % dim) (λ x. floats.add x (sign_of floats h)) vec)

  -- Without entries the index of a token is a division by zero, and `vec[0]` is out of range.
  unfoldable pub embed_none : List Word → Answer (List F)
  embed_none [] = failure "list assignment index out of range"
  embed_none (tok ∷ toks) = failure "integer modulo by zero"

  unfoldable pub embed_one : ℕ → String → Answer (List F)
  unfolding embed_none add_tokens normalized replicate tokens
  embed_one zero text = embed_none (tokens text)
  embed_one (suc n) text = answer (
      normalized floats (add_tokens (suc n) (tokens text) (replicate (suc n) (floats.literal 0 0))))

  abbrev pub put_first : Answer (List F) → Answer (List (List F)) → Answer (List (List F))
  put_first (failure e) rest = failure e
  put_first (answer v) (failure e) = failure e
  put_first (answer v) (answer vs) = answer (v ∷ vs)

  unfoldable pub embed : ℕ → List String → Answer (List (List F))
  unfolding embed_one
  embed dim [] = answer []
  embed dim (text ∷ texts) = put_first (embed_one dim text) (embed dim texts)

-- The reply, which repeats the retrieved context if there is one.
unfoldable pub reply_to : String → String
reply_to context =
    if str_eq context ""
    then "Thank you for reaching out. We are looking into your request and will follow up shortly."
    else "Based on our documentation:\n\n"
      <> (context <> "\n\nPlease let us know if this resolves your issue.")

unfoldable pub complete : String → String → String → Answer LlmResult
unfolding reply_to strip tokens
complete prompt system context =
    let body = reply_to (strip context) in
    answer (record {
      text = body;
      prompt_tokens =
          length (tokens prompt) + (if str_eq system "" then 0 else length (tokens system));
      completion_tokens = length (tokens body);
      model = "mock-1";
    })
