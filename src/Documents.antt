-- ===== src/Documents.antt =====
-- services/document_service.py: `chunk_text`, on the words of a text; the documents themselves are
-- in the child Service.
pub mod Laws
pub mod Service
use Prim.Native.Char.{code}
use agentdesk_ai.Base.{
  ℕ, zero, suc, ◌+◌, ◌-◌, List, Bool, true, false, [], ◌∷◌, String, ltb, leb, if◌then◌else◌, length,
  take, map, is_space,
}
use agentdesk_ai.Agent.Nodes.{join}

-- `words[n:]`
abbrev pub drop {ℓ} : {A : Type ℓ} → ℕ → List A → List A
drop zero xs = xs
drop (suc n) [] = []
drop (suc n) (x ∷ xs) = drop n xs

abbrev pub is_empty {ℓ} : {A : Type ℓ} → List A → Bool
is_empty [] = true
is_empty (x ∷ xs) = false

-- `max(1, size - overlap)`
abbrev pub step_of : ℕ → ℕ → ℕ
step_of size overlap = if leb (size - overlap) 1 then 1 else size - overlap

-- The loop over `range(0, len(words), step)`, from `start` on. Every round moves on by at least one
-- word, so as many rounds as there are words are enough.
unfoldable pub windows_from : {A : Type 0} → ℕ → ℕ → ℕ → ℕ → List A → List (List A)
windows_from zero size step start words = []
windows_from (suc fuel) size step start words =
    let rest = windows_from fuel size step (start + step) words in
    let window = take size (drop start words) in
    let more = if leb (length words) (start + size) then [] else rest in
    if ltb start (length words) then (if is_empty window then more else window ∷ more) else []

unfoldable pub windows : {A : Type 0} → ℕ → ℕ → List A → List (List A)
unfolding windows_from
windows size overlap words = windows_from (length words) size (step_of size overlap) 0 words

abbrev pub push : String → List String → List String
push String.[] ws = ws
push (String.◌∷◌ c w) ws = String.◌∷◌ c w ∷ ws

-- The word that a text begins with, if any, and the later ones.
unfoldable pub split_words : String → String × List String
split_words String.[] = ("", [])
split_words (String.◌∷◌ c s) =
    let (w, ws) = split_words s in
    if is_space (code c) then ("", push w ws) else (String.◌∷◌ c w, ws)

-- `_WORDS.findall(text)`, the runs of characters that are not white space.
unfoldable pub words_of : String → List String
unfolding split_words
words_of text = let (w, ws) = split_words text in push w ws

unfoldable pub chunk_text : String → ℕ → ℕ → List String
unfolding windows words_of
chunk_text text size overlap = map (join " ") (windows size overlap (words_of text))
