-- ===== src/Documents/Laws.antt =====
-- How a text is cut.
use agentdesk_ai.Base.{
  ℕ, zero, suc, ◌+◌, ◌≡◌, ◌≤◌, ◌<◌, refl, List, [], ◌∷◌, ltb, leb, if◌then◌else◌, length, take, All,
  arith, map, String, Bool, true, false, ap, sym, ◌++◌, Bool-cases, inl, inr,
}
use agentdesk_ai.Documents.{drop, is_empty, step_of, windows_from, windows, words_of, chunk_text}
use agentdesk_ai.Agent.Nodes.{join}

length-take : {A : Type 0} (n : ℕ) (xs : List A) → length (take n xs) ≤ n
length-take zero xs = omega arith
length-take (suc n) [] = omega arith
length-take (suc n) (x ∷ xs) = omega (arith, length-take n xs)

if_All :
    {A : Type 0} (P : A → Type 0) (b : Bool) (xs ys : List A)
    → All P xs
    → All P ys
    → All P (if b then xs else ys)
if_All P true xs ys h k = h
if_All P false xs ys h k = k

windows_from-length :
    {A : Type 0} (fuel size step start : ℕ) (words : List A)
    → All (λ w. length w ≤ size) (windows_from fuel size step start words)
unfolding windows_from
windows_from-length zero size step start words = tt
windows_from-length {A} (suc fuel) size step start words =
    let P = λ (w : List A). length w ≤ size in
    let window = take size (drop start words) in
    let rest = windows_from fuel size step (start + step) words in
    let more = if leb (length words) (start + size) then [] else rest in
    let here = length-take size (drop start words) in
    let later : All P more =
      if_All P (leb (length words) (start + size)) [] rest tt
        (windows_from-length fuel size step (start + step) words) in
    if_All P (ltb start (length words)) (if is_empty window then more else window ∷ more) []
      (if_All P (is_empty window) more (window ∷ more) later (here, later)) tt

window-some :
    {A : Type 0} (size start : ℕ) (words : List A)
    → 0 < size
    → start < length words
    → is_empty (take size (drop start words)) ≡ false
window-some zero start words p h = absurd (omega (arith, p))
window-some (suc size) start [] p h = absurd (omega (arith, h))
window-some (suc size) zero (x ∷ xs) p h = refl
window-some (suc size) (suc start) (x ∷ xs) p h =
    window-some (suc size) start xs p (omega (arith, h))

-- The first `step` words of every chunk, and all of the last one.
unfoldable pub rejoin : {A : Type 0} → ℕ → List (List A) → List A
rejoin step [] = []
rejoin step (w ∷ ws) = let rest = rejoin step ws in if is_empty ws then w else take step w ++ rest

drop_all : {A : Type 0} (n : ℕ) (xs : List A) → length xs ≤ n → drop n xs ≡ []
drop_all zero [] h = refl
drop_all zero (x ∷ xs) h = absurd (omega (arith, h))
drop_all (suc n) [] h = refl
drop_all (suc n) (x ∷ xs) h = drop_all n xs (omega (arith, h))

take_all : {A : Type 0} (n : ℕ) (xs : List A) → length xs ≤ n → take n xs ≡ xs
take_all zero [] h = refl
take_all zero (x ∷ xs) h = absurd (omega (arith, h))
take_all (suc n) [] h = refl
take_all (suc n) (x ∷ xs) h = ap (λ t. x ∷ t) (take_all n xs (omega (arith, h)))

take-take : {A : Type 0} (m n : ℕ) (xs : List A) → m ≤ n → take m (take n xs) ≡ take m xs
take-take zero n xs h = refl
take-take (suc m) zero xs h = absurd (omega (arith, h))
take-take (suc m) (suc n) [] h = refl
take-take (suc m) (suc n) (x ∷ xs) h = ap (λ t. x ∷ t) (take-take m n xs (omega (arith, h)))

take-append-drop : {A : Type 0} (n : ℕ) (xs : List A) → take n xs ++ drop n xs ≡ xs
take-append-drop zero xs = refl
take-append-drop (suc n) [] = refl
take-append-drop (suc n) (x ∷ xs) = ap (λ t. x ∷ t) (take-append-drop n xs)

drop-drop : {A : Type 0} (m n k : ℕ) (xs : List A) → k ≡ m + n → drop k xs ≡ drop n (drop m xs)
drop-drop zero n k xs h = let e : k ≡ n = omega (arith, h) in rw e refl
drop-drop (suc m) n zero xs h = absurd (omega (arith, h))
drop-drop (suc m) zero (suc k) [] h = refl
drop-drop (suc m) (suc n) (suc k) [] h = refl
drop-drop (suc m) n (suc k) (x ∷ xs) h = drop-drop m n k xs (omega (arith, h))

length-drop : {A : Type 0} (n : ℕ) (xs : List A) → length (drop n xs) + n ≤ length xs + n
length-drop zero xs = omega arith
length-drop (suc n) [] = omega arith
length-drop (suc n) (x ∷ xs) = omega (arith, length-drop n xs)

length-drop_le : {A : Type 0} (n k : ℕ) (xs : List A) → length xs ≤ n + k → length (drop n xs) ≤ k
length-drop_le zero k xs h = omega (arith, h)
length-drop_le (suc n) k [] h = omega arith
length-drop_le (suc n) k (x ∷ xs) h = length-drop_le n k xs (omega (arith, h))

windows_from-some :
    {A : Type 0} (fuel size step start : ℕ) (words : List A)
    → 0 < fuel
    → 0 < size
    → start < length words
    → is_empty (windows_from fuel size step start words) ≡ false
unfolding windows_from
windows_from-some zero size step start words f g h = absurd (omega (arith, f))
windows_from-some (suc fuel) size step start words f g h =
    let e : ltb start (length words) ≡ true = ground (arith, h) in
    rw (e, window-some size start words g h) refl

rejoin-windows_from :
    {A : Type 0} (fuel size step start : ℕ) (words : List A)
    → 0 < step
    → step ≤ size
    → length words ≤ start + fuel
    → rejoin step (windows_from fuel size step start words) ≡ drop start words
unfolding windows_from rejoin
rejoin-windows_from zero size step start words pos le enough =
    sym (drop_all start words (omega (arith, enough)))
rejoin-windows_from (suc fuel) size step start words pos le enough =
    elim (Bool-cases (ltb start (length words))) [
      | inr p ↦ rw p (sym (drop_all start words (ground (arith, p))))
      | inl p ↦ elim (Bool-cases (leb (length words) (start + size))) [
        | inl q ↦
            rw (p, window-some size start words (omega arith) (ground (arith, p)), q)
              (take_all size (drop start words)
                (length-drop_le start size words (ground (arith, q))))
        | inr q ↦
            let full : start + size < length words = ground (arith, q) in
            let some_rest =
              windows_from-some fuel size step (start + step) words (omega arith) (omega arith)
                (omega arith) in
            let rest =
              rejoin-windows_from fuel size step (start + step) words pos le (omega arith) in
            rw
              (
                p,
                window-some size start words (omega arith) (omega arith),
                q,
                some_rest,
                rest,
                take-take step size (drop start words) le,
                drop-drop start step (start + step) words refl,
              )
              (take-append-drop step (drop start words))
      ]
    ]

windows_lem :
    {A : Type 0} (size overlap : ℕ) (words : List A)
    → overlap < size
    → (rejoin (step_of size overlap) (windows size overlap words) ≡ words)
      × All (λ w. length w ≤ size) (windows size overlap words)
unfolding windows
windows_lem size overlap words h = (
  rejoin-windows_from (length words) size (step_of size overlap) 0 words (ground arith)
      (ground arith) (omega arith),
  windows_from-length (length words) size (step_of size overlap) 0 words,
)

-- If the overlap is below the size, the chunks of a text are texts of windows of its words, none with
-- more words than the size, and no word is lost or changes its place: the windows without what they
-- share with the next one are, one after another, the words of the text.
pub chunk_text_lem :
    (text : String) (size overlap : ℕ)
    → overlap < size
    → (ws : List (List String)) × (chunk_text text size overlap ≡ map (join " ") ws)
      × (rejoin (step_of size overlap) ws ≡ words_of text)
      × All (λ w. length w ≤ size) ws
unfolding chunk_text
chunk_text_lem text size overlap h =
    let l = windows_lem size overlap (words_of text) h in
    (windows size overlap (words_of text), refl, l.0, l.1)
