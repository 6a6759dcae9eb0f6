-- ===== src/Retrieval/Laws.antt =====
-- What a search answers.
use native.Mathlib.Nat.{le_trans}
use agentdesk_ai.Base.{
  ℕ, zero, suc, ◌≡◌, ◌≤◌, true, inl, inr, Bool, Bool-cases, List, [], ◌∷◌, map, arith, length,
  length-map, length-select-le, take, select, All, All-both, All-select, ◌==◌, ==_iff,
  if◌then◌else◌,
}
use agentdesk_ai.Base.Order.{All-order_by}
use agentdesk_ai.Models.Records.{DocumentChunk}
use agentdesk_ai.Session.{Db, Env}
use agentdesk_ai.Retrieval.{
  RetrievedChunk, ranked_by_database, ranked_in_python, hits_of, by_score, by_distance,
}

length-take : {A : Type 0} (n : ℕ) (xs : List A) → length (take n xs) ≤ n
length-take zero xs = omega arith
length-take (suc n) [] = omega arith
length-take (suc n) (x ∷ xs) = omega (arith, length-take n xs)

All-take : {A : Type 0} (P : A → Type 0) (n : ℕ) (xs : List A) → All P xs → All P (take n xs)
All-take P zero xs h = tt
All-take P (suc n) [] h = tt
All-take P (suc n) (x ∷ xs) h = (h.0, All-take P n xs h.1)

All-kept :
    {A : Type 0} (P : A → Type 0) (p : A → Bool) (xs : List A) → All P xs → All P (select p xs)
All-kept P p [] h = tt
All-kept P p (x ∷ xs) h = elim (Bool-cases (p x)) [
  | inl e ↦ rw e (h.0, All-kept P p xs h.1)
  | inr e ↦ rw e (All-kept P p xs h.1)
]

All-map :
    {A B : Type 0} (P : B → Type 0) (f : A → B) (xs : List A)
    → All (λ x. P (f x)) xs
    → All P (map f xs)
All-map P f [] h = tt
All-map P f (x ∷ xs) h = (h.0, All-map P f xs h.1)

module _ {F : Type 0} (env : Env F) where
  -- A hit of the organization whose score reaches the threshold.
  abbrev pub IsHit : ℕ → F → RetrievedChunk F → Type 0
  IsHit organization_id threshold h =
      (h.chunk.organization_id ≡ organization_id) × (env.floats.le threshold h.score ≡ true)

  abbrev Own : ℕ → RetrievedChunk F → Type 0
  Own organization_id h = h.chunk.organization_id ≡ organization_id

  abbrev ranked : List F → ℕ → List (DocumentChunk F) → List (RetrievedChunk F)
  ranked query_vec top_k chunks =
      if env.is_postgresql
      then ranked_by_database env query_vec top_k chunks
      else ranked_in_python env query_vec top_k chunks

  ranked-Own :
      (organization_id : ℕ) (query_vec : List F) (top_k : ℕ) (chunks : List (DocumentChunk F))
      → All (λ c. c.organization_id ≡ organization_id) chunks
      → All (Own organization_id) (ranked query_vec top_k chunks)
  unfolding ranked_by_database ranked_in_python
  ranked-Own organization_id query_vec top_k chunks h = elim (Bool-cases env.is_postgresql) [
    | inl e ↦ rw e (
        All-map (Own organization_id) _ _ (
          All-take _ top_k _ (
            All-order_by (by_distance env) (λ r. r.0.organization_id ≡ organization_id) _
              (All-map _ _ _ (All-kept _ _ chunks h)))))
    | inr e ↦ rw e (
        All-take (Own organization_id) top_k _
          (All-order_by (by_score env) (Own organization_id) _ (All-map _ _ chunks h)))
  ]

  ranked-length :
      (query_vec : List F) (top_k : ℕ) (chunks : List (DocumentChunk F))
      → length (ranked query_vec top_k chunks) ≤ top_k
  unfolding ranked_by_database ranked_in_python
  ranked-length query_vec top_k chunks = elim (Bool-cases env.is_postgresql) [
    | inl e ↦ rw (e, length-map) (length-take top_k _)
    | inr e ↦ rw e (length-take top_k _)
  ]

  -- What a search answers with: at most `top_k` chunks, all of the organization that asks, all with
  -- a score that reaches the threshold, on PostgreSQL and on the other dialects alike.
  pub hits_of_lem :
      (threshold : F) (top_k organization_id : ℕ) (db : Db F) (query_vec : List F)
      → let hits = hits_of env threshold top_k organization_id db query_vec in
        All (IsHit organization_id threshold) hits × (length hits ≤ top_k)
  unfolding hits_of
  hits_of_lem threshold top_k organization_id db query_vec =
      let chunks = select (λ c. c.organization_id == organization_id) db.document_chunks in
      let rows = ranked query_vec top_k chunks in
      let own : All (λ (c : DocumentChunk F). c.organization_id ≡ organization_id) chunks =
        All-select _ _ db.document_chunks (λ c e. (==_iff c.organization_id organization_id).0 e) in
      let kept : List (RetrievedChunk F) = select (λ h. env.floats.le threshold h.score) rows in
      let theirs : All (Own organization_id) kept =
        All-kept (Own organization_id) _ rows
          (ranked-Own organization_id query_vec top_k chunks own) in
      let reached : All (λ (h : RetrievedChunk F). env.floats.le threshold h.score ≡ true) kept =
        All-select _ _ rows (λ h e. e) in
      (
        All-both (Own organization_id) _ kept theirs reached,
        le_trans (length-select-le _ rows) (ranked-length query_vec top_k chunks),
      )
