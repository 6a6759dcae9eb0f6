-- ===== src/Retrieval.antt =====
-- backend/app/services/retrieval_service.py
pub mod Effects
pub mod Laws
pub mod Ranking
use agentdesk_ai.Base.{
  ℕ, Bool, true, false, ◌&&◌, ◌||◌, Option, none, some, or_default, List, [], ◌∷◌, map, String,
  ◌==◌, if◌then◌else◌, select, take,
}
use agentdesk_ai.Base.Order.{order_by}
use agentdesk_ai.Models.Records.{DocumentChunk}
use agentdesk_ai.Session.{
  Db, Env, Answer, answer, failure, external, Exec, pure, raise, query, ◌>>=◌, ◌>>◌,
}

pub record RetrievedChunk (F : Type 0) : Type 0 where
  pub chunk : DocumentChunk F
  pub score : F

module _ {F : Type 0} (env : Env F) where
  -- What a provider call gives: its answer, or its exception.
  abbrev pub from_provider : {A : Type 0} → Answer A → Exec F A
  from_provider (answer a) = pure a
  from_provider (failure text) = raise (external text)

  -- `x * y for x, y in zip(a, b, strict=False)`
  products : List F → List F → List F
  products [] b = []
  products (x ∷ a) [] = []
  products (x ∷ a) (y ∷ b) = env.floats.mul x y ∷ products a b

  abbrev zero_float : F
  zero_float = env.floats.literal 0 0

  abbrev is_zero : F → Bool
  is_zero x = env.floats.le x zero_float && env.floats.le zero_float x

  unfoldable pub cosine : List F → List F → F
  unfolding products
  cosine a b =
      let dot = env.floats.sum (products a b) in
      let na = env.floats.sqrt (env.floats.sum (products a a)) in
      let nb = env.floats.sqrt (env.floats.sum (products b b)) in
      if is_zero na || is_zero nb then zero_float else env.floats.div dot (env.floats.mul na nb)

  abbrev pub by_score : RetrievedChunk F → RetrievedChunk F → Bool
  by_score r t = env.floats.le t.score r.score

  abbrev pub by_distance : DocumentChunk F × F → DocumentChunk F × F → Bool
  by_distance r t = env.floats.le r.1 t.1

  -- The query on PostgreSQL, `1.0 - distance` for the score. Its IVFFlat index (revision 0004) is an
  -- approximate one: a query is answered from the rows that the index visits for its vector.
  unfoldable pub ranked_by_database : List F → ℕ → List (DocumentChunk F) → List (RetrievedChunk F)
  ranked_by_database query_vec top_k chunks =
      map (λ r. record { chunk = r.0; score = env.floats.sub (env.floats.literal 1 0) r.1 })
        (take top_k (
          order_by by_distance (
            map (λ c. (c, env.cosine_distance c.embedding query_vec))
              (select (λ c. env.index_visits query_vec c.embedding) chunks))))

  -- The other dialects: scored in Python, sorted by falling score, and cut off.
  unfoldable pub ranked_in_python : List F → ℕ → List (DocumentChunk F) → List (RetrievedChunk F)
  unfolding cosine
  ranked_in_python query_vec top_k chunks = take top_k (
      order_by by_score
        (map (λ c. record { chunk = c; score = cosine query_vec c.embedding }) chunks))

  unfoldable pub hits_of : F → ℕ → ℕ → Db F → List F → List (RetrievedChunk F)
  unfolding ranked_by_database ranked_in_python
  hits_of threshold top_k organization_id db query_vec =
      let chunks = select (λ c. c.organization_id == organization_id) db.document_chunks in
      select (λ h. env.floats.le threshold h.score)
        (if env.is_postgresql
          then ranked_by_database query_vec top_k chunks
          else ranked_in_python query_vec top_k chunks)

  -- `(await embed([query]))[0]`
  unfoldable pub first_vector : List (List F) → Exec F (List F)
  first_vector [] = raise (external "list index out of range")
  first_vector (v ∷ vs) = pure v

  unfoldable pub search_chunks : ℕ → String → Option F → Option ℕ → Exec F (List (RetrievedChunk F))
  unfolding hits_of first_vector
  search_chunks organization_id text threshold top_k = do
    let least = or_default threshold env.similarity_threshold
    let count = or_default top_k env.retrieval_top_k
    vectors ← from_provider (env.providers.embed (text ∷ []))
    query_vec ← first_vector vectors
    query (λ db. hits_of least count organization_id db query_vec)
