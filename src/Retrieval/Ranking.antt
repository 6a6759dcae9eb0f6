-- ===== src/Retrieval/Ranking.antt =====
-- The order of the limit and the threshold in services/retrieval_service.py.
use agentdesk_ai.Models.Records.{DocumentChunk}
use agentdesk_ai.Base.{
  refl, if◌then◌else◌, ℕ, ◌≡◌, ◌∙◌, ap, true, false, Bool, List, [], ◌∷◌, map, take, select, All,
  ◌==◌, Bool-cases, inl, inr,
}
use agentdesk_ai.Base.Order.{order_by, order_by-IsOrdered, IsOrdered}
use agentdesk_ai.Base.Filtered.{IsDownward, select-take, select-order_by}
use agentdesk_ai.Session.{Db, Env}
use agentdesk_ai.Retrieval.{
  RetrievedChunk, cosine, ranked_in_python, ranked_by_database, hits_of, by_score, by_distance,
}

module _ {F : Type 0} (env : Env F) where
  abbrev pub reaches : F → RetrievedChunk F → Bool
  reaches threshold h = env.floats.le threshold h.score

  -- What a search should answer: of all chunks of the organization that reach the threshold, the
  -- `top_k` with the best scores.
  unfoldable pub best_hits : F → ℕ → ℕ → Db F → List F → List (RetrievedChunk F)
  best_hits threshold top_k organization_id db query_vec =
      let own = select (λ c. c.organization_id == organization_id) db.document_chunks in
      let scored : List (RetrievedChunk F) =
        map (λ c. record { chunk = c; score = cosine env query_vec c.embedding }) own in
      take top_k (order_by (by_score env) (select (reaches threshold) scored))

  -- The answer on PostgreSQL, whose rows come with their distances: of the chunks of the organization
  -- that the index visits, and whose score, 1.0 less the distance, reaches the threshold, the `top_k`
  -- that are nearest.
  abbrev pub scored_of : DocumentChunk F × F → RetrievedChunk F
  scored_of r = record { chunk = r.0; score = env.floats.sub (env.floats.literal 1 0) r.1 }

  unfoldable pub nearest_hits : F → ℕ → ℕ → Db F → List F → List (RetrievedChunk F)
  nearest_hits threshold top_k organization_id db query_vec =
      let own = select (λ c. c.organization_id == organization_id) db.document_chunks in
      let visited = select (λ c. env.index_visits query_vec c.embedding) own in
      let rows : List (DocumentChunk F × F) =
        map (λ c. (c, env.cosine_distance c.embedding query_vec)) visited in
      map scored_of (
        take top_k
          (order_by (by_distance env) (select (λ r. reaches threshold (scored_of r)) rows)))

  select-map :
      {A B : Type 0} (p : B → Bool) (f : A → B) (xs : List A)
      → select p (map f xs) ≡ map f (select (λ x. p (f x)) xs)
  select-map p f [] = refl
  select-map p f (x ∷ xs) = elim (Bool-cases (p (f x))) [
    | inl e ↦ rw (e, select-map p f xs) refl
    | inr e ↦ rw e (select-map p f xs)
  ]

  module _
      (trans : (x y z : F)
        → env.floats.le x y ≡ true
        → env.floats.le y z ≡ true
        → env.floats.le x z ≡ true)
      (total : (x y : F) → env.floats.le x y ≡ false → env.floats.le y x ≡ true) where
    by_score_trans :
        (x y z : RetrievedChunk F)
        → by_score env x y ≡ true
        → by_score env y z ≡ true
        → by_score env x z ≡ true
    by_score_trans x y z e f = trans z.score y.score x.score f e

    by_score_total : (x y : RetrievedChunk F) → by_score env x y ≡ false → by_score env y x ≡ true
    by_score_total x y e = total y.score x.score e

    too_low :
        (threshold : F) (x : RetrievedChunk F) (ys : List (RetrievedChunk F))
        → reaches threshold x ≡ false
        → All (λ y. by_score env x y ≡ true) ys
        → All (λ y. reaches threshold y ≡ false) ys
    too_low threshold x [] e h = tt
    too_low threshold x (y ∷ ys) e h = (
      elim (Bool-cases (reaches threshold y)) [
        | inl r ↦ absurd (cc (trans threshold y.score x.score r h.0, e))
        | inr r ↦ r
      ],
      too_low threshold x ys e h.1,
    )

    ordered-IsDownward :
        (threshold : F) (xs : List (RetrievedChunk F))
        → IsOrdered (by_score env) xs
        → IsDownward (reaches threshold) xs
    ordered-IsDownward threshold [] h = tt
    ordered-IsDownward threshold (x ∷ xs) h =
        ((λ e. too_low threshold x xs e h.0), ordered-IsDownward threshold xs h.1)

    python-best_hits :
        (threshold : F) (top_k organization_id : ℕ) (db : Db F) (query_vec : List F)
        → env.is_postgresql ≡ false
        → hits_of env threshold top_k organization_id db query_vec
          ≡ best_hits threshold top_k organization_id db query_vec
    unfolding hits_of best_hits ranked_in_python
    python-best_hits threshold top_k organization_id db query_vec dialect =
        let own = select (λ c. c.organization_id == organization_id) db.document_chunks in
        let scored : List (RetrievedChunk F) =
          map (λ c. record { chunk = c; score = cosine env query_vec c.embedding }) own in
        rw dialect (
          select-take (reaches threshold) top_k (order_by (by_score env) scored) (
            ordered-IsDownward threshold _
              (order_by-IsOrdered (by_score env) by_score_trans by_score_total scored))
          ∙ ap (take top_k) (
              select-order_by (by_score env) by_score_trans by_score_total (reaches threshold)
                scored))

    module _
        (antitone : (x y : F)
          → env.floats.le x y ≡ true
          → env.floats.le
              (env.floats.sub (env.floats.literal 1 0) y)
              (env.floats.sub (env.floats.literal 1 0) x)
            ≡ true) where
      too_far :
          (threshold : F) (x : DocumentChunk F × F) (ys : List (DocumentChunk F × F))
          → reaches threshold (scored_of x) ≡ false
          → All (λ y. by_distance env x y ≡ true) ys
          → All (λ y. reaches threshold (scored_of y) ≡ false) ys
      too_far threshold x [] e h = tt
      too_far threshold x (y ∷ ys) e h = (
        elim (Bool-cases (reaches threshold (scored_of y))) [
          | inl r ↦ absurd (cc (trans threshold _ _ r (antitone x.1 y.1 h.0), e))
          | inr r ↦ r
        ],
        too_far threshold x ys e h.1,
      )

      near-IsDownward :
          (threshold : F) (xs : List (DocumentChunk F × F))
          → IsOrdered (by_distance env) xs
          → IsDownward (λ r. reaches threshold (scored_of r)) xs
      near-IsDownward threshold [] h = tt
      near-IsDownward threshold (x ∷ xs) h =
          ((λ e. too_far threshold x xs e h.0), near-IsDownward threshold xs h.1)

      database-nearest_hits :
          (threshold : F) (top_k organization_id : ℕ) (db : Db F) (query_vec : List F)
          → env.is_postgresql ≡ true
          → hits_of env threshold top_k organization_id db query_vec
            ≡ nearest_hits threshold top_k organization_id db query_vec
      unfolding hits_of nearest_hits ranked_by_database
      database-nearest_hits threshold top_k organization_id db query_vec dialect =
          let own = select (λ c. c.organization_id == organization_id) db.document_chunks in
          let visited = select (λ c. env.index_visits query_vec c.embedding) own in
          let rows : List (DocumentChunk F × F) =
            map (λ c. (c, env.cosine_distance c.embedding query_vec)) visited in
          let near = λ (r : DocumentChunk F × F). reaches threshold (scored_of r) in
          rw dialect (
            select-map (reaches threshold) scored_of (take top_k (order_by (by_distance env) rows))
            ∙ ap (map scored_of) (
                select-take near top_k (order_by (by_distance env) rows) (
                  near-IsDownward threshold _ (
                    order_by-IsOrdered (by_distance env) (λ x y z e f. trans x.1 y.1 z.1 e f)
                      (λ x y e. total x.1 y.1 e) rows))
                ∙ ap (take top_k) (
                    select-order_by (by_distance env) (λ x y z e f. trans x.1 y.1 z.1 e f)
                      (λ x y e. total x.1 y.1 e) near rows)))

      -- Where the order of the floats is transitive and total, and subtraction from 1.0 turns it
      -- round, the limit, which the code applies before the threshold, costs no hit. On PostgreSQL
      -- the search answers with the nearest of all chunks of the organization that the index visits
      -- and that reach the threshold, and on the other dialects with the best of all chunks of the
      -- organization that reach it.
      pub hits_of-best_hits :
          (threshold : F) (top_k organization_id : ℕ) (db : Db F) (query_vec : List F)
          → hits_of env threshold top_k organization_id db query_vec ≡ (
              if env.is_postgresql
              then nearest_hits threshold top_k organization_id db query_vec
              else best_hits threshold top_k organization_id db query_vec)
      hits_of-best_hits threshold top_k organization_id db query_vec =
          elim (Bool-cases env.is_postgresql) [
            | inl e ↦
                database-nearest_hits threshold top_k organization_id db query_vec e ∙ rw e refl
            | inr e ↦ python-best_hits threshold top_k organization_id db query_vec e ∙ rw e refl
          ]
