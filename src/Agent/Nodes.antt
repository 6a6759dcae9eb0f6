-- ===== src/Agent/Nodes.antt =====
-- agent/nodes.py and agent/graph.py: the nodes from the retriever on, and the chain of all five.
pub mod Effects
pub mod Laws
use agentdesk_ai.Base.{
  ℕ, Bool, true, false, not, some, none, or_default, List, [], ◌∷◌, map, String, ◌<>◌,
  if◌then◌else◌, length,
}
use agentdesk_ai.Session.{Env, LlmResult, Exec, pure, ◌>>=◌, ◌>>◌}
use agentdesk_ai.Words.{tokens, distinct, common}
use agentdesk_ai.Retrieval.{RetrievedChunk, from_provider, search_chunks}
use agentdesk_ai.Agent.State.{AgentState, RetrievedRef}
use agentdesk_ai.Agent.Classifier.{full_text, classify}

-- `sep.join(texts)`
unfoldable pub join : String → List String → String
join sep [] = ""
join sep (t ∷ []) = t
join sep (t ∷ u ∷ ts) = t <> (sep <> join sep (u ∷ ts))

abbrev pub is_nonempty {ℓ} : {A : Type ℓ} → List A → Bool
is_nonempty [] = false
is_nonempty (x ∷ xs) = true

abbrev contents : {F : Type 0} → List (RetrievedRef F) → List String
contents = map (λ r. r.content)

module _ {F : Type 0} (env : Env F) where
  abbrev ref_of : RetrievedChunk F → RetrievedRef F
  ref_of h = record {
    chunk_id = h.chunk.id;
    document_id = h.chunk.document_id;
    content = h.chunk.content;
    score = env.floats.round h.score 6;
  }

  unfoldable pub retriever_node : AgentState F → Exec F (AgentState F)
  retriever_node state = do
    hits ← search_chunks env state.organization_id (full_text state) none none
    let retrieved = map ref_of hits
    pure (record state { retrieved = some retrieved; retrieval_hit = some (is_nonempty retrieved) })

  prompt_of : AgentState F → String
  prompt_of state =
      "Ticket: "
      <> (or_default state.ticket_title ""
          <> ("\nDetails: "
              <> (or_default state.ticket_description ""
                  <> "\nWrite a helpful support reply grounded in the provided context.")))

  unfoldable pub draft_node : AgentState F → Exec F (AgentState F)
  unfolding prompt_of join
  draft_node state = do
    let context = join "\n\n" (contents (or_default state.retrieved []))
    result ← from_provider env (
        env.providers.complete (prompt_of state)
          "You are a careful support agent. Only use the provided context." context)
    pure (record state {
      draft = some result.text;
      model = some result.model;
      prompt_tokens = some result.prompt_tokens;
      completion_tokens = some result.completion_tokens;
    })

  -- `max(r["score"] for r in retrieved)`: a later score replaces the best only if it is larger.
  pub top_score : F → List (RetrievedRef F) → F
  top_score best [] = best
  top_score best (r ∷ rs) = top_score (if env.floats.le r.score best then best else r.score) rs

  pub overlap_of : List (RetrievedRef F) → String → F
  unfolding join tokens distinct common
  overlap_of retrieved draft =
      let context_tokens = distinct (tokens (join " " (contents retrieved))) in
      if is_nonempty context_tokens
      then env.floats.div (env.floats.of_int (common context_tokens (tokens draft)))
          (env.floats.of_int (length context_tokens))
      else env.floats.literal 0 0

  -- The confidence: half the best score, half the share of the context's words in the draft, at
  -- most 1.0; `min(1.0, c)` is `c` only if it is smaller.
  unfoldable pub grounding : List (RetrievedRef F) → String → F
  unfolding top_score overlap_of
  grounding [] draft = env.floats.literal 0 0
  grounding (r ∷ rs) draft =
      let half = env.floats.literal 5 1 in
      let confidence =
        env.floats.round
          (env.floats.add (env.floats.mul half (top_score r.score rs))
            (env.floats.mul half (overlap_of (r ∷ rs) draft)))
          6 in
      if env.floats.le (env.floats.literal 1 0) confidence
      then env.floats.literal 1 0
      else confidence

  unfoldable pub critic_node : AgentState F → AgentState F
  unfolding grounding
  critic_node state = record state {
    confidence = some (grounding (or_default state.retrieved []) (or_default state.draft ""));
  }

  -- `waiting_approval` exactly from the threshold on.
  unfoldable pub decision_node : AgentState F → AgentState F
  decision_node state =
      let confidence = or_default state.confidence (env.floats.literal 0 0) in
      record state {
        outcome = some (
            if env.floats.le env.confidence_threshold confidence
            then "waiting_approval"
            else "escalated");
      }

  -- START → classifier → retriever → draft → critic → decision → END
  unfoldable pub run_workflow : AgentState F → Exec F (AgentState F)
  unfolding classify retriever_node draft_node critic_node decision_node
  run_workflow initial = do
    retrieved ← retriever_node (classify initial)
    drafted ← draft_node retrieved
    pure (decision_node (critic_node drafted))
