-- ===== src/Agent/Nodes/Laws.antt =====
-- The confidence and the decision of a run.
use agentdesk_ai.Base.{
  ◌≡◌, ◌↔◌, refl, ◌⊎◌, inl, inr, true, false, Bool-cases, some, or_default, List, [], ◌∷◌, String,
  if◌then◌else◌,
}
use agentdesk_ai.Session.{Env}
use agentdesk_ai.Agent.State.{AgentState, RetrievedRef}
use agentdesk_ai.Agent.Nodes.{grounding, critic_node, decision_node, top_score, overlap_of}

module _ {F : Type 0} (env : Env F) where
  -- After the critic and the decision, the outcome is `waiting_approval` exactly if the confidence
  -- that the critic gave reaches the threshold, and `escalated` exactly if it does not.
  decision_lem :
      (state : AgentState F)
      → let confidence =
          grounding env (or_default state.retrieved []) (or_default state.draft "") in
        let decided = decision_node env (critic_node env state) in
        (decided.confidence ≡ some confidence)
        × ((decided.outcome ≡ some "waiting_approval")
            ↔ (env.floats.le env.confidence_threshold confidence ≡ true))
        × ((decided.outcome ≡ some "escalated")
            ↔ (env.floats.le env.confidence_threshold confidence ≡ false))
  unfolding decision_node critic_node
  decision_lem state =
      let confidence = grounding env (or_default state.retrieved []) (or_default state.draft "") in
      elim (Bool-cases (env.floats.le env.confidence_threshold confidence)) [
        | inl e ↦ rw e (refl, (λ p. refl, λ p. refl), (λ p. cc, λ p. cc))
        | inr e ↦ rw e (refl, (λ p. cc, λ p. cc), (λ p. refl, λ p. refl))
      ]

  -- Without a retrieved chunk, and with a threshold above 0.0, the critic and the decision escalate,
  -- whatever the draft says.
  no_context :
      (state : AgentState F)
      → or_default state.retrieved [] ≡ []
      → env.floats.le env.confidence_threshold (env.floats.literal 0 0) ≡ false
      → (decision_node env (critic_node env state)).outcome ≡ some "escalated"
  unfolding decision_node critic_node grounding
  no_context state e below = rw (e, below) refl

  -- The confidence is at most 1.0, if any two floats compare and 0.0 is at most 1.0.
  pub grounding-le_one :
      (rs : List (RetrievedRef F)) (draft : String)
      → ((x y : F) → (env.floats.le x y ≡ true) ⊎ (env.floats.le y x ≡ true))
      → env.floats.le (env.floats.literal 0 0) (env.floats.literal 1 0) ≡ true
      → env.floats.le (grounding env rs draft) (env.floats.literal 1 0) ≡ true
  unfolding grounding
  grounding-le_one [] draft total low = low
  grounding-le_one (r ∷ rs) draft total low =
      let c =
        env.floats.round
          (env.floats.add (env.floats.mul (env.floats.literal 5 1) (top_score env r.score rs))
            (env.floats.mul (env.floats.literal 5 1) (overlap_of env (r ∷ rs) draft)))
          6 in
      capped c (Bool-cases (env.floats.le (env.floats.literal 1 0) c))
    where
      capped :
          (c : F)
          → (env.floats.le (env.floats.literal 1 0) c ≡ true)
            ⊎ (env.floats.le (env.floats.literal 1 0) c ≡ false)
          → env.floats.le
              (if env.floats.le (env.floats.literal 1 0) c then env.floats.literal 1 0 else c)
              (env.floats.literal 1 0)
            ≡ true
      capped c (inl e) =
          rw e (elim (total (env.floats.literal 1 0) (env.floats.literal 1 0)) [
            | inl p ↦ p
            | inr p ↦ p
          ])
      capped c (inr e) =
          rw e (elim (total (env.floats.literal 1 0) c) [ inl p ↦ absurd cc | inr p ↦ p ])
