-- ===== src/Agent/Classifier.antt =====
-- agent/nodes.py: the keyword taxonomy and `classifier_node`.
pub mod Laws
use agentdesk_ai.Base.{
  ℕ, ◌||◌, Bool, true, false, some, or_default, List, [], ◌∷◌, map, String, ◌<>◌, ltb, ◌==◌,
  if◌then◌else◌,
}
use agentdesk_ai.Models.Records.{Json, Members, int, str, obj, member, end}
use agentdesk_ai.Words.{Word, codes, tokens, common}
use agentdesk_ai.Agent.State.{AgentState}

abbrev words_of : List String → List Word
words_of = map codes

-- `_TYPE_KEYWORDS`, whose order decides between equal scores
abbrev pub type_keywords : List (String × List Word)
type_keywords =
    (
      "billing",
      words_of
          ("billing" ∷ "invoice" ∷ "payment" ∷ "refund" ∷ "charge" ∷ "subscription" ∷ "price" ∷ []),
    )
    ∷ (
      "technical",
      words_of
          ("error" ∷ "bug" ∷ "crash" ∷ "broken" ∷ "fail" ∷ "login" ∷ "password" ∷ "reset" ∷ []),
    )
    ∷ (
      "account",
      words_of ("account" ∷ "profile" ∷ "settings" ∷ "email" ∷ "username" ∷ "permission" ∷ []),
    )
    ∷ []

-- `_URGENT_WORDS`
abbrev pub urgent_words : List Word
urgent_words = words_of ("urgent" ∷ "asap" ∷ "immediately" ∷ "critical" ∷ "outage" ∷ "down" ∷ [])

-- `{t: len(toks & kws) for t, kws in _TYPE_KEYWORDS.items()}`
unfoldable pub scores_of : List Word → List (String × List Word) → List (String × ℕ)
unfolding common
scores_of toks [] = []
scores_of toks ((t, kws) ∷ rest) = (t, common kws toks) ∷ scores_of toks rest

-- `any(scores.values())`
unfoldable pub any_hit : List (String × ℕ) → Bool
any_hit [] = false
any_hit ((t, n) ∷ rest) = ltb 0 n || any_hit rest

-- `max(scores, key=…)`: the first of the largest.
unfoldable pub max_from : String × ℕ → List (String × ℕ) → String × ℕ
max_from best [] = best
max_from best (x ∷ rest) = max_from (if ltb best.1 x.1 then x else best) rest

unfoldable pub best_type : List (String × ℕ) → String
unfolding any_hit max_from
best_type [] = "general"
best_type (x ∷ rest) = if any_hit (x ∷ rest) then (max_from x rest).0 else "general"

unfoldable pub priority_of_words : List Word → String
unfolding common
priority_of_words toks = if common urgent_words toks == 0 then "medium" else "urgent"

abbrev signals : {F : Type 0} → List (String × ℕ) → Members F
signals [] = end
signals ((t, n) ∷ rest) = member t (int n) (signals rest)

abbrev pub full_text : {F : Type 0} → AgentState F → String
full_text state =
    or_default state.ticket_title "" <> (" " <> or_default state.ticket_description "")

-- `classifier_node`
unfoldable pub classify : {F : Type 0} → AgentState F → AgentState F
unfolding tokens scores_of best_type priority_of_words
classify state =
    let toks = tokens (full_text state) in
    let scores = scores_of toks type_keywords in
    let best = best_type scores in
    record state {
      classification =
          some (obj (member "type" (str best) (member "signals" (obj (signals scores)) end)));
      suggested_type = some best;
      suggested_priority = some (priority_of_words toks);
    }
