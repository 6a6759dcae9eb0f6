-- ===== src/Retrieval/Effects.antt =====
-- services/retrieval_service.py: what a search does with the session.
use agentdesk_ai.Base.{ℕ, Option, List, [], ◌∷◌, String}
use agentdesk_ai.Session.{Env, Answer, answer, failure}
use agentdesk_ai.Session.Quiet.{IsQuiet}
use agentdesk_ai.Session.ReadOnly.{IsReadOnly, IsReadOnly-IsQuiet, read_rules}
use agentdesk_ai.Retrieval.{from_provider, first_vector, search_chunks}

module _ {F : Type 0} (env : Env F) where
  pub IsReadOnly-from_provider : {A : Type 0} (a : Answer A) → IsReadOnly (from_provider env a)
  IsReadOnly-from_provider (answer a) = search read_rules
  IsReadOnly-from_provider (failure text) = search read_rules

  IsReadOnly-first_vector : (vs : List (List F)) → IsReadOnly (first_vector env vs)
  unfolding first_vector
  IsReadOnly-first_vector [] = search read_rules
  IsReadOnly-first_vector (v ∷ vs) = search read_rules

  pub IsReadOnly-search_chunks :
      (organization_id : ℕ) (text : String) (threshold : Option F) (top_k : Option ℕ)
      → IsReadOnly (search_chunks env organization_id text threshold top_k)
  unfolding search_chunks
  IsReadOnly-search_chunks organization_id text threshold top_k =
      search (read_rules, IsReadOnly-from_provider, IsReadOnly-first_vector) depth 8

  pub IsQuiet-from_provider : {A : Type 0} (a : Answer A) → IsQuiet (from_provider env a)
  IsQuiet-from_provider a = IsReadOnly-IsQuiet _ (IsReadOnly-from_provider a)
