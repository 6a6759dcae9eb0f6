-- ===== src/Agent/State.antt =====
-- agent/state.py. A key that a node has not set yet is `none`; keys of rows are numbers.
use agentdesk_ai.Base.{ℕ, Bool, Option, List, String}
use agentdesk_ai.Models.Records.{Json}

pub record RetrievedRef (F : Type 0) : Type 0 where
  pub chunk_id : ℕ
  pub document_id : ℕ
  pub content : String
  pub score : F

pub record AgentState (F : Type 0) : Type 0 where
  pub organization_id : ℕ
  pub ticket_title : Option String
  pub ticket_description : Option String
  pub classification : Option (Json F)
  pub suggested_type : Option String
  pub suggested_priority : Option String
  pub retrieved : Option (List (RetrievedRef F))
  pub retrieval_hit : Option Bool
  pub draft : Option String
  pub model : Option String
  pub prompt_tokens : Option ℕ
  pub completion_tokens : Option ℕ
  pub confidence : Option F
  pub outcome : Option String
