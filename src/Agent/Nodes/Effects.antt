-- ===== src/Agent/Nodes/Effects.antt =====
-- agent/nodes.py and agent/graph.py: what the nodes do with the session.
use agentdesk_ai.Session.{Env}
use agentdesk_ai.Session.Quiet.{IsQuiet}
use agentdesk_ai.Session.ReadOnly.{IsReadOnly, IsReadOnly-IsQuiet, read_rules}
use agentdesk_ai.Retrieval.Effects.{IsReadOnly-search_chunks, IsReadOnly-from_provider}
use agentdesk_ai.Agent.State.{AgentState}
use agentdesk_ai.Agent.Nodes.{retriever_node, draft_node, run_workflow}

module _ {F : Type 0} (env : Env F) where
  IsReadOnly-retriever_node : (state : AgentState F) → IsReadOnly (retriever_node env state)
  unfolding retriever_node
  IsReadOnly-retriever_node state = search (read_rules, IsReadOnly-search_chunks) depth 8

  IsReadOnly-draft_node : (state : AgentState F) → IsReadOnly (draft_node env state)
  unfolding draft_node
  IsReadOnly-draft_node state = search (read_rules, IsReadOnly-from_provider) depth 8

  pub IsReadOnly-run_workflow : (state : AgentState F) → IsReadOnly (run_workflow env state)
  unfolding run_workflow
  IsReadOnly-run_workflow state =
      search (read_rules, IsReadOnly-retriever_node, IsReadOnly-draft_node) depth 8

  pub IsQuiet-run_workflow : (state : AgentState F) → IsQuiet (run_workflow env state)
  IsQuiet-run_workflow state = IsReadOnly-IsQuiet _ (IsReadOnly-run_workflow state)
