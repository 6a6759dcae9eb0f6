-- ===== src/Agent.antt =====
-- backend/app/agent: the state that the nodes pass on, the five nodes, their chain, and the cost.
pub mod State
pub mod Classifier
pub mod Nodes
pub mod Cost
