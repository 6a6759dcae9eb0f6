-- ===== src/Migrations/Laws.antt =====
-- The chain of migrations, up and down.
use agentdesk_ai.Base.{ℕ, false, Option, some, List, [], ◌∷◌}
use agentdesk_ai.Migrations.{Schema, ◌>>=◌}
use agentdesk_ai.Migrations.Versions.{
  Revision, enable_pgvector, org_user, tickets_audit, documents, agent_runs, webhooks, upgrade,
}

abbrev empty_schema : Schema
empty_schema = record { has_vector = false; types = []; tables = [] }

-- The revisions before one, by `down_revision`, the nearest first.
abbrev pub predecessors : Revision → List Revision
predecessors enable_pgvector = []
predecessors org_user = enable_pgvector ∷ []
predecessors tickets_audit = org_user ∷ enable_pgvector ∷ []
predecessors documents = tickets_audit ∷ org_user ∷ enable_pgvector ∷ []
predecessors agent_runs = documents ∷ tickets_audit ∷ org_user ∷ enable_pgvector ∷ []
predecessors webhooks = agent_runs ∷ documents ∷ tickets_audit ∷ org_user ∷ enable_pgvector ∷ []

module _ (embedding_dim : ℕ) where
  abbrev pub run_upgrades : List Revision → Option Schema
  run_upgrades [] = some empty_schema
  run_upgrades (r ∷ earlier) = run_upgrades earlier >>= upgrade embedding_dim r

  -- The schema that a revision starts from, in an empty database.
  abbrev pub schema_before : Revision → Option Schema
  schema_before r = run_upgrades (predecessors r)
