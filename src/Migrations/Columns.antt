-- ===== src/Migrations/Columns.antt =====
-- backend/alembic/versions: the enumerations and the columns of the tables.
use agentdesk_ai.Base.{ℕ, Bool, true, false, none, some, List, [], ◌∷◌, String}
use agentdesk_ai.Migrations.{
  ColumnType, uuid, text, timestamp, boolean, integer, double, json, string, vector, enum, Column,
}

-- `sa.Column(name, type, nullable=…)`
abbrev column : String → ColumnType → Bool → Column
column name type nullable = record {
  name = name;
  type = type;
  nullable = nullable;
  primary_key = false;
  unique = false;
  default = none;
  references = none;
}

-- `sa.Column("id", sa.Uuid(), primary_key=True)`
abbrev id_column : Column
id_column = record (column "id" uuid false) { primary_key = true }

abbrev defaulted : String → Column → Column
defaulted value c = record c { default = some value }

abbrev unique_column : Column → Column
unique_column c = record c { unique = true }

abbrev foreign_key : String → String → String → Bool → Column
foreign_key name table ondelete nullable = record (column name uuid nullable) {
  references = some (table, ondelete);
}

abbrev created_at : Column
created_at = defaulted "now()" (column "created_at" timestamp false)

abbrev updated_at : Column
updated_at = defaulted "now()" (column "updated_at" timestamp false)

abbrev pub user_role_values : List String
user_role_values = "admin" ∷ "operator" ∷ "viewer" ∷ []

abbrev pub ticket_status_values : List String
ticket_status_values =
    "new" ∷ "triaged" ∷ "draft_ready" ∷ "waiting_approval" ∷ "approved" ∷ "rejected" ∷ "escalated"
    ∷ "closed" ∷ []

abbrev pub ticket_priority_values : List String
ticket_priority_values = "low" ∷ "medium" ∷ "high" ∷ "urgent" ∷ []

abbrev pub audit_event_values : List String
audit_event_values =
    "ticket_created" ∷ "agent_run_started" ∷ "retrieval_completed" ∷ "draft_generated"
    ∷ "response_approved" ∷ "response_rejected" ∷ "ticket_escalated" ∷ "webhook_sent"
    ∷ "login_success" ∷ "login_failed" ∷ []

abbrev pub document_source_values : List String
document_source_values = "manual" ∷ "upload" ∷ []

abbrev pub agent_run_status_values : List String
agent_run_status_values = "running" ∷ "completed" ∷ "failed" ∷ []

abbrev pub agent_run_outcome_values : List String
agent_run_outcome_values = "waiting_approval" ∷ "escalated" ∷ []

abbrev pub delivery_status_values : List String
delivery_status_values = "pending" ∷ "success" ∷ "failed" ∷ []

abbrev pub organizations_columns : List Column
organizations_columns =
    id_column ∷ unique_column (column "name" (string 255) false) ∷ created_at ∷ updated_at ∷ []

abbrev pub users_columns : List Column
users_columns =
    id_column
    ∷ foreign_key "organization_id" "organizations" "CASCADE" false
    ∷ column "email" (string 320) false
    ∷ column "hashed_password" (string 255) false
    ∷ column "role" (enum "user_role") false
    ∷ defaulted "true" (column "is_active" boolean false)
    ∷ created_at
    ∷ updated_at
    ∷ []

abbrev pub tickets_columns : List Column
tickets_columns =
    id_column
    ∷ foreign_key "organization_id" "organizations" "CASCADE" false
    ∷ column "title" (string 255) false
    ∷ column "description" text false
    ∷ column "priority" (enum "ticket_priority") false
    ∷ column "status" (enum "ticket_status") false
    ∷ column "suggested_type" (string 100) true
    ∷ column "suggested_priority" (enum "ticket_priority") true
    ∷ column "draft_response" text true
    ∷ column "final_response" text true
    ∷ foreign_key "created_by" "users" "SET NULL" true
    ∷ created_at
    ∷ updated_at
    ∷ []

abbrev pub ticket_events_columns : List Column
ticket_events_columns =
    id_column
    ∷ foreign_key "ticket_id" "tickets" "CASCADE" false
    ∷ foreign_key "organization_id" "organizations" "CASCADE" false
    ∷ column "event_type" (string 50) false
    ∷ column "from_status" (enum "ticket_status") true
    ∷ column "to_status" (enum "ticket_status") true
    ∷ foreign_key "actor_user_id" "users" "SET NULL" true
    ∷ column "message" text true
    ∷ created_at
    ∷ updated_at
    ∷ []

abbrev pub audit_logs_columns : List Column
audit_logs_columns =
    id_column
    ∷ foreign_key "organization_id" "organizations" "CASCADE" true
    ∷ foreign_key "actor_user_id" "users" "SET NULL" true
    ∷ column "event" (enum "audit_event") false
    ∷ column "target_type" (string 50) true
    ∷ column "target_id" (string 100) true
    ∷ column "meta" json true
    ∷ created_at
    ∷ updated_at
    ∷ []

abbrev pub documents_columns : List Column
documents_columns =
    id_column
    ∷ foreign_key "organization_id" "organizations" "CASCADE" false
    ∷ column "title" (string 255) false
    ∷ column "source_type" (enum "document_source") false
    ∷ column "content" text false
    ∷ foreign_key "created_by" "users" "SET NULL" true
    ∷ created_at
    ∷ updated_at
    ∷ []

abbrev pub document_chunks_columns : ℕ → List Column
document_chunks_columns embedding_dim =
    id_column
    ∷ foreign_key "organization_id" "organizations" "CASCADE" false
    ∷ foreign_key "document_id" "documents" "CASCADE" false
    ∷ column "chunk_index" integer false
    ∷ column "content" text false
    ∷ column "embedding" (vector embedding_dim) false
    ∷ created_at
    ∷ updated_at
    ∷ []

abbrev pub agent_runs_columns : List Column
agent_runs_columns =
    id_column
    ∷ foreign_key "ticket_id" "tickets" "CASCADE" false
    ∷ foreign_key "organization_id" "organizations" "CASCADE" false
    ∷ column "status" (enum "agent_run_status") false
    ∷ column "classification" json true
    ∷ column "retrieved_chunk_ids" json true
    ∷ defaulted "false" (column "retrieval_hit" boolean false)
    ∷ column "draft" text true
    ∷ column "confidence" double true
    ∷ column "outcome" (enum "agent_run_outcome") true
    ∷ column "latency_ms" integer true
    ∷ column "estimated_cost_usd" double true
    ∷ column "prompt_tokens" integer true
    ∷ column "completion_tokens" integer true
    ∷ column "error" text true
    ∷ column "finished_at" timestamp true
    ∷ created_at
    ∷ updated_at
    ∷ []

abbrev pub webhooks_columns : List Column
webhooks_columns =
    id_column
    ∷ unique_column (foreign_key "organization_id" "organizations" "CASCADE" false)
    ∷ column "url" (string 2048) false
    ∷ column "secret" (string 255) false
    ∷ defaulted "true" (column "is_active" boolean false)
    ∷ created_at
    ∷ updated_at
    ∷ []

abbrev pub webhook_deliveries_columns : List Column
webhook_deliveries_columns =
    id_column
    ∷ foreign_key "webhook_id" "webhooks" "CASCADE" false
    ∷ foreign_key "organization_id" "organizations" "CASCADE" false
    ∷ column "event" (string 50) false
    ∷ column "payload" json false
    ∷ column "status" (enum "delivery_status") false
    ∷ defaulted "0" (column "attempts" integer false)
    ∷ column "last_status_code" integer true
    ∷ column "last_error" text true
    ∷ created_at
    ∷ updated_at
    ∷ []
