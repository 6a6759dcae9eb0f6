-- ===== src/Migrations/Versions.antt =====
-- backend/alembic/versions, 0001 to 0006: `upgrade` and `downgrade` of each revision.
use agentdesk_ai.Base.{ℕ, [], ◌∷◌}
use agentdesk_ai.Migrations.{
  Step, ◌>>◌, create_extension, drop_extension, create_type, create_new_type, drop_type,
  create_table, drop_table, create_index, drop_index,
}
use agentdesk_ai.Migrations.Columns.{
  user_role_values, ticket_status_values, ticket_priority_values, audit_event_values,
  document_source_values, agent_run_status_values, agent_run_outcome_values, delivery_status_values,
  organizations_columns, users_columns, tickets_columns, ticket_events_columns, audit_logs_columns,
  documents_columns, document_chunks_columns, agent_runs_columns, webhooks_columns,
  webhook_deliveries_columns,
}

unfoldable pub enable_pgvector_upgrade : Step
unfolding create_extension
enable_pgvector_upgrade = create_extension

unfoldable pub org_user_upgrade : Step
unfolding create_new_type create_table create_index
org_user_upgrade =
    create_table "organizations" organizations_columns []
    >> create_new_type "user_role" user_role_values
    >> create_table "users" users_columns
        (("uq_user_org_email", "organization_id" ∷ "email" ∷ []) ∷ [])
    >> create_index "ix_users_organization_id" "users" ("organization_id" ∷ []) "btree"
    >> create_index "ix_users_email" "users" ("email" ∷ []) "btree"

unfoldable pub tickets_audit_upgrade : Step
unfolding create_type create_table create_index
tickets_audit_upgrade =
    create_type "ticket_status" ticket_status_values
    >> create_type "ticket_priority" ticket_priority_values
    >> create_type "audit_event" audit_event_values
    >> create_table "tickets" tickets_columns []
    >> create_index "ix_tickets_organization_id" "tickets" ("organization_id" ∷ []) "btree"
    >> create_index "ix_tickets_org_status" "tickets" ("organization_id" ∷ "status" ∷ []) "btree"
    >> create_table "ticket_events" ticket_events_columns []
    >> create_index "ix_ticket_events_ticket_id" "ticket_events" ("ticket_id" ∷ []) "btree"
    >> create_index "ix_ticket_events_organization_id" "ticket_events" ("organization_id" ∷ [])
        "btree"
    >> create_table "audit_logs" audit_logs_columns []
    >> create_index "ix_audit_logs_organization_id" "audit_logs" ("organization_id" ∷ []) "btree"
    >> create_index "ix_audit_logs_event" "audit_logs" ("event" ∷ []) "btree"
    >> create_index "ix_audit_logs_org_created" "audit_logs" ("organization_id" ∷ "created_at" ∷ [])
        "btree"

unfoldable pub documents_upgrade : ℕ → Step
unfolding create_type create_table create_index
documents_upgrade embedding_dim =
    create_type "document_source" document_source_values
    >> create_table "documents" documents_columns []
    >> create_index "ix_documents_organization_id" "documents" ("organization_id" ∷ []) "btree"
    >> create_table "document_chunks" (document_chunks_columns embedding_dim) []
    >> create_index "ix_document_chunks_organization_id" "document_chunks" ("organization_id" ∷ [])
        "btree"
    >> create_index "ix_document_chunks_document_id" "document_chunks" ("document_id" ∷ []) "btree"
    >> create_index "ix_document_chunks_embedding_cosine" "document_chunks" ("embedding" ∷ [])
        "ivfflat"

unfoldable pub agent_runs_upgrade : Step
unfolding create_type create_table create_index
agent_runs_upgrade =
    create_type "agent_run_status" agent_run_status_values
    >> create_type "agent_run_outcome" agent_run_outcome_values
    >> create_table "agent_runs" agent_runs_columns []
    >> create_index "ix_agent_runs_ticket_id" "agent_runs" ("ticket_id" ∷ []) "btree"
    >> create_index "ix_agent_runs_organization_id" "agent_runs" ("organization_id" ∷ []) "btree"
    >> create_index "ix_agent_runs_org_created" "agent_runs" ("organization_id" ∷ "created_at" ∷ [])
        "btree"

unfoldable pub webhooks_upgrade : Step
unfolding create_type create_table create_index
webhooks_upgrade =
    create_type "delivery_status" delivery_status_values
    >> create_table "webhooks" webhooks_columns []
    >> create_index "ix_webhooks_organization_id" "webhooks" ("organization_id" ∷ []) "btree"
    >> create_table "webhook_deliveries" webhook_deliveries_columns []
    >> create_index "ix_webhook_deliveries_webhook_id" "webhook_deliveries" ("webhook_id" ∷ [])
        "btree"
    >> create_index "ix_webhook_deliveries_organization_id" "webhook_deliveries"
        ("organization_id" ∷ []) "btree"

unfoldable pub enable_pgvector_downgrade : Step
unfolding drop_extension
enable_pgvector_downgrade = drop_extension

unfoldable pub org_user_downgrade : Step
unfolding drop_type drop_table drop_index
org_user_downgrade =
    drop_index "ix_users_email" "users"
    >> drop_index "ix_users_organization_id" "users"
    >> drop_table "users"
    >> drop_table "organizations"
    >> drop_type "user_role"

unfoldable pub tickets_audit_downgrade : Step
unfolding drop_type drop_table
tickets_audit_downgrade =
    drop_table "audit_logs"
    >> drop_table "ticket_events"
    >> drop_table "tickets"
    >> drop_type "audit_event"
    >> drop_type "ticket_priority"
    >> drop_type "ticket_status"

unfoldable pub documents_downgrade : Step
unfolding drop_type drop_table drop_index
documents_downgrade =
    drop_index "ix_document_chunks_embedding_cosine" "document_chunks"
    >> drop_table "document_chunks"
    >> drop_table "documents"
    >> drop_type "document_source"

unfoldable pub agent_runs_downgrade : Step
unfolding drop_type drop_table
agent_runs_downgrade =
    drop_table "agent_runs" >> drop_type "agent_run_outcome" >> drop_type "agent_run_status"

unfoldable pub webhooks_downgrade : Step
unfolding drop_type drop_table
webhooks_downgrade =
    drop_table "webhook_deliveries" >> drop_table "webhooks" >> drop_type "delivery_status"

-- The revisions, in the order of `down_revision`.
pub data Revision : Type 0 where
  enable_pgvector org_user tickets_audit documents agent_runs webhooks : Revision

unfoldable pub upgrade : ℕ → Revision → Step
unfolding enable_pgvector_upgrade org_user_upgrade tickets_audit_upgrade documents_upgrade
    agent_runs_upgrade webhooks_upgrade
upgrade embedding_dim enable_pgvector = enable_pgvector_upgrade
upgrade embedding_dim org_user = org_user_upgrade
upgrade embedding_dim tickets_audit = tickets_audit_upgrade
upgrade embedding_dim documents = documents_upgrade embedding_dim
upgrade embedding_dim agent_runs = agent_runs_upgrade
upgrade embedding_dim webhooks = webhooks_upgrade

unfoldable pub downgrade : ℕ → Revision → Step
unfolding enable_pgvector_downgrade org_user_downgrade tickets_audit_downgrade documents_downgrade
    agent_runs_downgrade webhooks_downgrade
downgrade embedding_dim enable_pgvector = enable_pgvector_downgrade
downgrade embedding_dim org_user = org_user_downgrade
downgrade embedding_dim tickets_audit = tickets_audit_downgrade
downgrade embedding_dim documents = documents_downgrade
downgrade embedding_dim agent_runs = agent_runs_downgrade
downgrade embedding_dim webhooks = webhooks_downgrade
