-- ===== src/Session/Own.antt =====
-- The database of one organization alone, and what the keys between the tables have to say for it.
use agentdesk_ai.Base.{ℕ, ◌≡◌, [], All, ◌==◌, select}
use agentdesk_ai.Session.State.{Db, Session}
use agentdesk_ai.Session.Rows.{ticket_row}
use agentdesk_ai.Session.Selected.{HasKeys}

module _ {F : Type 0} (organization_id : ℕ) where
  -- The rows of the organization. The audit log, which no answer reads, is left out.
  abbrev pub own : Db F → Db F
  own db = record {
    organizations = select (λ o. o.id == organization_id) db.organizations;
    users = select (λ u. u.organization_id == organization_id) db.users;
    tickets = select (λ t. t.organization_id == organization_id) db.tickets;
    ticket_events = select (λ e. e.organization_id == organization_id) db.ticket_events;
    agent_runs = select (λ r. r.organization_id == organization_id) db.agent_runs;
    audit_logs = [];
    webhooks = select (λ w. w.organization_id == organization_id) db.webhooks;
    webhook_deliveries = select (λ d. d.organization_id == organization_id) db.webhook_deliveries;
    documents = select (λ d. d.organization_id == organization_id) db.documents;
    document_chunks = select (λ c. c.organization_id == organization_id) db.document_chunks;
  }

  -- No two tickets have one key, and the events of its tickets and the chunks of its documents are
  -- the organization's.
  pub record IsFiled (db : Db F) : Type 0 where
    pub keys : HasKeys db.tickets
    pub events :
        All
          (λ t.
            t.organization_id ≡ organization_id
            → All (λ e. e.ticket_id ≡ t.id → e.organization_id ≡ organization_id) db.ticket_events)
          db.tickets
    pub chunks :
        All
          (λ d.
            d.organization_id ≡ organization_id
            → All
                (λ c. c.document_id ≡ d.id → c.organization_id ≡ organization_id)
                db.document_chunks)
          db.documents

  -- The session with the rows of the organization alone.
  abbrev pub alone : Session F → Session F
  alone s = record s { working = own s.working }
