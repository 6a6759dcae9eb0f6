-- ===== src/Api/Routes/Login.antt =====
-- api/v1/auth.py: POST /login, its answer and its entry of the audit log.
use agentdesk_ai.Base.{ℕ, Option, none, String}
use agentdesk_ai.Models.Records.{AuditEvent, AuditLog, Json}
use agentdesk_ai.Session.{Session}

-- The audit entry of a login.
abbrev pub login_entry :
    {F : Type 0} → ℕ → ℕ → AuditEvent → Option ℕ → Option ℕ → Option (Json F) → AuditLog F
login_entry id now event organization_id actor meta = record {
  id = id;
  organization_id = organization_id;
  actor_user_id = actor;
  event = event;
  target_type = none;
  target_id = none;
  meta = meta;
  created_at = now;
}
