-- ===== src/Audit.antt =====
-- backend/app/services/audit_service.py
pub mod Effects
use agentdesk_ai.Base.{map_option, ℕ, Bool, true, false, Option, [], ◌∷◌, ◌++◌, String}
use agentdesk_ai.Models.Records.{AuditEvent, AuditLog, Json}
use agentdesk_ai.Session.{Env, Exec, pure, fresh_id, get_now, write, commit, ◌>>=◌, ◌>>◌}

module _ {F : Type 0} (env : Env F) where
  abbrev commit_if : Bool → Exec F (Unit {0})
  commit_if true = commit
  commit_if false = pure tt

  -- `record`: adds the entry, and commits only when it is told to.
  unfoldable pub record_event :
      AuditEvent
      → Option ℕ
      → Option ℕ
      → Option String
      → Option ℕ
      → Option (Json F)
      → Bool
      → Exec F (AuditLog F)
  record_event event organization_id actor_user_id target_type target_id meta commits = do
    id ← fresh_id
    now ← get_now
    let entry : AuditLog F = record {
      id = id;
      organization_id = organization_id;
      actor_user_id = actor_user_id;
      event = event;
      target_type = target_type;
      target_id = map_option env.str_id target_id;
      meta = meta;
      created_at = now;
    }
    write (λ db. record db { audit_logs = db.audit_logs ++ (entry ∷ []) })
    commit_if commits
    pure entry
