-- ===== src/Audit/Effects.antt =====
-- services/audit_service.py: what an audit entry does to the tables.
use agentdesk_ai.Base.{ℕ, Bool, true, false, Option, refl, [], ◌∷◌, ◌++◌, String}
use agentdesk_ai.Models.Records.{AuditEvent, AuditLog, Json}
use agentdesk_ai.Session.{Env, write}
use agentdesk_ai.Session.Quiet.{IsQuiet, IsQuiet-write, quiet_rules}
use agentdesk_ai.Audit.{record_event, commit_if}

module _ {F : Type 0} (env : Env F) where
  IsQuiet-commit_if : (b : Bool) → IsQuiet (commit_if env b)
  IsQuiet-commit_if true = search quiet_rules
  IsQuiet-commit_if false = search quiet_rules

  IsQuiet-add_entry :
      (entry : AuditLog F)
      → IsQuiet (write λ db. record db { audit_logs = db.audit_logs ++ (entry ∷ []) })
  IsQuiet-add_entry entry = IsQuiet-write _ (λ db. refl) (λ db. refl) (λ db. (entry ∷ [], refl))

  pub IsQuiet-record_event :
      (event : AuditEvent) (organization_id actor : Option ℕ) (target_type : Option String)
      (target : Option ℕ) (meta : Option (Json F)) (commits : Bool)
      → IsQuiet (record_event env event organization_id actor target_type target meta commits)
  unfolding record_event
  IsQuiet-record_event event organization_id actor target_type target meta commits =
      search (quiet_rules, IsQuiet-add_entry, IsQuiet-commit_if) depth 12
