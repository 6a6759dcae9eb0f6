-- ===== src/Webhooks/Delivery/Endings.antt =====
-- webhook_service.deliver_once: what is posted, and how an attempt ends on each outcome.
use agentdesk_ai.Base.{
  suc, none, List, String, ◌<◌, ◌≤◌, ◌⊎◌, leb, if◌then◌else◌, ℕ, ◌≡◌, Bool, true, false, some, [],
  ◌∷◌, ◌++◌,
}
use agentdesk_ai.Models.Records.{
  WebhookDelivery, AuditLog, DeliveryStatus, success, failed, webhook_sent, obj, member, str, int,
  end,
}
use agentdesk_ai.Session.{Session, Env, Result, ok, Request, HttpOutcome, response, raised}
use agentdesk_ai.Session.Rows.{get, webhook_row, delivery_row}

module _ {F : Type 0} (env : Env F) where
  -- The status of a delivery that did not get through: `failed`, once the attempt is the last one.
  abbrev pub unsettled : WebhookDelivery F → DeliveryStatus
  unsettled d = if leb env.webhook_max_retries (suc d.attempts) then failed else d.status

  -- How an attempt ends, by what comes back: the answer, the row, and the audit entries.
  pub data Ending (d : WebhookDelivery F) (s : Session F)
      : HttpOutcome → Bool → WebhookDelivery F → List (AuditLog F) → Type 0 where
    delivered :
        (code : ℕ)
        → 200 ≤ code
        → code < 300
        → Ending d s
            (response code)
            true
            (record d { attempts = suc d.attempts; last_status_code = some code; status = success })
            (record {
              id = s.next_id;
              organization_id = some d.organization_id;
              actor_user_id = none;
              event = webhook_sent;
              target_type = some "webhook_delivery";
              target_id = some (env.str_id d.id);
              meta =
                  some (obj (member "event" (str d.event) (member "status_code" (int code) end)));
              created_at = s.now;
            }
              ∷ [])
    refused :
        (code : ℕ)
        → (code < 200) ⊎ (300 ≤ code)
        → Ending d s
            (response code)
            false
            (record d {
              attempts = suc d.attempts;
              last_status_code = some code;
              status = unsettled d;
            })
            []
    unanswered :
        (text : String)
        → Ending d s
            (raised text)
            false
            (record d { attempts = suc d.attempts; last_error = some text; status = unsettled d })
            []

  -- The session after an attempt: how it ended, what is committed, and what was posted.
  pub record Tried (request : Request) (outcome : HttpOutcome) (key : ℕ) (d : WebhookDelivery F)
      (s : Session F) (r : Result Bool) (t : Session F) : Type 0 where
    pub answer : Bool
    pub row : WebhookDelivery F
    pub entries : List (AuditLog F)
    pub ending : Ending d s outcome answer row entries
    pub answered : r ≡ ok answer
    pub stored : get key t.committed.webhook_deliveries ≡ some row
    pub audited : t.committed.audit_logs ≡ s.committed.audit_logs ++ entries
    pub posted : t.posted ≡ s.posted ++ (request ∷ [])
