-- ===== src/Webhooks/Delivery/Effects.antt =====
-- webhook_service.py: the deliveries, and the tickets and their events.
use agentdesk_ai.Base.{ℕ, Bool, true, false, Option, none, some, refl, List, String}
use agentdesk_ai.Models.Ticket.{Ticket}
use agentdesk_ai.Models.Records.{Webhook, WebhookDelivery}
use agentdesk_ai.Session.{Db, Env, Request, HttpOutcome, write}
use agentdesk_ai.Session.Growth.{Extends-refl}
use agentdesk_ai.Session.Quiet.{IsQuiet, IsQuiet-write, quiet_rules}
use agentdesk_ai.Audit.Effects.{IsQuiet-record_event}
use agentdesk_ai.Webhooks.Config.{get_config}
use agentdesk_ai.Webhooks.Delivery.{
  audit_sent, attempt, deliver_to, deliver_found, deliver_once, dispatch, enqueue_to,
  enqueue_for_ticket,
}

module _ {F : Type 0} where
  IsQuiet-write_deliveries :
      (f : Db F → List (WebhookDelivery F))
      → IsQuiet (write λ db. record db { webhook_deliveries = f db })
  IsQuiet-write_deliveries f =
      IsQuiet-write _ (λ db. refl) (λ db. refl) (λ db. Extends-refl db.audit_logs)

module _ {F : Type 0} (env : Env F) where
  IsQuiet-audit_sent : (b : Bool) (d : WebhookDelivery F) → IsQuiet (audit_sent env b d)
  unfolding audit_sent
  IsQuiet-audit_sent true d = search (quiet_rules, IsQuiet-record_event)
  IsQuiet-audit_sent false d = search quiet_rules

  IsQuiet-attempt :
      (client : Request → HttpOutcome) (w : Webhook) (d : WebhookDelivery F)
      → IsQuiet (attempt env client w d)
  unfolding attempt
  IsQuiet-attempt client w d =
      search (quiet_rules, IsQuiet-write_deliveries, IsQuiet-audit_sent) depth 12

  IsQuiet-deliver_to :
      (client : Request → HttpOutcome) (d : WebhookDelivery F) (w : Option Webhook)
      → IsQuiet (deliver_to env client d w)
  unfolding deliver_to
  IsQuiet-deliver_to client d none = search quiet_rules
  IsQuiet-deliver_to client d (some w) = IsQuiet-attempt client w d

  IsQuiet-deliver_found :
      (client : Request → HttpOutcome) (d : Option (WebhookDelivery F))
      → IsQuiet (deliver_found env client d)
  unfolding deliver_found
  IsQuiet-deliver_found client none = search quiet_rules
  IsQuiet-deliver_found client (some d) = search (quiet_rules, IsQuiet-deliver_to)

  pub IsQuiet-deliver_once :
      (client : Request → HttpOutcome) (key : ℕ) → IsQuiet (deliver_once env client key)
  unfolding deliver_once
  IsQuiet-deliver_once client key = search (quiet_rules, IsQuiet-deliver_found)

  IsQuiet-dispatch : (key : ℕ) → IsQuiet (dispatch env key)
  unfolding dispatch
  IsQuiet-dispatch key = search (quiet_rules, IsQuiet-deliver_once) depth 8

  IsQuiet-enqueue_to :
      (t : Ticket) (event : String) (w : Option Webhook) → IsQuiet (enqueue_to env t event w)
  unfolding enqueue_to
  IsQuiet-enqueue_to t event none = search quiet_rules
  IsQuiet-enqueue_to t event (some w) =
      search (quiet_rules, IsQuiet-write_deliveries, IsQuiet-dispatch) depth 14

  -- Whatever becomes of the webhook, the tickets stay as they are.
  pub IsQuiet-enqueue_for_ticket :
      (t : Ticket) (event : String) → IsQuiet (enqueue_for_ticket env t event)
  unfolding enqueue_for_ticket get_config
  IsQuiet-enqueue_for_ticket t event = search (quiet_rules, IsQuiet-enqueue_to)
