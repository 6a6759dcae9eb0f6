-- ===== src/Webhooks/Signing.antt =====
-- webhook_service.py: the payload, its serialization, and the signature over the exact body.
pub mod Laws
use agentdesk_ai.Base.{ℕ, Bool, Option, none, some, String, ◌<>◌, str_eq}
use agentdesk_ai.Models.Ticket.{Ticket, status_value, priority_value}
use agentdesk_ai.Models.Records.{Json, null, str, obj, member, end, Webhook, WebhookDelivery}
use agentdesk_ai.Session.{Env, Request}
use agentdesk_ai.Json.{dumps}

module _ {F : Type 0} (env : Env F) where
  unfoldable pub serialize_payload : Json F → String
  unfolding dumps
  serialize_payload payload = dumps env.str_float payload

  unfoldable pub sign : String → String → String
  sign secret body = "sha256=" <> env.hmac_sha256 secret body

  -- `hmac.compare_digest`: equality, in constant time
  unfoldable pub verify : String → String → String → Bool
  unfolding sign
  verify secret body signature = str_eq (sign secret body) signature

  abbrev str_or_null : Option String → Json F
  str_or_null none = null
  str_or_null (some s) = str s

  unfoldable pub build_ticket_payload : Ticket → String → ℕ → ℕ → Json F
  unfolding status_value priority_value
  build_ticket_payload ticket event delivery_id now =
      let body : Json F = obj (
        member "id" (str (env.str_id ticket.id)) (
          member "title" (str ticket.title) (
            member "status" (str (status_value ticket.status)) (
              member "priority" (str (priority_value ticket.priority)) (
                member "final_response" (str_or_null ticket.final_response)
                  (member "updated_at" (str (env.isoformat ticket.updated_at)) end)))))) in
      obj (
        member "event" (str event) (
          member "delivery_id" (str (env.str_id delivery_id)) (
            member "organization_id" (str (env.str_id ticket.organization_id))
              (member "ticket" body (member "sent_at" (str (env.isoformat now)) end)))))

  unfoldable pub request_for : WebhookDelivery F → Webhook → ℕ → Request
  unfolding serialize_payload sign
  request_for d webhook now =
      let body = serialize_payload d.payload in
      record {
        url = webhook.url;
        content = body;
        event = d.event;
        timestamp = now;
        signature = sign webhook.secret body;
      }
