-- ===== src/Webhooks/Signing/Laws.antt =====
-- What a receiver can check.
use agentdesk_ai.Base.{ℕ, ◌≡◌, ◌↔◌, true, refl, sym, String, ◌<>◌, eq_iff}
use agentdesk_ai.Models.Records.{Webhook, WebhookDelivery}
use agentdesk_ai.Session.{Env}
use agentdesk_ai.Json.{dumps}
use agentdesk_ai.Webhooks.Signing.{serialize_payload, sign, verify, request_for}

module _ {F : Type 0} (env : Env F) where
  -- A signature is accepted exactly if it is the one that `sign` makes for the secret and the body.
  pub verify_lem :
      (secret body signature : String)
      → (verify env secret body signature ≡ true) ↔ (signature ≡ sign env secret body)
  unfolding verify
  verify_lem secret body signature =
      let same = eq_iff (sign env secret body) signature in
      (λ p. sym (same.0 p), λ p. same.1 (sym p))

  -- Of all signatures a receiver accepts, for the content of a request that is sent, exactly one:
  -- `sha256=` and the HMAC of that content under the webhook's secret; it is the one that the request
  -- carries, and the content is the JSON text of the delivery's payload.
  pub request_for-verify :
      (d : WebhookDelivery F) (w : Webhook) (now : ℕ)
      → let request = request_for env d w now in
        let hmac = "sha256=" <> env.hmac_sha256 w.secret request.content in
        ((signature : String)
          → (verify env w.secret request.content signature ≡ true) ↔ (signature ≡ hmac))
        × (request.signature ≡ hmac)
        × (request.content ≡ dumps env.str_float d.payload)
  unfolding request_for sign serialize_payload
  request_for-verify d w now =
      (λ signature. verify_lem w.secret (serialize_payload env d.payload) signature, refl, refl)
