-- ===== src/Session/State.antt =====
-- The tables, the session, and what a request sends out. `F` is the type of Python's floats.
use agentdesk_ai.Base.{ℕ, Bool, Option, List, String, ◌<>◌}
use agentdesk_ai.Models.Ticket.{Ticket, TicketStatus, status_value}
use agentdesk_ai.Models.Records.{
  TicketEvent, AuditLog, AgentRun, Webhook, WebhookDelivery, Organization, User, Document,
  DocumentChunk,
}

-- Every table lists its rows in the order of insertion.
pub record Db (F : Type 0) : Type 0 where
  pub organizations : List Organization
  pub users : List User
  pub tickets : List Ticket
  pub ticket_events : List TicketEvent
  pub agent_runs : List (AgentRun F)
  pub audit_logs : List (AuditLog F)
  pub webhooks : List Webhook
  pub webhook_deliveries : List (WebhookDelivery F)
  pub documents : List Document
  pub document_chunks : List (DocumentChunk F)

-- What `.delay` hands to the task queue (backend/app/workers/tasks.py).
pub data Task : Type 0 where
  deliver_webhook run_agent : ℕ → Task

-- A POST of the HTTP client: the address, the body and the three headers of webhook_service.py.
pub record Request : Type 0 where
  pub url : String
  pub content : String
  pub event : String
  pub timestamp : ℕ
  pub signature : String

pub data HttpOutcome : Type 0 where
  response : ℕ → HttpOutcome
  raised : String → HttpOutcome

-- `committed` is what other sessions read; `working` is this session's view, flushed or not.
-- `next_id` stands for `uuid4`: no key is given twice. `now` is the clock of the request.
pub record Session (F : Type 0) : Type 0 where
  pub committed : Db F
  pub working : Db F
  pub next_id : ℕ
  pub now : ℕ
  pub queued : List Task
  pub posted : List Request

-- backend/app/core/config.py, as far as the modelled code reads it.
pub record Settings (F : Type 0) : Type 0 where
  pub access_token_minutes : ℕ
  pub refresh_token_days : ℕ
  pub confidence_threshold : F
  pub similarity_threshold : F
  pub retrieval_top_k : ℕ
  pub agent_run_eager : Bool
  pub webhook_max_retries : ℕ
  pub webhook_backoff_base_seconds : F
  pub webhook_delivery_eager : Bool
  pub webhook_dispatch_enabled : Bool
  pub llm_provider : String
  pub embedding_provider : String
  pub embedding_dim : ℕ
  pub anthropic_api_key : Option String
  pub openai_api_key : Option String
  pub cors_origins : String

-- The operations of Python's floats that the code uses. `literal m k` is the literal m·10⁻ᵏ.
pub record Floats (F : Type 0) : Type 0 where
  pub literal : ℕ → ℕ → F
  pub of_int : ℕ → F
  pub le : F → F → Bool
  pub add : F → F → F
  pub sub : F → F → F
  pub mul : F → F → F
  pub div : F → F → F
  pub sqrt : F → F
  pub sum : List F → F
  pub round : F → ℕ → F

-- `LLMResult` of backend/app/providers/base.py
pub record LlmResult : Type 0 where
  pub text : String
  pub prompt_tokens : ℕ
  pub completion_tokens : ℕ
  pub model : String

-- What a provider answers, or the text of the exception that it raises.
pub data Answer (A : Type 0) : Type 0 where
  answer : A → Answer A
  failure : String → Answer A

-- The interfaces of backend/app/providers/base.py: `complete(prompt, system, context)`, `embed`.
pub record Providers (F : Type 0) : Type 0 where
  pub complete : String → String → String → Answer LlmResult
  pub embed : List String → Answer (List (List F))

-- The claims of a JSON web token, as far as the code reads or writes them.
pub record Claims : Type 0 where
  pub sub : Option String
  pub type : Option String
  pub iat : ℕ
  pub exp : ℕ
  pub org : Option String
  pub role : Option String

-- What the code calls and does not implement: the texts of keys, times and floats, the HMAC, the
-- HTTP client of a new connection, the broker behind `.delay`, which may refuse a task, the milliseconds that a
-- workflow takes, the dialect of the database, its averages, and the operator `<=>` of pgvector.
-- `parse_id` is `uuid.UUID(text)`; `py_lower` and `sql_lower` put a text in lower case; passlib hashes
-- and verifies; `jwt_decode now token` verifies a signature and the expiry at `now`.
pub record Host (F : Type 0) : Type 0 where
  pub str_id : ℕ → String
  pub isoformat : ℕ → String
  pub str_float : F → String
  pub hmac_sha256 : String → String → String
  pub client : Request → HttpOutcome
  pub broker_accepts : Task → Bool
  pub elapsed_ms : ℕ
  pub parse_id : String → Option ℕ
  pub py_lower : String → String
  pub sql_lower : String → String
  pub hash_password : String → String
  pub verify_password : String → String → Bool
  pub jwt_encode : Claims → String
  pub jwt_decode : ℕ → String → Option Claims
  pub is_postgresql : Bool
  pub cosine_distance : List F → List F → F
  pub index_visits : List F → List F → Bool
  pub sql_avg_int : List ℕ → F
  pub sql_avg_float : List F → F

-- The environment of the modelled code.
pub record Env (F : Type 0) : Type 0 where
  pub settings : Settings F
  pub open settings use *
  pub host : Host F
  pub open host use *
  pub floats : Floats F
  pub providers : Providers F

-- The exceptions. `http` is FastAPI's `HTTPException`; `external` is one of a library.
pub data Error : Type 0 where
  not_found : Error
  invalid_transition : TicketStatus → TicketStatus → Error
  empty_response conflict auth_error value_error external : String → Error
  http : ℕ → String → Error

-- `str(exc)`
unfoldable pub message_of : Error → String
message_of not_found = "Ticket not found"
message_of (invalid_transition s t) =
    "Cannot move ticket from " <> (status_value s <> (" to " <> status_value t))
message_of (empty_response m) = m
message_of (conflict m) = m
message_of (auth_error m) = m
message_of (value_error m) = m
message_of (external m) = m
message_of (http code detail) = detail
