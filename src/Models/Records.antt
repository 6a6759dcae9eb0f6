-- ===== src/Models/Records.antt =====
-- The other tables of backend/app/models. `F` is the type of Python's floats.
use agentdesk_ai.Base.{ℕ, Bool, Option, List, String}
use agentdesk_ai.Models.Ticket.{TicketStatus}

-- What `json.dumps` is given: the values of the columns of type JSON.
mutual
  pub data Json (F : Type 0) : Type 0 where
    null : Json F
    bool : Bool → Json F
    int : ℕ → Json F
    float : F → Json F
    str : String → Json F
    obj : Members F → Json F

  pub data Members (F : Type 0) : Type 0 where
    end : Members F
    member : String → Json F → Members F → Members F

-- models/ticket_event.py
pub record TicketEvent : Type 0 where
  pub id : ℕ
  pub ticket_id : ℕ
  pub organization_id : ℕ
  pub event_type : String
  pub from_status : Option TicketStatus
  pub to_status : Option TicketStatus
  pub actor_user_id : Option ℕ
  pub message : Option String
  pub created_at : ℕ

-- models/audit_log.py
pub data AuditEvent : Type 0 where
  ticket_created agent_run_started retrieval_completed draft_generated : AuditEvent
  response_approved response_rejected ticket_escalated webhook_sent : AuditEvent
  login_success login_failed : AuditEvent

pub record AuditLog (F : Type 0) : Type 0 where
  pub id : ℕ
  pub organization_id : Option ℕ
  pub actor_user_id : Option ℕ
  pub event : AuditEvent
  pub target_type : Option String
  pub target_id : Option String
  pub meta : Option (Json F)
  pub created_at : ℕ

-- models/agent_run.py
pub data AgentRunStatus : Type 0 where
  running completed failed : AgentRunStatus

pub data AgentRunOutcome : Type 0 where
  waiting_approval escalated : AgentRunOutcome

pub record AgentRun (F : Type 0) : Type 0 where
  pub id : ℕ
  pub ticket_id : ℕ
  pub organization_id : ℕ
  pub status : AgentRunStatus
  pub classification : Option (Json F)
  pub retrieved_chunk_ids : Option (List ℕ)
  pub retrieval_hit : Bool
  pub draft : Option String
  pub confidence : Option F
  pub outcome : Option AgentRunOutcome
  pub latency_ms : Option ℕ
  pub estimated_cost_usd : Option F
  pub prompt_tokens : Option ℕ
  pub completion_tokens : Option ℕ
  pub error : Option String
  pub finished_at : Option ℕ
  pub created_at : ℕ

-- models/webhook.py
pub record Webhook : Type 0 where
  pub id : ℕ
  pub organization_id : ℕ
  pub url : String
  pub secret : String
  pub is_active : Bool
  pub created_at : ℕ

-- models/webhook_delivery.py
pub data DeliveryStatus : Type 0 where
  pending success failed : DeliveryStatus

pub record WebhookDelivery (F : Type 0) : Type 0 where
  pub id : ℕ
  pub webhook_id : ℕ
  pub organization_id : ℕ
  pub event : String
  pub payload : Json F
  pub status : DeliveryStatus
  pub attempts : ℕ
  pub last_status_code : Option ℕ
  pub last_error : Option String
  pub created_at : ℕ

-- models/organization.py
pub record Organization : Type 0 where
  pub id : ℕ
  pub name : String

-- models/user.py
pub data Role : Type 0 where
  admin operator viewer : Role

pub record User : Type 0 where
  pub id : ℕ
  pub organization_id : ℕ
  pub email : String
  pub hashed_password : String
  pub role : Role
  pub is_active : Bool
  pub created_at : ℕ

-- models/document_chunk.py
pub record DocumentChunk (F : Type 0) : Type 0 where
  pub id : ℕ
  pub organization_id : ℕ
  pub document_id : ℕ
  pub chunk_index : ℕ
  pub content : String
  pub embedding : List F

pub data DocumentSource : Type 0 where
  manual upload : DocumentSource

pub record Document : Type 0 where
  pub id : ℕ
  pub organization_id : ℕ
  pub title : String
  pub source_type : DocumentSource
  pub content : String
  pub created_by : Option ℕ
  pub created_at : ℕ
