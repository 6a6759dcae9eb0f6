-- ===== src/Api/Responses.antt =====
-- schemas/: what a response shows of a row, with the handlers of main.py and HTTPException that give
-- the status of an error.
pub mod Secrets
use agentdesk_ai.Base.{ℕ, Bool, Option, none, some, List, map, map_option, String}
use agentdesk_ai.Models.Ticket.{Ticket, TicketPriority, TicketStatus}
use agentdesk_ai.Models.Records.{
  TicketEvent, AgentRun, AgentRunStatus, AgentRunOutcome, Webhook, WebhookDelivery, DeliveryStatus,
  Role, User,
}
use agentdesk_ai.Session.{
  Env, Error, not_found, invalid_transition, empty_response, conflict, auth_error, value_error,
  external, http, Result, ok, err, Exec,
}

-- schemas/ticket.py
pub record TicketOut : Type 0 where
  pub id : ℕ
  pub organization_id : ℕ
  pub title : String
  pub description : String
  pub priority : TicketPriority
  pub status : TicketStatus
  pub suggested_type : Option String
  pub suggested_priority : Option TicketPriority
  pub draft_response : Option String
  pub final_response : Option String
  pub created_by : Option ℕ
  pub created_at : ℕ
  pub updated_at : ℕ

abbrev pub ticket_out : Ticket → TicketOut
ticket_out t = record {
  id = t.id;
  organization_id = t.organization_id;
  title = t.title;
  description = t.description;
  priority = t.priority;
  status = t.status;
  suggested_type = t.suggested_type;
  suggested_priority = t.suggested_priority;
  draft_response = t.draft_response;
  final_response = t.final_response;
  created_by = t.created_by;
  created_at = t.created_at;
  updated_at = t.updated_at;
}

pub record TicketEventOut : Type 0 where
  pub id : ℕ
  pub ticket_id : ℕ
  pub event_type : String
  pub from_status : Option TicketStatus
  pub to_status : Option TicketStatus
  pub actor_user_id : Option ℕ
  pub message : Option String
  pub created_at : ℕ

abbrev pub event_out : TicketEvent → TicketEventOut
event_out e = record {
  id = e.id;
  ticket_id = e.ticket_id;
  event_type = e.event_type;
  from_status = e.from_status;
  to_status = e.to_status;
  actor_user_id = e.actor_user_id;
  message = e.message;
  created_at = e.created_at;
}

-- schemas/agent.py
pub record AgentRunOut (F : Type 0) : Type 0 where
  pub id : ℕ
  pub ticket_id : ℕ
  pub status : AgentRunStatus
  pub outcome : Option AgentRunOutcome
  pub confidence : Option F
  pub retrieval_hit : Bool
  pub draft : Option String
  pub latency_ms : Option ℕ
  pub estimated_cost_usd : Option F
  pub prompt_tokens : Option ℕ
  pub completion_tokens : Option ℕ
  pub created_at : ℕ
  pub finished_at : Option ℕ

abbrev pub run_out : {F : Type 0} → AgentRun F → AgentRunOut F
run_out r = record {
  id = r.id;
  ticket_id = r.ticket_id;
  status = r.status;
  outcome = r.outcome;
  confidence = r.confidence;
  retrieval_hit = r.retrieval_hit;
  draft = r.draft;
  latency_ms = r.latency_ms;
  estimated_cost_usd = r.estimated_cost_usd;
  prompt_tokens = r.prompt_tokens;
  completion_tokens = r.completion_tokens;
  created_at = r.created_at;
  finished_at = r.finished_at;
}

-- schemas/webhook.py
pub record WebhookOut : Type 0 where
  pub id : ℕ
  pub organization_id : ℕ
  pub url : String
  pub is_active : Bool
  pub created_at : ℕ

abbrev pub webhook_out : Webhook → WebhookOut
webhook_out w = record {
  id = w.id;
  organization_id = w.organization_id;
  url = w.url;
  is_active = w.is_active;
  created_at = w.created_at;
}

pub record WebhookDeliveryOut : Type 0 where
  pub id : ℕ
  pub event : String
  pub status : DeliveryStatus
  pub attempts : ℕ
  pub last_status_code : Option ℕ
  pub last_error : Option String
  pub created_at : ℕ

abbrev pub delivery_out : {F : Type 0} → WebhookDelivery F → WebhookDeliveryOut
delivery_out d = record {
  id = d.id;
  event = d.event;
  status = d.status;
  attempts = d.attempts;
  last_status_code = d.last_status_code;
  last_error = d.last_error;
  created_at = d.created_at;
}

-- schemas/user.py
pub record UserOut : Type 0 where
  pub id : ℕ
  pub organization_id : ℕ
  pub email : String
  pub role : Role
  pub is_active : Bool

abbrev pub user_out : User → UserOut
user_out u = record {
  id = u.id;
  organization_id = u.organization_id;
  email = u.email;
  role = u.role;
  is_active = u.is_active;
}

-- What a client gets: a body, or the status and the detail of an error.
pub data Response (A : Type 0) : Type 0 where
  body : A → Response A
  problem : ℕ → String → Response A

-- `unhandled_exception_handler` of main.py, for all but an HTTPException.
abbrev pub problem_of : {A : Type 0} → Error → Response A
problem_of (http code detail) = problem code detail
problem_of e = problem 500 "Internal server error"

abbrev pub respond : {A B : Type 0} → (A → B) → Result A → Response B
respond f (ok a) = body (f a)
respond f (err e) = problem_of e
