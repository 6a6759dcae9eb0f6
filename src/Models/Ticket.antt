-- ===== src/Models/Ticket.antt =====
-- backend/app/models/ticket.py: statuses, priorities, the table of allowed transitions, and the row.
use agentdesk_ai.Base.{ℕ, ◌≡◌, ◌↔◌, Bool, true, false, ◌||◌, Option, List, [], ◌∷◌, String, arith}

pub data TicketStatus : Type 0 where
  new triaged draft_ready waiting_approval approved rejected escalated closed : TicketStatus

pub data TicketPriority : Type 0 where
  low medium high urgent : TicketPriority

abbrev pub status_eq : TicketStatus → TicketStatus → Bool
status_eq new new = true
status_eq triaged triaged = true
status_eq draft_ready draft_ready = true
status_eq waiting_approval waiting_approval = true
status_eq approved approved = true
status_eq rejected rejected = true
status_eq escalated escalated = true
status_eq closed closed = true
status_eq _ _ = false

pub status_eq_iff : (s t : TicketStatus) → (status_eq s t ≡ true) ↔ (s ≡ t)
status_eq_iff s t = ground arith

abbrev pub contains_status : List TicketStatus → TicketStatus → Bool
contains_status [] t = false
contains_status (s ∷ ss) t = status_eq s t || contains_status ss t

-- ALLOWED_TRANSITIONS
unfoldable pub allowed_transitions : TicketStatus → List TicketStatus
allowed_transitions new = triaged ∷ waiting_approval ∷ escalated ∷ closed ∷ []
allowed_transitions triaged = draft_ready ∷ waiting_approval ∷ escalated ∷ closed ∷ []
allowed_transitions draft_ready = waiting_approval ∷ escalated ∷ closed ∷ []
allowed_transitions waiting_approval = approved ∷ rejected ∷ escalated ∷ closed ∷ []
allowed_transitions approved = closed ∷ []
allowed_transitions rejected = draft_ready ∷ waiting_approval ∷ escalated ∷ closed ∷ []
allowed_transitions escalated = waiting_approval ∷ closed ∷ []
allowed_transitions closed = []

unfoldable pub can_transition : TicketStatus → TicketStatus → Bool
unfolding allowed_transitions
can_transition current target = contains_status (allowed_transitions current) target

-- `StrEnum`: the text of a member.
unfoldable pub status_value : TicketStatus → String
status_value new = "new"
status_value triaged = "triaged"
status_value draft_ready = "draft_ready"
status_value waiting_approval = "waiting_approval"
status_value approved = "approved"
status_value rejected = "rejected"
status_value escalated = "escalated"
status_value closed = "closed"

unfoldable pub priority_value : TicketPriority → String
priority_value low = "low"
priority_value medium = "medium"
priority_value high = "high"
priority_value urgent = "urgent"

-- Keys are numbers, and so are times.
pub record Ticket : Type 0 where
  pub id : ℕ
  pub organization_id : ℕ
  pub title : String
  pub description : String
  pub priority : TicketPriority
  pub status : TicketStatus
  pub suggested_type : Option String
  pub suggested_priority : Option TicketPriority
  pub draft_response : Option String
  pub final_response : Option String
  pub created_by : Option ℕ
  pub created_at : ℕ
  pub updated_at : ℕ
