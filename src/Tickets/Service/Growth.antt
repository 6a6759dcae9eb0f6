-- ===== src/Tickets/Service/Growth.antt =====
-- services/ticket_service.py and the audit log.
use agentdesk_ai.Base.{ℕ, Bool, Option, String}
use agentdesk_ai.Models.Ticket.{Ticket, TicketStatus, TicketPriority}
use agentdesk_ai.Session.{Env}
use agentdesk_ai.Session.Growth.{Appends, Appends-bind, Appends-same, append_rules}
use agentdesk_ai.Session.Quiet.{IsQuiet-Appends}
use agentdesk_ai.Audit.Effects.{IsQuiet-record_event}
use agentdesk_ai.Webhooks.Delivery.Effects.{IsQuiet-enqueue_for_ticket}
use agentdesk_ai.Tickets.Service.Reads.{IsReadOnly-get_ticket}
use agentdesk_ai.Tickets.Service.{
  get_ticket, insert_ticket, edit_draft, finish_create, create_ticket, finish_approval, approve,
  reject,
}
use agentdesk_ai.Tickets.Transition.{transition}

module _ {F : Type 0} where
  pub Appends-get_ticket :
      (organization_id ticket_id : ℕ) → Appends {F = F} (get_ticket organization_id ticket_id)
  Appends-get_ticket organization_id ticket_id =
      Appends-same _ (IsReadOnly-get_ticket organization_id ticket_id).at

  pub Appends-transition :
      (ticket : Ticket) (to_status : TicketStatus) (actor : Option ℕ) (event_type : String)
      (message : Option String)
      → Appends {F = F} (transition ticket to_status actor event_type message)
  unfolding transition
  Appends-transition ticket to_status actor event_type message = search append_rules depth 16

  pub Appends-edit_draft :
      (ticket : Ticket) (actor : ℕ) (content : String)
      → Appends {F = F} (edit_draft ticket actor content)
  unfolding edit_draft
  Appends-edit_draft ticket actor content = search append_rules depth 20

  Appends-insert_ticket :
      (organization_id actor : ℕ) (title description : String) (priority : TicketPriority)
      → Appends {F = F} (insert_ticket organization_id actor title description priority)
  Appends-insert_ticket organization_id actor title description priority =
      search append_rules depth 20

module _ {F : Type 0} (env : Env F) where
  Appends-finish_create : (ticket : Ticket) (actor : ℕ) → Appends (finish_create env ticket actor)
  unfolding finish_create
  Appends-finish_create ticket actor =
      search (append_rules, IsQuiet-Appends, IsQuiet-record_event) depth 12

  pub Appends-create_ticket :
      (organization_id actor : ℕ) (title description : String) (priority : TicketPriority)
      → Appends (create_ticket env organization_id actor title description priority)
  unfolding create_ticket
  Appends-create_ticket organization_id actor title description priority =
      Appends-bind (insert_ticket organization_id actor title description priority) _
        (Appends-insert_ticket organization_id actor title description priority)
        (λ ticket. Appends-finish_create ticket actor)

  Appends-finish_approval :
      (ticket : Ticket) (actor : ℕ) (edited : Bool)
      → Appends (finish_approval env ticket actor edited)
  unfolding finish_approval
  Appends-finish_approval ticket actor edited =
      search (append_rules, IsQuiet-Appends, IsQuiet-record_event, IsQuiet-enqueue_for_ticket) depth
        14

  pub Appends-approve :
      (ticket : Ticket) (actor : ℕ) (edited : Option String)
      → Appends (approve env ticket actor edited)
  unfolding approve
  Appends-approve ticket actor edited =
      search (append_rules, Appends-transition, Appends-finish_approval) depth 14

  pub Appends-reject :
      (ticket : Ticket) (actor : ℕ) (reason : Option String)
      → Appends (reject env ticket actor reason)
  unfolding reject
  Appends-reject ticket actor reason =
      search (append_rules, Appends-transition, IsQuiet-Appends, IsQuiet-record_event) depth 14
