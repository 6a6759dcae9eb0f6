-- ===== src/Tickets/Service/Stability.antt =====
-- services/ticket_service.py and the stable predicates of the tickets and their events.
use agentdesk_ai.Base.{ℕ, ◌≡◌, Bool, Option, String}
use agentdesk_ai.Models.Ticket.{Ticket, TicketStatus, TicketPriority}
use agentdesk_ai.Session.{Env}
use agentdesk_ai.Session.Quiet.{IsQuiet-raise_if, IsQuiet-commit, quiet_rules}
use agentdesk_ai.Audit.Effects.{IsQuiet-record_event}
use agentdesk_ai.Webhooks.Delivery.Effects.{IsQuiet-enqueue_for_ticket}
use agentdesk_ai.Tickets.Stable.{
  Preserves-if, Tables, Stable, Preserves, Preserves-quiet, Preserves-bind, Preserves-change,
  Preserves-add, Preserves-note,
}
use agentdesk_ai.Tickets.Service.{
  insert_ticket, edit_draft, finish_create, create_ticket, finish_approval, approve, reject,
}
use agentdesk_ai.Tickets.Transition.{add_event, transition}

pub ruleset calm_rules = (Preserves-bind, Preserves-quiet, quiet_rules)

module _ {F : Type 0} {organization_id : ℕ} {I : Tables} {Owned : ℕ → Type 0}
    (stable : Stable organization_id I Owned) where
  Preserves-add_event :
      (ticket : Ticket) (event_type : String) (before after : Option TicketStatus)
      (actor : Option ℕ) (message : Option String)
      → ticket.organization_id ≡ organization_id
      → Preserves {F = F} I (add_event ticket event_type before after actor message)
  Preserves-add_event ticket event_type before after actor message own =
      search (calm_rules, Preserves-note stable, own) depth 10

  pub Preserves-transition :
      (ticket : Ticket) (to_status : TicketStatus) (actor : Option ℕ) (event_type : String)
      (message : Option String)
      → ticket.organization_id ≡ organization_id
      → Owned ticket.id
      → Preserves {F = F} I (transition ticket to_status actor event_type message)
  unfolding transition
  Preserves-transition ticket to_status actor event_type message own held =
      search (calm_rules, IsQuiet-raise_if, Preserves-change stable, Preserves-add_event, own, held)
        depth 16

  pub Preserves-edit_draft :
      (ticket : Ticket) (actor : ℕ) (content : String)
      → ticket.organization_id ≡ organization_id
      → Owned ticket.id
      → Preserves {F = F} I (edit_draft ticket actor content)
  unfolding edit_draft
  Preserves-edit_draft ticket actor content own held =
      search
        (
          calm_rules,
          Preserves-if,
          IsQuiet-raise_if,
          Preserves-change stable,
          Preserves-add_event,
          own,
          held,
        )
        depth 16

  Preserves-insert_ticket :
      (actor : ℕ) (title description : String) (priority : TicketPriority)
      → Preserves {F = F} I (insert_ticket organization_id actor title description priority)
  Preserves-insert_ticket actor title description priority =
      search (calm_rules, Preserves-add stable, Preserves-add_event) depth 16

  Preserves-finish_create :
      (env : Env F) (ticket : Ticket) (actor : ℕ) → Preserves I (finish_create env ticket actor)
  unfolding finish_create
  Preserves-finish_create env ticket actor = search (calm_rules, IsQuiet-record_event) depth 12

  pub Preserves-create_ticket :
      (env : Env F) (actor : ℕ) (title description : String) (priority : TicketPriority)
      → Preserves I (create_ticket env organization_id actor title description priority)
  unfolding create_ticket
  Preserves-create_ticket env actor title description priority =
      Preserves-bind (insert_ticket organization_id actor title description priority) _
        (Preserves-insert_ticket actor title description priority)
        (λ ticket. Preserves-finish_create env ticket actor)

  pub Preserves-reject :
      (env : Env F) (ticket : Ticket) (actor : ℕ) (reason : Option String)
      → ticket.organization_id ≡ organization_id
      → Owned ticket.id
      → Preserves I (reject env ticket actor reason)
  unfolding reject
  Preserves-reject env ticket actor reason own held =
      search (calm_rules, Preserves-transition, IsQuiet-record_event, own, held) depth 14

  Preserves-finish_approval :
      (env : Env F) (ticket : Ticket) (actor : ℕ) (edited : Bool)
      → Preserves I (finish_approval env ticket actor edited)
  unfolding finish_approval
  Preserves-finish_approval env ticket actor edited =
      search (calm_rules, IsQuiet-record_event, IsQuiet-enqueue_for_ticket) depth 14

  pub Preserves-approve :
      (env : Env F) (ticket : Ticket) (actor : ℕ) (edited : Option String)
      → ticket.organization_id ≡ organization_id
      → Owned ticket.id
      → Preserves I (approve env ticket actor edited)
  unfolding approve
  Preserves-approve env ticket actor edited own held =
      search
        (
          calm_rules,
          IsQuiet-raise_if,
          Preserves-change stable,
          Preserves-transition,
          Preserves-finish_approval,
          own,
          held,
        )
        depth 16
