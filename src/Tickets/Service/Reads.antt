-- ===== src/Tickets/Service/Reads.antt =====
-- services/ticket_service.py: what reads the tickets, and the session.
use agentdesk_ai.Base.{ℕ, Option, none, some}
use agentdesk_ai.Models.Ticket.{Ticket, TicketStatus}
use agentdesk_ai.Session.ReadOnly.{IsReadOnly, read_rules}
use agentdesk_ai.Tickets.Service.{check_tenant, get_ticket, list_tickets, list_events}

module _ {F : Type 0} where
  IsReadOnly-check_tenant :
      (organization_id : ℕ) (found : Option Ticket)
      → IsReadOnly {F = F} (check_tenant organization_id found)
  unfolding check_tenant
  IsReadOnly-check_tenant organization_id none = search read_rules
  IsReadOnly-check_tenant organization_id (some ticket) = search read_rules

  pub IsReadOnly-get_ticket :
      (organization_id ticket_id : ℕ) → IsReadOnly {F = F} (get_ticket organization_id ticket_id)
  unfolding get_ticket
  IsReadOnly-get_ticket organization_id ticket_id = search (read_rules, IsReadOnly-check_tenant)

  pub IsReadOnly-list_tickets :
      (organization_id : ℕ) (status : Option TicketStatus)
      → IsReadOnly {F = F} (list_tickets organization_id status)
  unfolding list_tickets
  IsReadOnly-list_tickets organization_id status = search read_rules

  pub IsReadOnly-list_events :
      (organization_id ticket_id : ℕ) → IsReadOnly {F = F} (list_events organization_id ticket_id)
  unfolding list_events
  IsReadOnly-list_events organization_id ticket_id = search (read_rules, IsReadOnly-get_ticket)
