-- ===== src/Api/Soundness/Reads.antt =====
-- api/v1: the requests that read, and the session.
use agentdesk_ai.Session.{Env}
use agentdesk_ai.Session.ReadOnly.{IsReadOnly, read_rules}
use agentdesk_ai.Tickets.Service.Reads.{
  IsReadOnly-get_ticket, IsReadOnly-list_tickets, IsReadOnly-list_events,
}
use agentdesk_ai.Webhooks.Config.{get_config}
use agentdesk_ai.Auth.Service.{list_users}
use agentdesk_ai.Auth.Effects.{IsReadOnly-refresh}
use agentdesk_ai.Retrieval.Effects.{IsReadOnly-search_chunks}
use agentdesk_ai.Documents.Service
use agentdesk_ai.Metrics.{compute}
use agentdesk_ai.Api.Routes.{
  get_tickets, get_one_ticket, get_ticket_events, get_webhook, get_deliveries, get_users,
  refresh_tokens,
}
use agentdesk_ai.Api.Routes.Documents.{list_documents, search_documents}
use agentdesk_ai.Api.Routes.Reads.{
  Read, tickets, ticket, events, webhook, deliveries, users, documents, metrics, perform_read,
  get_metrics,
}
use agentdesk_ai.Api.Soundness.Common.{IsReadOnly-current_user, IsReadOnly-translate}

ruleset route_rules = (
  read_rules, IsReadOnly-current_user, IsReadOnly-translate, IsReadOnly-get_ticket,
  IsReadOnly-list_tickets, IsReadOnly-list_events, IsReadOnly-search_chunks, IsReadOnly-refresh,
)

module _ {F : Type 0} (env : Env F) where
  -- A request that reads leaves the session as it is, for every caller and whether it answers or
  -- raises: the lists, the metrics, the search and the refresh of a token write, commit, queue and
  -- post nothing.
  pub perform_read-IsReadOnly : (r : Read F) → IsReadOnly (perform_read env r)
  unfolding perform_read get_tickets get_one_ticket get_ticket_events get_webhook get_deliveries
      get_users refresh_tokens list_documents search_documents get_metrics get_config list_users
      Service.list_documents compute
  perform_read-IsReadOnly (tickets creds status) = search route_rules depth 10
  perform_read-IsReadOnly (ticket creds key) = search route_rules depth 10
  perform_read-IsReadOnly (events creds key) = search route_rules depth 10
  perform_read-IsReadOnly (webhook creds) = search route_rules depth 10
  perform_read-IsReadOnly (deliveries creds) = search route_rules depth 10
  perform_read-IsReadOnly (users creds) = search route_rules depth 10
  perform_read-IsReadOnly (documents creds) = search route_rules depth 10
  perform_read-IsReadOnly (metrics creds) = search route_rules depth 10
  perform_read-IsReadOnly (Read.search creds text threshold top_k) = search route_rules depth 10
  perform_read-IsReadOnly (Read.refresh token) = search route_rules depth 10
