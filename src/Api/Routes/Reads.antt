-- ===== src/Api/Routes/Reads.antt =====
-- The requests that read, from all the files of api/v1, with api/v1/metrics.py.
use agentdesk_ai.Base.{ℕ, Option, [], ◌∷◌, String}
use agentdesk_ai.Models.Ticket.{TicketStatus}
use agentdesk_ai.Models.Records.{admin}
use agentdesk_ai.Session.{Env, Exec, pure, ◌>>=◌, ◌>>◌}
use agentdesk_ai.Metrics.{Metrics, compute}
use agentdesk_ai.Api.Routes.{
  current_user, get_tickets, get_one_ticket, get_ticket_events, get_webhook, get_deliveries,
  get_users, refresh_tokens,
}
use agentdesk_ai.Api.Routes.Documents.{list_documents, search_documents}

pub data Read (F : Type 0) : Type 0 where
  tickets : Option String → Option TicketStatus → Read F
  ticket events : Option String → ℕ → Read F
  webhook deliveries users documents metrics : Option String → Read F
  search : Option String → String → Option F → ℕ → Read F
  refresh : String → Read F

module _ {F : Type 0} (env : Env F) where
  unfoldable pub get_metrics : Option String → Exec F (Metrics F)
  unfolding current_user compute
  get_metrics creds = do
    current ← current_user env creds (admin ∷ [])
    compute env current.organization_id

  unfoldable pub perform_read : Read F → Exec F (Unit {0})
  unfolding get_metrics get_tickets get_one_ticket get_ticket_events get_webhook get_deliveries
      get_users refresh_tokens list_documents search_documents
  perform_read (tickets creds status) = get_tickets env creds status >> pure tt
  perform_read (ticket creds key) = get_one_ticket env creds key >> pure tt
  perform_read (events creds key) = get_ticket_events env creds key >> pure tt
  perform_read (webhook creds) = get_webhook env creds >> pure tt
  perform_read (deliveries creds) = get_deliveries env creds >> pure tt
  perform_read (users creds) = get_users env creds >> pure tt
  perform_read (documents creds) = list_documents env creds >> pure tt
  perform_read (metrics creds) = get_metrics creds >> pure tt
  perform_read (Read.search creds text threshold top_k) =
      search_documents env creds text threshold top_k >> pure tt
  perform_read (Read.refresh token) = refresh_tokens env token >> pure tt
