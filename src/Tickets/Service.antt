-- ===== src/Tickets/Service.antt =====
-- ticket_service.py, operation by operation, over the transitions of Tickets/Transition. A `Ticket`
-- argument is the object that the session has loaded, as there.
pub mod Laws
pub mod Notification
pub mod Decisions
pub mod Growth
pub mod Soundness
pub mod Stability
pub mod Reads
pub mod Alone
use agentdesk_ai.Tickets.Transition.{new_event, refresh_ticket, add_event, transition}
use agentdesk_ai.Base.{
  ℕ, Bool, true, false, not, Option, none, some, is_some, or_default, [], ◌∷◌, ◌++◌, List, String,
  ◌<>◌, str_eq, is_blank, ◌==◌, if◌then◌else◌, select,
}
use agentdesk_ai.Base.Order.{order_by_asc, order_by_desc}
use agentdesk_ai.Models.Ticket.{
  Ticket, TicketStatus, TicketPriority, new, approved, rejected, status_eq, can_transition,
}
use agentdesk_ai.Models.Records.{
  TicketEvent, Json, null, bool, str, obj, member, end, ticket_created, response_approved,
  response_rejected,
}
use agentdesk_ai.Session.{
  Env, not_found, invalid_transition, empty_response, external, Exec, pure, raise, raise_if,
  raise_if_none, query, fresh_id, get_now, write, commit, ◌>>=◌, ◌>>◌,
}
use agentdesk_ai.Session.Rows.{get, update, ticket_row}
use agentdesk_ai.Audit.{record_event}
use agentdesk_ai.Webhooks.Delivery.{enqueue_for_ticket}

-- `Ticket(…)`
abbrev pub new_ticket : ℕ → ℕ → ℕ → ℕ → String → String → TicketPriority → Ticket
new_ticket id now organization_id actor_user_id title description priority = record {
  id = id;
  organization_id = organization_id;
  title = title;
  description = description;
  priority = priority;
  status = new;
  suggested_type = none;
  suggested_priority = none;
  draft_response = none;
  final_response = none;
  created_by = some actor_user_id;
  created_at = now;
  updated_at = now;
}

-- The second `where` of the query, if a status is asked for.
unfoldable pub has_status : Option TicketStatus → Ticket → Bool
has_status none t = true
has_status (some status) t = status_eq t.status status

-- `(edited_response if edited_response is not None else ticket.draft_response) or ""`
unfoldable pub final_text : Ticket → Option String → String
final_text ticket none = or_default ticket.draft_response ""
final_text ticket (some edited) = edited

-- An UPDATE is sent only for a column that has changed, and it alone renews `updated_at`.
abbrev pub same_text : Option String → String → Bool
same_text none s = false
same_text (some t) s = str_eq t s

module _ {F : Type 0} where
  -- `db.get`, and the test of the tenant; a foreign ticket is reported like a missing one.
  check_tenant : ℕ → Option Ticket → Exec F Ticket
  check_tenant organization_id none = raise not_found
  check_tenant organization_id (some ticket) =
      if not (ticket.organization_id == organization_id) then raise not_found else pure ticket

  unfoldable pub get_ticket : ℕ → ℕ → Exec F Ticket
  unfolding check_tenant
  get_ticket organization_id ticket_id = do
    ticket ← query (λ db. get ticket_id db.tickets)
    check_tenant organization_id ticket

  unfoldable pub list_tickets : ℕ → Option TicketStatus → Exec F (List Ticket)
  unfolding has_status
  list_tickets organization_id status = query (λ db.
      order_by_desc (λ t. t.created_at)
        (select (has_status status)
          (select (λ t. t.organization_id == organization_id) db.tickets)))

  unfoldable pub list_events : ℕ → ℕ → Exec F (List TicketEvent)
  unfolding get_ticket
  list_events organization_id ticket_id = do
    get_ticket organization_id ticket_id
    query (λ db.
        order_by_asc (λ e. e.created_at) (select (λ e. e.ticket_id == ticket_id) db.ticket_events))

  -- The first half of `create_ticket`: the row, and its event.
  abbrev pub insert_ticket : ℕ → ℕ → String → String → TicketPriority → Exec F Ticket
  insert_ticket organization_id actor_user_id title description priority = do
    id ← fresh_id
    now ← get_now
    let ticket = new_ticket id now organization_id actor_user_id title description priority
    write (λ db. record db { tickets = db.tickets ++ (ticket ∷ []) })
    add_event ticket "created" none (some new) (some actor_user_id) none
    pure ticket

  -- The writes of `edit_draft`.
  abbrev pub apply_edit : Ticket → ℕ → String → Exec F (Unit {0})
  apply_edit ticket actor_user_id content = do
    now ← get_now
    if same_text ticket.draft_response content
        then pure tt
        else write (λ db. record db {
          tickets =
              update ticket.id (λ t. record t { draft_response = some content; updated_at = now })
                db.tickets;
        })
    add_event ticket "edited" none none (some actor_user_id) (some "Draft edited")

  unfoldable pub edit_draft : Ticket → ℕ → String → Exec F Ticket
  edit_draft ticket actor_user_id content = do
    raise_if (is_blank content) (empty_response "Draft content must not be empty")
    apply_edit ticket actor_user_id content
    commit
    refresh_ticket ticket.id

module _ {F : Type 0} (env : Env F) where
  finish_create : Ticket → ℕ → Exec F Ticket
  unfolding record_event
  finish_create ticket actor_user_id = do
    record_event env ticket_created (some ticket.organization_id) (some actor_user_id)
        (some "ticket") (some ticket.id) none false
    commit
    refresh_ticket ticket.id

  unfoldable pub create_ticket : ℕ → ℕ → String → String → TicketPriority → Exec F Ticket
  unfolding finish_create
  create_ticket organization_id actor_user_id title description priority = do
    ticket ← insert_ticket organization_id actor_user_id title description priority
    finish_create ticket actor_user_id

  -- The end of `approve`, behind the transition: audit, commit, and the webhook.
  finish_approval : Ticket → ℕ → Bool → Exec F Ticket
  unfolding record_event
  finish_approval ticket actor_user_id edited = do
    record_event env response_approved (some ticket.organization_id) (some actor_user_id)
        (some "ticket") (some ticket.id) (some (obj (member "edited" (bool edited) end))) false
    commit
    refreshed ← refresh_ticket ticket.id
    enqueue_for_ticket env refreshed "ticket.approved"
    pure refreshed

  unfoldable pub approve : Ticket → ℕ → Option String → Exec F Ticket
  unfolding final_text transition finish_approval
  approve ticket actor_user_id edited_response = do
    let final = final_text ticket edited_response
    raise_if (is_blank final) (empty_response "A non-empty final response is required to approve")
    write (λ db. record db {
      tickets = update ticket.id (λ t. record t { final_response = some final }) db.tickets;
    })
    changed ←
        transition (record ticket { final_response = some final }) approved (some actor_user_id)
          "approved"
          (some ("Response approved" <> (if is_some edited_response then " (edited)" else "")))
    finish_approval changed actor_user_id (is_some edited_response)

  abbrev reason_json : Option String → Json F
  reason_json none = null
  reason_json (some reason) = str reason

  unfoldable pub reject : Ticket → ℕ → Option String → Exec F Ticket
  unfolding transition record_event
  reject ticket actor_user_id reason = do
    transition ticket rejected (some actor_user_id) "rejected" reason
    record_event env response_rejected (some ticket.organization_id) (some actor_user_id)
        (some "ticket") (some ticket.id) (some (obj (member "reason" (reason_json reason) end)))
        false
    commit
    refresh_ticket ticket.id
