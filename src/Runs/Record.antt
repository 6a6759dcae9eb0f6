-- ===== src/Runs/Record.antt =====
-- agent_run_service.py: the row of a run, its creation, and the columns that the workflow fills in.
use agentdesk_ai.Base.{
  ℕ, false, Option, none, some, or_default, [], ◌∷◌, ◌++◌, map, String, str_eq, if◌then◌else◌,
  length,
}
use agentdesk_ai.Models.Ticket.{Ticket, TicketPriority, low, medium, high, urgent}
use agentdesk_ai.Models.Records.{
  Json, null, bool, int, float, str, obj, member, end, AuditEvent, AuditLog, AgentRun, running,
  agent_run_started, retrieval_completed, draft_generated,
}
use agentdesk_ai.Session.{
  Env, value_error, external, Exec, pure, raise_if_none, query, fresh_id, get_now, write, commit,
  ◌>>=◌, ◌>>◌,
}
use agentdesk_ai.Session.Rows.{get, update, ticket_row, run_row}
use agentdesk_ai.Audit.{record_event}
use agentdesk_ai.Agent.State.{AgentState}
use agentdesk_ai.Agent.Cost.{estimate_cost}

-- `AgentRun(ticket_id=…, organization_id=…, status=running)`
abbrev pub new_run : {F : Type 0} → ℕ → ℕ → Ticket → AgentRun F
new_run id now ticket = record {
  id = id;
  ticket_id = ticket.id;
  organization_id = ticket.organization_id;
  status = running;
  classification = none;
  retrieved_chunk_ids = none;
  retrieval_hit = false;
  draft = none;
  confidence = none;
  outcome = none;
  latency_ms = none;
  estimated_cost_usd = none;
  prompt_tokens = none;
  completion_tokens = none;
  error = none;
  finished_at = none;
  created_at = now;
}

-- `AgentState` as `execute_run` begins with it
abbrev pub initial_state : {F : Type 0} → Ticket → AgentState F
initial_state ticket = record {
  organization_id = ticket.organization_id;
  ticket_title = some ticket.title;
  ticket_description = some ticket.description;
  classification = none;
  suggested_type = none;
  suggested_priority = none;
  retrieved = none;
  retrieval_hit = none;
  draft = none;
  model = none;
  prompt_tokens = none;
  completion_tokens = none;
  confidence = none;
  outcome = none;
}

-- `TicketPriority(sp)`
unfoldable pub parse_priority : String → Option TicketPriority
parse_priority s =
    if str_eq s "low"
    then some low
    else if str_eq s "medium"
    then some medium
    else if str_eq s "high"
    then some high
    else if str_eq s "urgent"
    then some urgent
    else none

module _ {F : Type 0} where
  abbrev pub refresh_run : ℕ → Exec F (AgentRun F)
  refresh_run key = do
    found ← query (λ db. get key db.agent_runs)
    raise_if_none found (external "could not refresh")

  -- `TicketPriority(sp) if sp else None`
  unfoldable pub suggested : Option String → Exec F (Option TicketPriority)
  unfolding parse_priority
  suggested none = pure none
  suggested (some s) = if str_eq s "" then pure none else (do
    p ← raise_if_none (parse_priority s) (value_error "not a valid TicketPriority")
    pure (some p))

  abbrev pub float_or_null : Option F → Json F
  float_or_null none = null
  float_or_null (some x) = float x

  abbrev pub write_run : ℕ → (AgentRun F → AgentRun F) → Exec F (Unit {0})
  write_run key f = write (λ db. record db { agent_runs = update key f db.agent_runs })

module _ {F : Type 0} (env : Env F) where
  unfoldable pub start_run : Ticket → Option ℕ → Exec F (AgentRun F)
  unfolding record_event
  start_run ticket actor_user_id = do
    id ← fresh_id
    now ← get_now
    write (λ db. record db { agent_runs = db.agent_runs ++ (new_run id now ticket ∷ []) })
    record_event env agent_run_started (some ticket.organization_id) actor_user_id (some "ticket")
        (some ticket.id) (some (obj (member "agent_run_id" (str (env.str_id id)) end))) false
    commit
    refresh_run id

  -- The columns of the run that the workflow's state fills in.
  unfoldable pub fill_run : AgentState F → AgentRun F → AgentRun F
  unfolding estimate_cost
  fill_run state run =
      let prompt_tokens = or_default state.prompt_tokens 0 in
      let completion_tokens = or_default state.completion_tokens 0 in
      record run {
        classification = state.classification;
        retrieved_chunk_ids = some (map (λ r. r.chunk_id) (or_default state.retrieved []));
        retrieval_hit = or_default state.retrieval_hit false;
        draft = state.draft;
        confidence = state.confidence;
        prompt_tokens = some prompt_tokens;
        completion_tokens = some completion_tokens;
        estimated_cost_usd = some (
            estimate_cost env.floats (or_default state.model "mock-1") prompt_tokens
              completion_tokens);
        latency_ms = some env.elapsed_ms;
      }

  abbrev pub audit_ticket : AuditEvent → Ticket → Json F → Exec F (AuditLog F)
  audit_ticket event ticket meta =
      record_event env event (some ticket.organization_id) none (some "ticket") (some ticket.id)
        (some meta) false

  -- The run's columns, and the two audit entries of the milestones.
  unfoldable pub store_run : ℕ → Ticket → AgentState F → Exec F (Unit {0})
  unfolding fill_run record_event
  store_run run_id ticket state = do
    write_run run_id (fill_run state)
    audit_ticket retrieval_completed ticket (
        obj (
          member "hits" (int (length (or_default state.retrieved [])))
            (member "hit" (bool (or_default state.retrieval_hit false)) end)))
    audit_ticket draft_generated ticket
        (obj (member "confidence" (float_or_null state.confidence) end))
    pure tt

  -- The classifier's suggestions and the draft, on the ticket.
  abbrev pub apply_draft : Ticket → AgentState F → Option TicketPriority → Exec F Ticket
  apply_draft ticket state priority = do
    write (λ db. record db {
      tickets =
          update ticket.id
            (λ t. record t {
              suggested_type = state.suggested_type;
              suggested_priority = priority;
              draft_response = state.draft;
            })
            db.tickets;
    })
    pure (record ticket {
      suggested_type = state.suggested_type;
      suggested_priority = priority;
      draft_response = state.draft;
    })
