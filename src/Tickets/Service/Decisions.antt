-- ===== src/Tickets/Service/Decisions.antt =====
-- services/ticket_service.py: what a creation, a rejection and an edit commit.
use mathlib.Core.List.{append-nil}
use agentdesk_ai.Base.{
  Bool-cases, inl, inr, ℕ, suc, ◌<◌, ◌≡◌, refl, sym, true, false, Option, none, some, List, [], ◌∷◌,
  ◌++◌, String, is_blank, if◌then◌else◌, All,
}
use agentdesk_ai.Models.Ticket.{
  Ticket, TicketPriority, TicketStatus, new, waiting_approval, rejected, can_transition,
}
use agentdesk_ai.Models.Records.{
  TicketEvent, AuditEvent, AuditLog, Json, obj, member, end, ticket_created, response_rejected,
}
use agentdesk_ai.Session.{Session, Env, Result, ok}
use agentdesk_ai.Session.Rows.{get, get-update_self, get-append_new, ticket_row}
use agentdesk_ai.Audit.{record_event}
use agentdesk_ai.Tickets.Machine.{decided_from_waiting}
use agentdesk_ai.Tickets.Service.{
  new_ticket, same_text, edit_draft, finish_create, create_ticket, reason_json, reject,
}
use agentdesk_ai.Tickets.Transition.{transition}

-- The event of a ticket, of a given type, between given statuses.
abbrev pub event_row :
    ℕ
    → ℕ
    → Ticket
    → String
    → Option TicketStatus
    → Option TicketStatus
    → Option ℕ
    → Option String
    → TicketEvent
event_row id now ticket type before after actor message = record {
  id = id;
  ticket_id = ticket.id;
  organization_id = ticket.organization_id;
  event_type = type;
  from_status = before;
  to_status = after;
  actor_user_id = actor;
  message = message;
  created_at = now;
}

module _ {F : Type 0} where
  -- What an operation that ends in a commit leaves: the answer is the row that is committed, one
  -- event and these audit entries stand behind the others, and nothing is queued or posted.
  pub record Committed (key : ℕ) (row : Ticket) (event : TicketEvent) (entries : List (AuditLog F))
      (s : Session F) (r : Result Ticket) (t : Session F) : Type 0 where
    pub answered : r ≡ ok row
    pub stored : get key t.committed.tickets ≡ some row
    pub history : t.committed.ticket_events ≡ s.working.ticket_events ++ (event ∷ [])
    pub audited : t.committed.audit_logs ≡ s.working.audit_logs ++ entries
    pub queued : t.queued ≡ s.queued
    pub posted : t.posted ≡ s.posted

  -- An edit with a text that is not blank commits the text as the draft, if it is another than the
  -- loaded one, in every status of the ticket, which it leaves, with one event that states no status, and it writes no audit entry.
  pub edit_draft-commits :
      (ticket : Ticket) (actor : ℕ) (content : String) (s : Session F) (row : Ticket)
      → get ticket.id s.working.tickets ≡ some row
      → is_blank content ≡ false
      → let edited =
          if same_text ticket.draft_response content
          then row
          else (record row { draft_response = some content; updated_at = s.now }) in
        let (r, t) = edit_draft ticket actor content s in
        Committed ticket.id edited
          (event_row s.next_id s.now ticket "edited" none none (some actor) (some "Draft edited"))
          []
          s
          r
          t
  unfolding edit_draft
  edit_draft-commits ticket actor content s row found filled =
      let stored =
        get-update_self ticket.id
          (λ t. record t { draft_response = some content; updated_at = s.now }) s.working.tickets
          (λ t. refl) found in
      elim (Bool-cases (same_text ticket.draft_response content)) [
        | inl same ↦
            rw (filled, same, found)
              (record {
                answered = refl;
                stored = found;
                history = refl;
                audited = sym (append-nil s.working.audit_logs);
                queued = refl;
                posted = refl;
              })
        | inr changed ↦
            rw (filled, changed, stored)
              (record {
                answered = refl;
                stored = stored;
                history = refl;
                audited = sym (append-nil s.working.audit_logs);
                queued = refl;
                posted = refl;
              })
      ]

module _ {F : Type 0} (env : Env F) where
  -- The audit entry of an operation on a ticket.
  abbrev pub ticket_entry : ℕ → ℕ → AuditEvent → Ticket → ℕ → Option (Json F) → AuditLog F
  ticket_entry id now event ticket actor meta = record {
    id = id;
    organization_id = some ticket.organization_id;
    actor_user_id = some actor;
    event = event;
    target_type = some "ticket";
    target_id = some (env.str_id ticket.id);
    meta = meta;
    created_at = now;
  }

  -- A rejection of a stored ticket that waits for its approval commits it as rejected, with one event
  -- that has the reason for its message and one audit entry that has it too; no webhook hears of it.
  pub reject-commits :
      (ticket : Ticket) (actor : ℕ) (reason : Option String) (s : Session F) (row : Ticket)
      → get ticket.id s.working.tickets ≡ some row
      → ticket.status ≡ waiting_approval
      → let (r, t) = reject env ticket actor reason s in
        Committed ticket.id
          (record row { status = rejected; updated_at = s.now })
          (event_row s.next_id s.now ticket "rejected"
            (some waiting_approval)
            (some rejected)
            (some actor)
            reason)
          (ticket_entry
              (suc s.next_id)
              s.now
              response_rejected
              ticket
              actor
              (some (obj (member "reason" (reason_json env reason) end)))
            ∷ [])
          s
          r
          t
  unfolding reject transition record_event
  reject-commits ticket actor reason s row found waiting =
      let legal : can_transition ticket.status rejected ≡ true =
        (decided_from_waiting ticket.status).1.1 waiting in
      let stored =
        get-update_self ticket.id (λ t. record t { status = rejected; updated_at = s.now })
          s.working.tickets (λ t. refl) found in
      rw (legal, stored)
        (record {
          answered = refl;
          stored = stored;
          history = rw waiting refl;
          audited = refl;
          queued = refl;
          posted = refl;
        })

  -- If every stored key is below the next one, then creating a ticket commits it under that key, in
  -- the status `new`, with the title, description and priority that were asked for, of the
  -- organization and by the actor, at this time, and without suggestions, draft and final response;
  -- with it, one event of its creation and one audit entry, and nothing is queued or posted.
  pub create_ticket-commits :
      (organization_id actor : ℕ) (title description : String) (priority : TicketPriority)
      (s : Session F)
      → All (λ t. t.id < s.next_id) s.working.tickets
      → let row : Ticket = record {
        id = s.next_id;
        organization_id = organization_id;
        title = title;
        description = description;
        priority = priority;
        status = new;
        suggested_type = none;
        suggested_priority = none;
        draft_response = none;
        final_response = none;
        created_by = some actor;
        created_at = s.now;
        updated_at = s.now;
      } in
        let (r, t) = create_ticket env organization_id actor title description priority s in
        Committed s.next_id row
          (event_row (suc s.next_id) s.now row "created" none (some new) (some actor) none)
          (ticket_entry (suc (suc s.next_id)) s.now ticket_created row actor none ∷ [])
          s
          r
          t
  unfolding create_ticket finish_create record_event
  create_ticket-commits organization_id actor title description priority s fresh =
      let row = new_ticket s.next_id s.now organization_id actor title description priority in
      let stored = get-append_new s.working.tickets row fresh in
      rw stored (record {
        answered = refl;
        stored = stored;
        history = refl;
        audited = refl;
        queued = refl;
        posted = refl;
      })
