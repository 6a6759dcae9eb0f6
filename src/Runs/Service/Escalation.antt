-- ===== src/Runs/Service/Escalation.antt =====
-- services/agent_run_service.py: how a run ends that hands its ticket to a person.
use mathlib.Core.Path.{subst}
use agentdesk_ai.Base.{ℕ, ap, inl, inr, ◌≡◌, refl, sym, ◌∙◌, true, Option, none, some}
use agentdesk_ai.Models.Ticket.{Ticket, TicketPriority, TicketStatus, can_transition}
use agentdesk_ai.Models.Records.{AgentRun, AgentRunOutcome, completed}
use agentdesk_ai.Session.{
  Session, Env, Exec, Error, Result, ok, err, or_handle, raise, query, pure, ◌>>=◌, ◌>>◌,
}
use agentdesk_ai.Session.Quiet.{IsQuiet, quiet_rules}
use agentdesk_ai.Session.Rows.{get, update, get-key, get-update_self, ticket_row, run_row}
use agentdesk_ai.Audit.{record_event}
use agentdesk_ai.Agent.State.{AgentState}
use agentdesk_ai.Agent.Nodes.{run_workflow}
use agentdesk_ai.Agent.Nodes.Effects.{IsReadOnly-run_workflow}
use agentdesk_ai.Runs.Service.{
  conclude, conclude_escalated, audit_escalation, notify, finish_run, complete_run, mark_failed,
  apply_state, try_run, fail_run, execute_run,
}
use agentdesk_ai.Runs.Record.{
  initial_state, suggested, apply_draft, store_run, refresh_run, write_run,
}
use agentdesk_ai.Tickets.Service.Laws.{moved}
use agentdesk_ai.Runs.Service.Effects.{IsQuiet-notify, IsQuiet-mark_failed}
use agentdesk_ai.Runs.Service.Completion.{paired, suggested-anywhere, rest}

module _ {F : Type 0} (env : Env F) where
  -- The ticket with the draft, in the hands of a person.
  abbrev pub handed_over : AgentState F → Option TicketPriority → ℕ → Ticket → Ticket
  handed_over state priority now ticket = record ticket {
    suggested_type = state.suggested_type;
    suggested_priority = priority;
    draft_response = state.draft;
    status = TicketStatus.escalated;
    updated_at = now;
  }

  -- What a session commits and then does quietly.
  committed_before :
      {A : Type 0} (m : Exec F A) (s : Session F)
      → IsQuiet m
      → (m (record s { committed = s.working })).1.committed.tickets ≡ s.working.tickets
  committed_before m s q = elim ((q.at (record s { committed = s.working })).published) [
    | inl p ↦ p.0
    | inr p ↦ p.0
  ]

  -- The tickets that a run has committed are those that the session saw.
  finish_run-row :
      (key : ℕ) (ticket : Ticket) (outcome : AgentRunOutcome) (s : Session F) (k : ℕ) (row : Ticket)
      → get k s.working.tickets ≡ some row
      → get k (finish_run env key ticket outcome s).1.committed.tickets ≡ some row
  unfolding finish_run
  finish_run-row key ticket outcome s k row found =
      let t : Session F =
        (write_run key (λ r. record r { status = completed; finished_at = some s.now }) s).1 in
      let behind : Exec F (AgentRun F) =
        refresh_run key >>= λ run. notify env ticket outcome >> pure run in
      let quiet : IsQuiet behind = search (quiet_rules, IsQuiet-notify) depth 8 in
      ap (get k) (committed_before behind t quiet) ∙ found

  -- A failure leaves the committed tickets as they are.
  fail_run-tickets :
      (key : ℕ) (exc : Error) (s : Session F)
      → (fail_run env key exc s).1.committed.tickets ≡ s.committed.tickets
  unfolding fail_run
  fail_run-tickets key exc s =
      let u : Session F = record s { working = s.committed } in
      let behind : Exec F (AgentRun F) =
        query (λ db. get key db.agent_runs) >>= λ run. mark_failed env key exc run >> raise exc in
      let quiet : IsQuiet behind = search (quiet_rules, IsQuiet-mark_failed) depth 8 in
      elim ((quiet.at u).published) [ inl p ↦ p.0 | inr p ↦ p.0 ]

  handled-row :
      (key k : ℕ) (row : Ticket) (r : Result (AgentRun F)) (t : Session F)
      → get k t.committed.tickets ≡ some row
      → get k (or_handle r (fail_run env key) t).1.committed.tickets ≡ some row
  handled-row key k row (ok a) t h = h
  handled-row key k row (err e) t h = ap (get k) (fail_run-tickets key e t) ∙ h

  complete_run-escalates :
      (key : ℕ) (ticket : Ticket) (state : AgentState F) (priority : Option TicketPriority)
      (s : Session F) (row : Ticket)
      → get ticket.id s.working.tickets ≡ some row
      → state.outcome ≡ some "escalated"
      → can_transition ticket.status TicketStatus.escalated ≡ true
      → get ticket.id (complete_run env key ticket state priority s).1.committed.tickets
        ≡ some (handed_over state priority s.now row)
  unfolding complete_run conclude conclude_escalated audit_escalation record_event
  complete_run-escalates key ticket state priority s row found weak legal =
      let drafted =
        get-update_self ticket.id
          (λ t. record t { status = TicketStatus.escalated; updated_at = s.now })
          (update ticket.id
            (λ t. record t {
              suggested_type = state.suggested_type;
              suggested_priority = priority;
              draft_response = state.draft;
            })
            s.working.tickets)
          (λ t. refl)
          (get-update_self ticket.id
            (λ t. record t {
              suggested_type = state.suggested_type;
              suggested_priority = priority;
              draft_response = state.draft;
            })
            s.working.tickets (λ t. refl) found) in
      let advised : Ticket = record ticket {
        suggested_type = state.suggested_type;
        suggested_priority = priority;
        draft_response = state.draft;
      } in
      let noted : Session F =
        (write_run key (λ r. record r { outcome = some AgentRunOutcome.escalated })
          (apply_draft env ticket state priority s).1).1 in
      let there : Session F =
        moved advised TicketStatus.escalated none "agent_run"
          (some "Low confidence; escalated for human handling") noted in
      rw (weak, legal)
        (finish_run-row key advised AgentRunOutcome.escalated
          (audit_escalation env advised state there).1 ticket.id
          (handed_over state priority s.now row) drafted)

  -- If the workflow decides for an escalation in a status that allows it, and its suggested priority
  -- is one, then executing a run that is found with its ticket commits the ticket as escalated, with
  -- the draft and the suggestions, whatever becomes of the webhook that hears of it.
  pub execute_run-escalates :
      (key : ℕ) (s : Session F) (run : AgentRun F) (ticket : Ticket) (state : AgentState F)
      (priority : Option TicketPriority)
      → get key s.working.agent_runs ≡ some run
      → get run.ticket_id s.working.tickets ≡ some ticket
      → (run_workflow env (initial_state ticket) s).0 ≡ ok state
      → (suggested state.suggested_priority s).0 ≡ ok priority
      → state.outcome ≡ some "escalated"
      → can_transition ticket.status TicketStatus.escalated ≡ true
      → get ticket.id (execute_run env key s).1.committed.tickets
        ≡ some (handed_over state priority s.now ticket)
  unfolding execute_run try_run apply_state store_run record_event
  execute_run-escalates key s run ticket state priority running of_run worked chosen weak legal =
      let same : get ticket.id s.working.tickets ≡ some ticket =
        subst (λ k. get k s.working.tickets ≡ some ticket)
          (sym (get-key run.ticket_id s.working.tickets of_run)) of_run in
      let flow : run_workflow env (initial_state ticket) s ≡ (ok state, s) =
        paired env worked ((IsReadOnly-run_workflow env (initial_state ticket)).at s) in
      let u : Session F = (store_run env key ticket state s).1 in
      let priced = suggested-anywhere env state.suggested_priority s u priority chosen in
      let ended = complete_run-escalates key ticket state priority u ticket same weak legal in
      rw (running, of_run, flow)
        (handled-row key ticket.id (handed_over state priority s.now ticket)
          (rest env key ticket state u).0 (rest env key ticket state u).1 (rw priced ended))
