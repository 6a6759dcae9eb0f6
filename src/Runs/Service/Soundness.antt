-- ===== src/Runs/Service/Soundness.antt =====
-- services/agent_run_service.py and the invariant of the tickets and their events.
use agentdesk_ai.Base.{
  ℕ, refl, Bool, if◌then◌else◌, true, false, inl, inr, Option, none, some, Option-cases, or_default,
  str_eq,
}
use agentdesk_ai.Models.Ticket.{Ticket, TicketStatus, TicketPriority}
use agentdesk_ai.Models.Records.{AgentRun, AgentRunOutcome}
use agentdesk_ai.Session.{
  Result, ok, err, Session, Env, Error, pure, query, raise, Exec, ◌>>◌, ◌>>=◌,
}
use agentdesk_ai.Session.Quiet.{IsQuiet, quiet_rules}
use agentdesk_ai.Session.Rows.{get, get-key, ticket_row, run_row}
use agentdesk_ai.Agent.State.{AgentState}
use agentdesk_ai.Agent.Nodes.{run_workflow}
use agentdesk_ai.Agent.Nodes.Effects.{IsQuiet-run_workflow}
use agentdesk_ai.Tickets.History.{Past}
use agentdesk_ai.Tickets.History.Steps.{IsSound-update}
use agentdesk_ai.Tickets.History.Sessions.{
  IsSoundSession, IsLoaded, get-IsLoaded, Quiet-IsSoundSession, resume-IsSoundSession,
  quiet_then-IsSoundSession, or_handle-IsSoundSession,
}
use agentdesk_ai.Tickets.Transition.{transition}
use agentdesk_ai.Tickets.Service.Soundness.{transition-IsSoundSession, no_approval}
use agentdesk_ai.Runs.Service.{
  conclude, finish_run, complete_run, apply_state, end_run, try_run, mark_failed, fail_run,
  execute_run, conclude_waiting, conclude_escalated, audit_escalation,
}
use agentdesk_ai.Runs.Record.{initial_state, suggested, store_run, apply_draft, write_run}
use agentdesk_ai.Runs.Service.Effects.{
  IsQuiet-suggested, IsQuiet-store_run, IsQuiet-finish_run, IsQuiet-audit_escalation,
  IsQuiet-mark_failed,
}

module _ {F : Type 0} (env : Env F) where
  conclude_waiting-IsSoundSession :
      {past : Past} (key : ℕ) (ticket : Ticket) (s : Session F)
      → IsSoundSession past s
      → IsLoaded ticket s
      → IsSoundSession past (conclude_waiting env key ticket s).1
  unfolding conclude_waiting
  conclude_waiting-IsSoundSession key ticket s h l =
      let t : Session F =
        (write_run key (λ r. record r { outcome = some AgentRunOutcome.waiting_approval }) s).1 in
      let moved =
        transition ticket TicketStatus.waiting_approval none "agent_run"
          (some "AI draft ready for approval") t in
      resume-IsSoundSession moved.0 (λ _. pure AgentRunOutcome.waiting_approval) moved.1
        (λ _. search quiet_rules)
        (transition-IsSoundSession ticket TicketStatus.waiting_approval none "agent_run"
          (some "AI draft ready for approval") t (record { seen = h.seen; stored = h.stored })
          (record { known = l.known; standing = l.standing })
          (no_approval TicketStatus.waiting_approval ticket.id s.now s.working.tickets (λ p. cc)))

  conclude_escalated-IsSoundSession :
      {past : Past} (key : ℕ) (ticket : Ticket) (state : AgentState F) (s : Session F)
      → IsSoundSession past s
      → IsLoaded ticket s
      → IsSoundSession past (conclude_escalated env key ticket state s).1
  unfolding conclude_escalated
  conclude_escalated-IsSoundSession key ticket state s h l =
      let t : Session F =
        (write_run key (λ r. record r { outcome = some AgentRunOutcome.escalated }) s).1 in
      let moved =
        transition ticket TicketStatus.escalated none "agent_run"
          (some "Low confidence; escalated for human handling") t in
      resume-IsSoundSession moved.0 (λ _. audit_escalation env ticket state) moved.1
        (λ _. IsQuiet-audit_escalation env ticket state)
        (transition-IsSoundSession ticket TicketStatus.escalated none "agent_run"
          (some "Low confidence; escalated for human handling") t
          (record { seen = h.seen; stored = h.stored })
          (record { known = l.known; standing = l.standing })
          (no_approval TicketStatus.escalated ticket.id s.now s.working.tickets (λ p. cc)))

  if-IsSoundSession :
      {past : Past} {A : Type 0} (b : Bool) (m n : Exec F A) (s : Session F)
      → IsSoundSession past (m s).1
      → IsSoundSession past (n s).1
      → IsSoundSession past ((if b then m else n) s).1
  if-IsSoundSession true m n s hm hn = hm
  if-IsSoundSession false m n s hm hn = hn

  conclude-IsSoundSession :
      {past : Past} (key : ℕ) (ticket : Ticket) (state : AgentState F) (s : Session F)
      → IsSoundSession past s
      → IsLoaded ticket s
      → IsSoundSession past (conclude env key ticket state s).1
  unfolding conclude
  conclude-IsSoundSession key ticket state s h l =
      if-IsSoundSession (str_eq (or_default state.outcome "escalated") "waiting_approval")
        (conclude_waiting env key ticket) (conclude_escalated env key ticket state) s
        (conclude_waiting-IsSoundSession key ticket s h l)
        (conclude_escalated-IsSoundSession key ticket state s h l)

  -- The draft changes no status and no final response.
  drafted-IsSoundSession :
      {past : Past} (ticket : Ticket) (state : AgentState F) (priority : Option TicketPriority)
      (s : Session F)
      → IsSoundSession past s
      → IsSoundSession past (apply_draft env ticket state priority s).1
  drafted-IsSoundSession ticket state priority s h = record {
    seen =
        IsSound-update s.working.tickets s.working.ticket_events h.seen ticket.id
          (λ t. record t {
            suggested_type = state.suggested_type;
            suggested_priority = priority;
            draft_response = state.draft;
          })
          (λ t. refl) (λ t. refl) (λ t. refl) (λ t p q. p q);
    stored = h.stored;
  }

  complete_run-IsSoundSession :
      {past : Past} (key : ℕ) (ticket : Ticket) (state : AgentState F)
      (priority : Option TicketPriority) (s : Session F)
      → IsSoundSession past s
      → IsLoaded ticket s
      → IsSoundSession past (complete_run env key ticket state priority s).1
  unfolding complete_run
  complete_run-IsSoundSession key ticket state priority s h l =
      let drafted : Ticket = record ticket {
        suggested_type = state.suggested_type;
        suggested_priority = priority;
        draft_response = state.draft;
      } in
      let t : Session F = (apply_draft env ticket state priority s).1 in
      resume-IsSoundSession (conclude env key drafted state t).0
        (λ outcome. finish_run env key drafted outcome) (conclude env key drafted state t).1
        (λ outcome. IsQuiet-finish_run env key drafted outcome)
        (conclude-IsSoundSession key drafted state t
          (drafted-IsSoundSession ticket state priority s h)
          (record { known = l.known; standing = l.standing }))

  apply_state-IsSoundSession :
      {past : Past} (key : ℕ) (ticket : Ticket) (state : AgentState F) (s : Session F)
      → IsSoundSession past s
      → IsLoaded ticket s
      → IsSoundSession past (apply_state env key ticket state s).1
  unfolding apply_state
  apply_state-IsSoundSession key ticket state s h l =
      quiet_then-IsSoundSession ticket (store_run env key ticket state)
        (λ _. suggested state.suggested_priority >>= complete_run env key ticket state) s
        (IsQuiet-store_run env key ticket state) h l
        λ _ t ht lt.
          quiet_then-IsSoundSession ticket (suggested state.suggested_priority)
            (complete_run env key ticket state) t (IsQuiet-suggested state.suggested_priority) ht lt
            (complete_run-IsSoundSession key ticket state)

  try_run-IsSoundSession :
      {past : Past} (key : ℕ) (ticket : Ticket) (s : Session F)
      → IsSoundSession past s
      → IsLoaded ticket s
      → IsSoundSession past (try_run env key ticket s).1
  unfolding try_run
  try_run-IsSoundSession key ticket s h l =
      quiet_then-IsSoundSession ticket (run_workflow env (initial_state ticket))
        (apply_state env key ticket) s (IsQuiet-run_workflow env (initial_state ticket)) h l
        (apply_state-IsSoundSession key ticket)

  fail_run-IsSoundSession :
      {past : Past} (key : ℕ) (exc : Error) (s : Session F)
      → IsSoundSession past s
      → IsSoundSession past (fail_run env key exc s).1
  unfolding fail_run
  fail_run-IsSoundSession key exc s h =
      let back : Session F = record s { working = s.committed } in
      Quiet-IsSoundSession ((marked key exc).at back)
        (record { seen = h.stored; stored = h.stored })
    where
      marked :
          (k : ℕ) (e : Error)
          → IsQuiet {A = AgentRun F}
              (query (λ db. get k db.agent_runs) >>= λ run. mark_failed env k e run >> raise e)
      marked k e = search (quiet_rules, IsQuiet-mark_failed) depth 8

  pub end_run-IsSoundSession :
      {past : Past} (key : ℕ) (ticket : Ticket) (outcome : Result (AgentState F)) (s : Session F)
      → IsSoundSession past s
      → IsLoaded ticket s
      → IsSoundSession past (end_run env key ticket outcome s).1
  unfolding end_run
  end_run-IsSoundSession key ticket (ok state) s h l =
      let applied = apply_state-IsSoundSession key ticket state s h l in
      or_handle-IsSoundSession (apply_state env key ticket state s).0 (fail_run env key)
        (apply_state env key ticket state s).1 applied
        (λ e. fail_run-IsSoundSession key e (apply_state env key ticket state s).1 applied)
  end_run-IsSoundSession key ticket (err exc) s h l = fail_run-IsSoundSession key exc s h

  pub execute_run-IsSoundSession :
      {past : Past} (key : ℕ) (s : Session F)
      → IsSoundSession past s
      → IsSoundSession past (execute_run env key s).1
  unfolding execute_run
  execute_run-IsSoundSession key s h = elim (Option-cases (get key s.working.agent_runs)) [
    | inl missing ↦ rw missing h
    | inr (run, found) ↦ rw found (elim (Option-cases (get run.ticket_id s.working.tickets)) [
      | inl missing ↦ rw missing h
      | inr (ticket, of_run) ↦
          let loaded : IsLoaded ticket s =
            get-IsLoaded ticket s h (cc (get-key run.ticket_id s.working.tickets of_run)) in
          let tried = try_run-IsSoundSession key ticket s h loaded in
          rw of_run (
            or_handle-IsSoundSession (try_run env key ticket s).0 (fail_run env key)
              (try_run env key ticket s).1 tried
              (λ e. fail_run-IsSoundSession key e (try_run env key ticket s).1 tried))
    ])
  ]
