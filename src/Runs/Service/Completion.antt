-- ===== src/Runs/Service/Completion.antt =====
-- How a run ends that leads to an approval.
use mathlib.Core.Path.{subst}
use agentdesk_ai.Agent.Cost.{estimate_cost}
use agentdesk_ai.Base.{
  map, or_default, [], false, ℕ, Bool-cases, Option-cases, inl, inr, str_eq, arith, ◌≡◌, refl, sym,
  true, Option, some, none, String,
}
use agentdesk_ai.Models.Ticket.{Ticket, TicketPriority, TicketStatus, can_transition}
use agentdesk_ai.Models.Records.{AgentRun, AgentRunStatus, AgentRunOutcome}
use agentdesk_ai.Session.{Session, Env, Exec, Error, Result, ok, err, or_handle, ◌>>=◌}
use agentdesk_ai.Session.Rows.{get, update, get-key, get-update_self, ticket_row, run_row}
use agentdesk_ai.Audit.{record_event}
use agentdesk_ai.Agent.State.{AgentState}
use agentdesk_ai.Agent.Nodes.{run_workflow}
use agentdesk_ai.Agent.Nodes.Effects.{IsReadOnly-run_workflow}
use agentdesk_ai.Runs.Service.{
  conclude, conclude_waiting, finish_run, complete_run, apply_state, try_run, fail_run, execute_run,
}
use agentdesk_ai.Runs.Record.{initial_state, fill_run, parse_priority, suggested, store_run}

module _ {F : Type 0} (env : Env F) where
  -- The ticket with the draft, waiting for its approval.
  abbrev pub awaiting : AgentState F → Option TicketPriority → ℕ → Ticket → Ticket
  awaiting state priority now ticket = record ticket {
    suggested_type = state.suggested_type;
    suggested_priority = priority;
    draft_response = state.draft;
    status = TicketStatus.waiting_approval;
    updated_at = now;
  }

  abbrev pub finished : ℕ → AgentRun F → AgentRun F
  finished now run = record run {
    outcome = some AgentRunOutcome.waiting_approval;
    status = AgentRunStatus.completed;
    finished_at = some now;
  }

  -- The run with all that the workflow found; tokens that no provider counted are none, and a model
  -- that no provider named is the mock's.
  abbrev pub recorded : AgentState F → AgentRun F → AgentRun F
  recorded state run = record run {
    classification = state.classification;
    retrieved_chunk_ids = some (map (λ r. r.chunk_id) (or_default state.retrieved []));
    retrieval_hit = or_default state.retrieval_hit false;
    draft = state.draft;
    confidence = state.confidence;
    prompt_tokens = some (or_default state.prompt_tokens 0);
    completion_tokens = some (or_default state.completion_tokens 0);
    estimated_cost_usd = some (
        estimate_cost env.floats (or_default state.model "mock-1")
          (or_default state.prompt_tokens 0) (or_default state.completion_tokens 0));
    latency_ms = some env.elapsed_ms;
  }

  -- What a completed run leaves.
  pub record Completed (key : ℕ) (ticket : Ticket) (row : Ticket) (run : AgentRun F)
      (r : Result (AgentRun F)) (t : Session F) : Type 0 where
    pub answered : r ≡ ok run
    pub stored : get key t.committed.agent_runs ≡ some run
    pub drafted : get ticket.id t.committed.tickets ≡ some row

  complete_run-waits :
      (key : ℕ) (ticket : Ticket) (state : AgentState F) (priority : Option TicketPriority)
      (s : Session F) (row : Ticket) (run : AgentRun F)
      → get ticket.id s.working.tickets ≡ some row
      → get key s.working.agent_runs ≡ some run
      → state.outcome ≡ some "waiting_approval"
      → can_transition ticket.status TicketStatus.waiting_approval ≡ true
      → let (r, t) = complete_run env key ticket state priority s in
        Completed key ticket (awaiting state priority s.now row) (finished s.now run) r t
  unfolding complete_run conclude conclude_waiting finish_run
  complete_run-waits key ticket state priority s row run found running confident legal =
      let stored =
        get-update_self key
          (λ r. record r { status = AgentRunStatus.completed; finished_at = some s.now })
          (update key (λ r. record r { outcome = some AgentRunOutcome.waiting_approval })
            s.working.agent_runs)
          (λ r. refl)
          (get-update_self key (λ r. record r { outcome = some AgentRunOutcome.waiting_approval })
            s.working.agent_runs (λ r. refl) running) in
      let drafted =
        get-update_self ticket.id
          (λ t. record t { status = TicketStatus.waiting_approval; updated_at = s.now })
          (update ticket.id
            (λ t. record t {
              suggested_type = state.suggested_type;
              suggested_priority = priority;
              draft_response = state.draft;
            })
            s.working.tickets)
          (λ t. refl)
          (get-update_self ticket.id
            (λ t. record t {
              suggested_type = state.suggested_type;
              suggested_priority = priority;
              draft_response = state.draft;
            })
            s.working.tickets (λ t. refl) found) in
      rw (confident, legal, stored) (record { answered = refl; stored = stored; drafted = drafted })

  pub paired : {A B : Type 0} {x : A × B} {a : A} {b : B} → x.0 ≡ a → x.1 ≡ b → x ≡ (a, b)
  paired p q = cc

  -- The suggested priority is the same in every session.
  pub suggested-anywhere :
      (o : Option String) (s t : Session F) (p : Option TicketPriority)
      → (suggested o s).0 ≡ ok p
      → suggested o t ≡ (ok p, t)
  unfolding suggested
  suggested-anywhere none s t p h = ground arith
  suggested-anywhere (some x) s t p h = elim (Bool-cases (str_eq x "")) [
    | inl e' ↦ let f = rw e' at h in rw e' (ground arith)
    | inr e' ↦ elim (Option-cases (parse_priority x)) [
      | inl bad ↦ absurd (cc (rw (e', bad) at h))
      | inr (q, good) ↦ let f = rw (e', good) at h in rw (e', good) (ground arith)
    ]
  ]

  fill_run-key : (state : AgentState F) (run : AgentRun F) → (fill_run env state run).id ≡ run.id
  unfolding fill_run
  fill_run-key state run = refl

  handled :
      {key : ℕ} {ticket row : Ticket} {run : AgentRun F} (r : Result (AgentRun F)) (t : Session F)
      (handler : Error → Exec F (AgentRun F))
      → Completed key ticket row run r t
      → Completed key ticket row run (or_handle r handler t).0 (or_handle r handler t).1
  handled (ok a) t handler c = c
  handled (err e) t handler c = absurd (cc c.answered)

  -- What the `try` block does once the workflow's state is stored.
  abbrev pub rest : ℕ → Ticket → AgentState F → Exec F (AgentRun F)
  rest key ticket state = suggested state.suggested_priority >>= complete_run env key ticket state

  -- If the workflow decides for an approval in a status that allows it, and its suggested priority
  -- is one, then executing a run that is found with its ticket completes it: the run is answered and
  -- committed as completed, with the classification, the chunks, the draft, the confidence, the tokens
  -- and the time of the workflow and the cost that estimate_cost gives for the tokens, and the ticket
  -- is committed with the draft and the suggestions, waiting for its approval.
  pub execute_run-waits :
      (key : ℕ) (s : Session F) (run : AgentRun F) (ticket : Ticket) (state : AgentState F)
      (priority : Option TicketPriority)
      → get key s.working.agent_runs ≡ some run
      → get run.ticket_id s.working.tickets ≡ some ticket
      → (run_workflow env (initial_state ticket) s).0 ≡ ok state
      → (suggested state.suggested_priority s).0 ≡ ok priority
      → state.outcome ≡ some "waiting_approval"
      → can_transition ticket.status TicketStatus.waiting_approval ≡ true
      → let (r, t) = execute_run env key s in
        Completed key ticket
          (awaiting state priority s.now ticket)
          (finished s.now (recorded state run))
          r
          t
  unfolding execute_run try_run apply_state store_run fill_run record_event
  execute_run-waits key s run ticket state priority running of_run worked chosen confident legal =
      let same : get ticket.id s.working.tickets ≡ some ticket =
        subst (λ k. get k s.working.tickets ≡ some ticket)
          (sym (get-key run.ticket_id s.working.tickets of_run)) of_run in
      let flow : run_workflow env (initial_state ticket) s ≡ (ok state, s) =
        paired worked ((IsReadOnly-run_workflow env (initial_state ticket)).at s) in
      let u : Session F = (store_run env key ticket state s).1 in
      let filled =
        get-update_self key (fill_run env state) s.working.agent_runs (fill_run-key state)
          running in
      let priced = suggested-anywhere state.suggested_priority s u priority chosen in
      let ended =
        complete_run-waits key ticket state priority u ticket (fill_run env state run) same filled
          confident legal in
      rw (running, of_run, flow)
        (handled (rest key ticket state u).0 (rest key ticket state u).1 (fail_run env key)
          (rw priced ended))
