-- ===== src/Runs/Service/Split.antt =====
-- services/agent_run_service.py: execute_run as its loading, the workflow, and what follows it.
use agentdesk_ai.Base.{ℕ, ◌≡◌, refl, some}
use agentdesk_ai.Models.Ticket.{Ticket}
use agentdesk_ai.Models.Records.{AgentRun}
use agentdesk_ai.Session.{Session, Env, Result, ok, err, catch}
use agentdesk_ai.Session.Rows.{get, ticket_row, run_row}
use agentdesk_ai.Agent.State.{AgentState}
use agentdesk_ai.Agent.Nodes.{run_workflow}
use agentdesk_ai.Agent.Nodes.Effects.{IsReadOnly-run_workflow}
use agentdesk_ai.Runs.Record.{initial_state}
use agentdesk_ai.Runs.Service.{try_run, fail_run, load_run, end_run, execute_run}
use agentdesk_ai.Runs.Service.Completion.{paired}

module _ {F : Type 0} (env : Env F) where
  by_outcome :
      (key : ℕ) (ticket : Ticket) (s : Session F) (r : Result (AgentState F))
      → run_workflow env (initial_state ticket) s ≡ (r, s)
      → catch (try_run env key ticket) (fail_run env key) s ≡ end_run env key ticket r s
  unfolding try_run end_run
  by_outcome key ticket s (ok state) flow = rw flow refl
  by_outcome key ticket s (err exc) flow = rw flow refl

  -- Executing a run that is found with its ticket is what follows the workflow, with that ticket and
  -- whatever came of the workflow.
  execute_run-end_run :
      (key : ℕ) (s : Session F) (run : AgentRun F) (ticket : Ticket)
      → get key s.working.agent_runs ≡ some run
      → get run.ticket_id s.working.tickets ≡ some ticket
      → (load_run env key s ≡ (ok (run, ticket), s))
        × (execute_run env key s
            ≡ end_run env key ticket (run_workflow env (initial_state ticket) s).0 s)
  unfolding execute_run load_run
  execute_run-end_run key s run ticket running of_run = (
    rw (running, of_run) refl,
    rw (running, of_run)
        (by_outcome key ticket s _
          (paired env refl ((IsReadOnly-run_workflow env (initial_state ticket)).at s))),
  )
