-- ===== src/Api/Interleaving.antt =====
-- api/v1/approvals.py and execute_run of services/agent_run_service.py in overlapping steps. A decision
-- and a run of the agent take two steps each: one loads the ticket, and the other, after any number of
-- other steps, decides or ends the run with the object that was loaded; in between, a decision does
-- nothing, and a run reads and asks the providers. Every other call is one step, and a run that the
-- route executes itself (agent_run_eager) belongs to the step of its request. The steps come in any
-- order.
pub mod Laws
pub mod Later
pub mod Races
use agentdesk_ai.Base.{ℕ, ◌≡◌, Option, List, [], ◌∷◌, ◌++◌, String, some}
use agentdesk_ai.Models.Ticket.{Ticket}
use agentdesk_ai.Models.Records.{User, AgentRun}
use agentdesk_ai.Agent.State.{AgentState}
use agentdesk_ai.Runs.Service.{load_run, end_run}
use agentdesk_ai.Session.{Session, Env, Exec, Result, ok, pure, in_session, ◌>>=◌}
use agentdesk_ai.Session.Rows.{get, ticket_row}
use agentdesk_ai.Tickets.Service
use agentdesk_ai.Api.Routes.{current_user, staff, load, translate}
use agentdesk_ai.Api.Serve.{Call, perform}

pub data Decision : Type 0 where
  approval rejection : Option String → Decision
  edition : String → Decision

-- A request that has loaded its ticket.
pub record Pending : Type 0 where
  pub user : User
  pub ticket : Ticket
  pub decision : Decision

-- A run that has loaded its ticket, and waits for the workflow.
pub record Running : Type 0 where
  pub run_id : ℕ
  pub ticket : Ticket

pub record System (F : Type 0) : Type 0 where
  pub session : Session F
  pub pending : List Pending
  pub running : List Running

module _ {F : Type 0} where
  -- A session of its own for an action, at a time.
  abbrev pub run_at : {A : Type 0} → ℕ → Exec F A → Session F → Session F
  run_at now m s = (in_session m (record s { now = now })).1

module _ {F : Type 0} (env : Env F) where
  -- The first half of a route: the user, and `_load`.
  unfoldable pub load_for : Option String → ℕ → Decision → Exec F Pending
  load_for creds key decision = do
    current ← current_user env creds (staff env)
    ticket ← load env current key
    pure (record { user = current; ticket = ticket; decision = decision })

  -- The second half.
  unfoldable pub decide : User → Ticket → Decision → Exec F Ticket
  decide user ticket (approval edited) = translate (Service.approve env ticket user.id edited)
  decide user ticket (rejection reason) = translate (Service.reject env ticket user.id reason)
  decide user ticket (edition content) = translate (Service.edit_draft ticket user.id content)

  -- A call from its start to its end, the loading of a request or of a run, and a decision or the end
  -- of a run, where it is allowed. The workflow, which reads while others write and asks the
  -- providers, may have any outcome.
  pub data Step (Allowed : Session F → Ticket → Type 0) (x : System F) : System F → Type 0 where
    call :
        (now : ℕ) (c : Call F)
        → Step Allowed x (record x { session = run_at now (perform env c) x.session })
    begin :
        (creds : Option String) (key : ℕ) (decision : Decision) (p : Pending)
        → (in_session (load_for creds key decision) x.session).0 ≡ ok p
        → Step Allowed x (record x { pending = p ∷ x.pending })
    finish :
        (now : ℕ) (p : Pending) (before after : List Pending)
        → x.pending ≡ before ++ (p ∷ after)
        → Allowed x.session p.ticket
        → Step Allowed x (record x {
          session = run_at now (decide p.user p.ticket p.decision) x.session;
          pending = before ++ after;
        })
    run_begins :
        (key : ℕ) (run : AgentRun F) (ticket : Ticket)
        → (in_session (load_run env key) x.session).0 ≡ ok (run, ticket)
        → Step Allowed x
            (record x { running = record { run_id = key; ticket = ticket } ∷ x.running })
    run_ends :
        (now : ℕ) (p : Running) (outcome : Result (AgentState F)) (before after : List Running)
        → x.running ≡ before ++ (p ∷ after)
        → Allowed x.session p.ticket
        → Step Allowed x (record x {
          session = run_at now (end_run env p.run_id p.ticket outcome) x.session;
          running = before ++ after;
        })

  pub data Reach (Allowed : Session F → Ticket → Type 0) (x : System F) : System F → Type 0 where
    here : Reach Allowed x x
    next : {y z : System F} → Reach Allowed x y → Step Allowed y z → Reach Allowed x z

module _ {F : Type 0} where
  -- Any decision.
  abbrev pub Always : Session F → Ticket → Type 0
  Always s t = Unit

  -- The loaded object has the status of the stored row.
  abbrev pub IsFresh : Session F → Ticket → Type 0
  IsFresh s t = (row : Ticket) × (get t.id s.committed.tickets ≡ some row) × (row.status ≡ t.status)
