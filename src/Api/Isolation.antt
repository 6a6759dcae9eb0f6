-- ===== src/Api/Isolation.antt =====
-- api/v1 and workers/tasks.py: a call for one organization, and the tickets of the others.
pub mod Apart
use agentdesk_ai.Base.{ℕ, ◌<◌, refl, [], ◌∷◌, All}
use agentdesk_ai.Session.{Session, Env, in_session}
use agentdesk_ai.Tickets.Stable.{Holds}
use agentdesk_ai.Api.Serve.{Call, perform, serve}
use agentdesk_ai.Api.Stability.Calls.{ActsFor, perform-Holds}
use agentdesk_ai.Api.Isolation.Apart.{IsApart, IsApart-refl, IsApart-Stable}

module _ {F : Type 0} (env : Env F) where
  -- The session that a call begins with.
  abbrev pub begun : ℕ → Session F → Session F
  begun now s = record s { working = s.committed; now = now }

  -- Tenant isolation: a call that acts for one organization, the request of one of its users or the
  -- task of a run of one of its tickets, leaves the tickets and the events of every other
  -- organization as they were: by key the same rows, none more and none fewer, and the same events
  -- in the same order. The keys of the runs are below the next one.
  pub serve-IsApart :
      (now : ℕ) (call : Call F) (s : Session F) (organization_id : ℕ)
      → All (λ r. r.id < s.next_id) s.committed.agent_runs
      → ActsFor env (begun now s) organization_id call
      → let t = serve env ((now, call) ∷ []) s in
        IsApart organization_id s.committed.tickets s.committed.ticket_events t.committed.tickets
          t.committed.ticket_events
  unfolding serve
  serve-IsApart now call s organization_id fresh acts =
      let same = IsApart-refl organization_id s.committed.tickets s.committed.ticket_events in
      (perform-Holds env
        (IsApart-Stable organization_id s.committed.tickets s.committed.ticket_events) call
        (begun now s) acts fresh (record { seen = same; stored = same })).stored
