-- ===== src/Api/Refinement.antt =====
-- The calls one after another, against an abstract specification: a state machine for each ticket.
use mathlib.Core.List.{append-nil}
use agentdesk_ai.Base.{ℕ, ◌≡◌, some, refl, sym, List, [], ◌∷◌, ◌++◌}
use agentdesk_ai.Models.Ticket.{Ticket}
use agentdesk_ai.Models.Records.{TicketEvent, AuditLog}
use agentdesk_ai.Session.{Session, Env, in_session}
use agentdesk_ai.Session.Growth.{Grown, Extends-refl}
use agentdesk_ai.Tickets.History.Keeps.{Keeps-in_session}
use agentdesk_ai.Session.Rows.{get, ticket_row}
use agentdesk_ai.Tickets.History.{Past, IsSound}
use agentdesk_ai.Tickets.History.Trails.{Moved, IsSound-Moved}
use agentdesk_ai.Tickets.History.Sessions.{IsSoundSession}
use agentdesk_ai.Api.Serve.{Call, perform, serve}
use agentdesk_ai.Api.Soundness.{Keeps-perform, serve-IsSoundSession}

-- Nothing before.
abbrev pub beginning : Past
beginning = record { tickets = []; events = [] }

module _ {F : Type 0} where
  abbrev pub snapshot : Session F → Past
  snapshot s = record { tickets = s.committed.tickets; events = s.committed.ticket_events }

  committed_again :
      (s : Session F)
      → IsSoundSession beginning s
      → IsSound (snapshot s) s.next_id s.committed.tickets s.committed.ticket_events
  committed_again s h = record {
    ticket_keys = h.stored.ticket_keys;
    event_keys = h.stored.event_keys;
    histories = h.stored.histories;
    finals = h.stored.finals;
    kept = λ t e. (t, e, refl);
    grown = ([], sym (append-nil s.committed.ticket_events));
  }

module _ {F : Type 0} (env : Env F) where
  serve-IsSound :
      (calls : List (ℕ × Call F)) (s : Session F)
      → IsSoundSession beginning s
      → IsSound
          (snapshot s)
          (serve env calls s).next_id
          (serve env calls s).committed.tickets
          (serve env calls s).committed.ticket_events
  unfolding serve
  serve-IsSound [] s h = committed_again s h
  serve-IsSound (c ∷ calls) s h =
      (serve-IsSoundSession env (c ∷ calls) (record s { working = s.committed })
        (record { seen = committed_again s h; stored = committed_again s h })).stored

  -- The system refines its abstract specification, one state machine for each ticket: from a sound
  -- session, whatever requests and tasks are served, one after another, a ticket that is committed
  -- before is committed after, in the same organization, with a status that moves allowed by the
  -- table lead to.
  pub serve-Moved :
      (calls : List (ℕ × Call F)) (s : Session F) (t : Ticket)
      → IsSoundSession beginning s
      → get t.id s.committed.tickets ≡ some t
      → (u : Ticket) × (get t.id (serve env calls s).committed.tickets ≡ some u) × Moved t u
  serve-Moved calls s t h found =
      IsSound-Moved s.committed.tickets (serve env calls s).committed.tickets
        s.committed.ticket_events (serve env calls s).committed.ticket_events t
        (committed_again s h) (serve-IsSound calls s h) found

  -- The history of the tickets is never rewritten: from a sound session, whatever requests and
  -- tasks are served, the committed events after are those before with others behind them.
  serve-events_grow :
      (calls : List (ℕ × Call F)) (s : Session F)
      → IsSoundSession beginning s
      → (more : List TicketEvent) × ((serve env calls s).committed.ticket_events
          ≡ s.committed.ticket_events ++ more)
  serve-events_grow calls s h = (serve-IsSound calls s h).grown

  -- The clients' sessions begin with what is committed.
  serve-Grown :
      (log : List (AuditLog F)) (calls : List (ℕ × Call F)) (s : Session F)
      → Grown log s
      → Grown log (serve env calls s)
  unfolding serve
  serve-Grown log [] s h = h
  serve-Grown log ((now, call) ∷ calls) s h =
      let started : Session F = record s { now = now } in
      serve-Grown log calls (in_session (perform env call) started).1 (
        (Keeps-in_session (perform env call) (Keeps-perform env call)).appends.at log started
          (record { seen = h.seen; stored = h.stored }))

  -- The audit log is append-only: from any session, whatever requests and tasks are served, one
  -- after another, whether they answer or raise, the committed entries after are those before with others behind them.
  serve-audit_logs_grow :
      (calls : List (ℕ × Call F)) (s : Session F)
      → (more : List (AuditLog F)) × ((serve env calls s).committed.audit_logs
          ≡ s.committed.audit_logs ++ more)
  unfolding serve
  serve-audit_logs_grow [] s = Extends-refl s.committed.audit_logs
  serve-audit_logs_grow (c ∷ calls) s =
      (serve-Grown s.committed.audit_logs (c ∷ calls) (record s { working = s.committed })
        (record {
          seen = Extends-refl s.committed.audit_logs;
          stored = Extends-refl s.committed.audit_logs;
        })).stored
