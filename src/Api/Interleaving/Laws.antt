-- ===== src/Api/Interleaving/Laws.antt =====
-- api/v1/approvals.py and the agent's runs in overlapping steps: the history of the tickets.
use agentdesk_ai.Base.{ℕ}
use agentdesk_ai.Models.Ticket.{Ticket}
use agentdesk_ai.Models.Records.{User}
use agentdesk_ai.Session.{Session, Env}
use agentdesk_ai.Session.Rows.{get-key, ticket_row}
use agentdesk_ai.Tickets.History.{Past}
use agentdesk_ai.Tickets.History.Sessions.{IsSoundSession, IsLoaded, get-IsLoaded}
use agentdesk_ai.Tickets.History.Keeps.{Keeps-in_session}
use agentdesk_ai.Tickets.Service
use agentdesk_ai.Tickets.Service.Soundness.{
  approve-IsSoundSession, reject-IsSoundSession, edit_draft-IsSoundSession,
}
use agentdesk_ai.Runs.Service.Soundness.{end_run-IsSoundSession}
use agentdesk_ai.Api.Serve.{perform}
use agentdesk_ai.Api.Soundness.{Keeps-perform}
use agentdesk_ai.Api.Soundness.Common.{translated}
use agentdesk_ai.Api.Interleaving.{
  Decision, approval, rejection, edition, System, decide, Step, call, begin, finish, run_begins,
  run_ends, Reach, here, next, IsFresh,
}

module _ {F : Type 0} (env : Env F) {past : Past} where
  decide-IsSoundSession :
      (user : User) (ticket : Ticket) (d : Decision) (s : Session F)
      → IsSoundSession past s
      → IsLoaded ticket s
      → IsSoundSession past (decide env user ticket d s).1
  unfolding decide
  decide-IsSoundSession user ticket (approval edited) s h l =
      translated (Service.approve env ticket user.id edited) s
        (approve-IsSoundSession env ticket user.id edited s h l)
  decide-IsSoundSession user ticket (rejection reason) s h l =
      translated (Service.reject env ticket user.id reason) s
        (reject-IsSoundSession env ticket user.id reason s h l)
  decide-IsSoundSession user ticket (edition content) s h l =
      translated (Service.edit_draft ticket user.id content) s
        (edit_draft-IsSoundSession ticket user.id content s h l)

  -- An object with the status of its row is as good as one that is loaded now.
  IsFresh-IsLoaded :
      (ticket : Ticket) (s : Session F)
      → IsSoundSession past s
      → IsFresh s ticket
      → (now : ℕ) → IsLoaded ticket (record s { working = s.committed; now = now })
  IsFresh-IsLoaded ticket s h (row, found, same) now =
      let begun : Session F = record s { working = s.committed; now = now } in
      let key = get-key ticket.id s.committed.tickets found in
      let loaded : IsLoaded row begun =
        get-IsLoaded row begun (record { seen = h.stored; stored = h.stored }) (cc (key, found)) in
      record { known = rw⁻¹ key loaded.known; standing = cc (key, same, loaded.standing) }

  Step-IsSoundSession :
      {x y : System F}
      → Step env IsFresh x y
      → IsSoundSession past x.session
      → IsSoundSession past y.session
  Step-IsSoundSession {x} (call now c) h =
      (Keeps-in_session (perform env c) (Keeps-perform env c)).at (record x.session { now = now })
        (record { seen = h.seen; stored = h.stored })
  Step-IsSoundSession (begin creds key decision p loaded) h = h
  Step-IsSoundSession {x} (finish now p before after split fresh) h =
      let begun : Session F = record x.session { working = x.session.committed; now = now } in
      let ended =
        decide-IsSoundSession p.user p.ticket p.decision begun
          (record { seen = h.stored; stored = h.stored })
          (IsFresh-IsLoaded p.ticket x.session h fresh now) in
      record { seen = ended.stored; stored = ended.stored }
  Step-IsSoundSession (run_begins key run ticket loaded) h = h
  Step-IsSoundSession {x} (run_ends now p outcome before after split fresh) h =
      let begun : Session F = record x.session { working = x.session.committed; now = now } in
      let ended =
        end_run-IsSoundSession env p.run_id p.ticket outcome begun
          (record { seen = h.stored; stored = h.stored })
          (IsFresh-IsLoaded p.ticket x.session h fresh now) in
      record { seen = ended.stored; stored = ended.stored }

  -- However the decisions of approvals.py and the runs of the agent overlap with each other and with
  -- the other calls, each of these taken as one step: if every decision and every end of a run finds
  -- the loaded object still with the status of its row, whatever came of the workflow, then the
  -- session stays sound, that is, the events of every ticket are a run of the state machine that ends
  -- in its status.
  pub Reach-IsSoundSession :
      {x y : System F}
      → Reach env IsFresh x y
      → IsSoundSession past x.session
      → IsSoundSession past y.session
  Reach-IsSoundSession here h = h
  Reach-IsSoundSession (next r step) h = Step-IsSoundSession step (Reach-IsSoundSession r h)
