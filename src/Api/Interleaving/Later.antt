-- ===== src/Api/Interleaving/Later.antt =====
-- api/v1/approvals.py and the agent's runs in overlapping steps: the committed rows, later on.
use agentdesk_ai.Base.{ℕ, ◌≡◌, ◌∙◌, refl, some, List, [], ◌∷◌}
use agentdesk_ai.Models.Ticket.{Ticket}
use agentdesk_ai.Models.Records.{User, TicketEvent, AuditLog}
use agentdesk_ai.Session.{Db, Session, Env}
use agentdesk_ai.Session.Growth.{
  Appends, Appends-in_session, Grown, Extends, Extends-refl, Extends-trans,
}
use agentdesk_ai.Session.Rows.{get, get-append_old, ticket_row}
use agentdesk_ai.Tickets.History.{Stays}
use agentdesk_ai.Tickets.History.Steps.{get-update}
use agentdesk_ai.Tickets.Stable.{Tables, Stable, Holds, Preserves, Preserves-in_session}
use agentdesk_ai.Tickets.Service.Stability.{
  Preserves-approve, Preserves-reject, Preserves-edit_draft,
}
use agentdesk_ai.Tickets.Service.Growth.{Appends-approve, Appends-reject, Appends-edit_draft}
use agentdesk_ai.Runs.Service.Stability.{Preserves-end_run}
use agentdesk_ai.Runs.Service.Growth.{Appends-end_run}
use agentdesk_ai.Api.Stability.Anyone.{Preserves-translate, Preserves-perform}
use agentdesk_ai.Api.Soundness.{Keeps-perform}
use agentdesk_ai.Api.Soundness.Common.{Appends-translate}
use agentdesk_ai.Api.Interleaving.{
  Decision, approval, rejection, edition, System, decide, Step, call, begin, finish, run_begins,
  run_ends, Reach, here, next,
}

-- The tickets of the past are there, with their organizations, and its events and audit entries
-- begin the present ones.
pub record IsLater {F : Type 0} (past : Db F) (now : Db F) : Type 0 where
  pub tickets : (t : Ticket) → get t.id past.tickets ≡ some t → Stays t now.tickets
  pub events : Extends past.ticket_events now.ticket_events
  pub audits : Extends past.audit_logs now.audit_logs

abbrev Remains : List Ticket → List TicketEvent → Tables
Remains past past_events ts es =
    ((t : Ticket) → get t.id past ≡ some t → Stays t ts) × Extends past_events es

Remains-Stable :
    (past : List Ticket) (past_events : List TicketEvent) (organization_id : ℕ)
    → Stable organization_id (Remains past past_events) (λ key. Unit)
Remains-Stable past past_events organization_id = record {
  load = λ ts es key t h found own. tt;
  change = λ ts es key f own ids owners h. (
    λ t before.
        let (u, found, same) = h.0 t before in
        let (v, there, kept) = get-update t.id key f ts u ids owners found in
        (v, there, kept ∙ same),
    h.1,
  );
  add = λ ts es x own h. (
    λ t before. let (u, found, same) = h.0 t before in (u, get-append_old t.id ts x found, same),
    h.1,
  );
  note = λ ts es e own h. (h.0, Extends-trans _ _ _ h.1 (e ∷ [], refl));
}

module _ {F : Type 0} (env : Env F) where
  Preserves-decide :
      {I : Tables} (stable : (o : ℕ) → Stable o I (λ key. Unit)) (user : User) (ticket : Ticket)
      (d : Decision)
      → Preserves I (decide env user ticket d)
  unfolding decide
  Preserves-decide stable user ticket (approval edited) =
      Preserves-translate env stable _
        (Preserves-approve (stable ticket.organization_id) env ticket user.id edited refl tt)
  Preserves-decide stable user ticket (rejection reason) =
      Preserves-translate env stable _
        (Preserves-reject (stable ticket.organization_id) env ticket user.id reason refl tt)
  Preserves-decide stable user ticket (edition content) =
      Preserves-translate env stable _
        (Preserves-edit_draft (stable ticket.organization_id) ticket user.id content refl tt)

  Appends-decide :
      (user : User) (ticket : Ticket) (d : Decision) → Appends (decide env user ticket d)
  unfolding decide
  Appends-decide user ticket (approval edited) =
      Appends-translate _ (Appends-approve env ticket user.id edited)
  Appends-decide user ticket (rejection reason) =
      Appends-translate _ (Appends-reject env ticket user.id reason)
  Appends-decide user ticket (edition content) =
      Appends-translate _ (Appends-edit_draft ticket user.id content)

module _ {F : Type 0} (env : Env F) {Allowed : Session F → Ticket → Type 0} where
  Step-Holds :
      {I : Tables} (stable : (o : ℕ) → Stable o I (λ key. Unit)) {x y : System F}
      → Step env Allowed x y
      → Holds I x.session
      → Holds I y.session
  Step-Holds stable {x} (call now c) h =
      (Preserves-in_session _ (Preserves-perform env stable c)).at (record x.session { now = now })
        (record { seen = h.seen; stored = h.stored })
  Step-Holds stable (begin creds key decision p loaded) h = h
  Step-Holds stable {x} (finish now p before after split allowed) h =
      (Preserves-in_session _ (Preserves-decide env stable p.user p.ticket p.decision)).at
        (record x.session { now = now }) (record { seen = h.seen; stored = h.stored })
  Step-Holds stable (run_begins key run ticket loaded) h = h
  Step-Holds stable {x} (run_ends now p outcome before after split allowed) h =
      (Preserves-in_session _ (
          Preserves-end_run env (stable p.ticket.organization_id) p.run_id p.ticket outcome refl
            tt)).at
        (record x.session { now = now }) (record { seen = h.seen; stored = h.stored })

  Step-Grown :
      (past : List (AuditLog F)) {x y : System F}
      → Step env Allowed x y
      → Grown past x.session
      → Grown past y.session
  Step-Grown past {x} (call now c) h =
      (Appends-in_session _ (Keeps-perform env c).appends).at past (record x.session { now = now })
        (record { seen = h.seen; stored = h.stored })
  Step-Grown past (begin creds key decision p loaded) h = h
  Step-Grown past {x} (finish now p before after split allowed) h =
      (Appends-in_session _ (Appends-decide env p.user p.ticket p.decision)).at past
        (record x.session { now = now }) (record { seen = h.seen; stored = h.stored })
  Step-Grown past (run_begins key run ticket loaded) h = h
  Step-Grown past {x} (run_ends now p outcome before after split allowed) h =
      (Appends-in_session _ (Appends-end_run env p.run_id p.ticket outcome)).at past
        (record x.session { now = now }) (record { seen = h.seen; stored = h.stored })

  Reach-Holds :
      {I : Tables} (stable : (o : ℕ) → Stable o I (λ key. Unit)) {x y : System F}
      → Reach env Allowed x y
      → Holds I x.session
      → Holds I y.session
  Reach-Holds stable here h = h
  Reach-Holds stable (next r step) h = Step-Holds stable step (Reach-Holds stable r h)

  Reach-Grown :
      (past : List (AuditLog F)) {x y : System F}
      → Reach env Allowed x y
      → Grown past x.session
      → Grown past y.session
  Reach-Grown past here h = h
  Reach-Grown past (next r step) h = Step-Grown past step (Reach-Grown past r h)

  -- However the decisions of approvals.py and the runs of the agent overlap with each other and with
  -- the other calls, each of these taken as one step, and whatever decisions and ends of runs are
  -- allowed: where a session begins with what is committed, every ticket that is committed stays, in
  -- its organization, and the committed events and audit entries are only added to.
  pub Reach-IsLater :
      {x y : System F}
      → Reach env Allowed x y
      → x.session.working ≡ x.session.committed
      → IsLater x.session.committed y.session.committed
  Reach-IsLater {x} r closed =
      let db = x.session.committed in
      let first : Remains db.tickets db.ticket_events db.tickets db.ticket_events =
        (λ t e. (t, e, refl), Extends-refl db.ticket_events) in
      let last =
        (Reach-Holds (Remains-Stable db.tickets db.ticket_events) r
          (record { seen = rw closed first; stored = first })).stored in
      record {
        tickets = last.0;
        events = last.1;
        audits =
            (Reach-Grown db.audit_logs r (record {
              seen = rw closed (Extends-refl db.audit_logs);
              stored = Extends-refl db.audit_logs;
            })).stored;
      }
