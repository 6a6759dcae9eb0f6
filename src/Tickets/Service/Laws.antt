-- ===== src/Tickets/Service/Laws.antt =====
-- services/ticket_service.py: approvals, refusals and the list of tickets.
use agentdesk_ai.Base.{
  ℕ, suc, ◌≡◌, ◌≢◌, ◌↔◌, ◌⊎◌, inl, inr, refl, ap, ◌∙◌, Bool, true, false, Bool-cases, Option, none,
  some, is_some, List, [], ◌∷◌, ◌++◌, String, ◌<>◌, is_blank, arith, ◌==◌, ==_iff, if◌then◌else◌,
}
use agentdesk_ai.Models.Ticket.{Ticket, TicketStatus, waiting_approval, approved, can_transition}
use agentdesk_ai.Models.Records.{bool, obj, member, end, response_approved}
use agentdesk_ai.Session.{Session, Env, Error, invalid_transition, ok, err, Exec, ◌>>=◌, ◌>>◌, pure}
use agentdesk_ai.Session.Quiet.{IsQuiet, quiet_rules}
use agentdesk_ai.Session.Rows.{get, update, get-update_self, ticket_row}
use agentdesk_ai.Audit.{record_event}
use agentdesk_ai.Webhooks.Delivery.{enqueue_for_ticket}
use agentdesk_ai.Webhooks.Delivery.Effects.{IsQuiet-enqueue_for_ticket}
use agentdesk_ai.Tickets.Machine.{decided_from_waiting}
use agentdesk_ai.Tickets.Service.{check_tenant, get_ticket, final_text, finish_approval, approve}
use agentdesk_ai.Tickets.Transition.{new_event, refresh_ticket, transition}

module _ {F : Type 0} where
  -- The session after an allowed transition.
  abbrev pub moved :
      Ticket → TicketStatus → Option ℕ → String → Option String → Session F → Session F
  moved ticket to_status actor event_type message s =
      let event =
        new_event s.next_id s.now ticket event_type (some ticket.status) (some to_status) actor
          message in
      record s {
        working = record s.working {
          tickets =
              update ticket.id (λ t. record t { status = to_status; updated_at = s.now })
                s.working.tickets;
          ticket_events = s.working.ticket_events ++ (event ∷ []);
        };
        next_id = suc s.next_id;
      }

  -- A transition that the table allows writes the new status and one event with both statuses, and
  -- nothing else; one that it forbids is refused and writes nothing.
  transition_lem :
      (ticket : Ticket) (to_status : TicketStatus) (actor : Option ℕ) (event_type : String)
      (message : Option String) (s : Session F)
      → transition ticket to_status actor event_type message s ≡ (
          if can_transition ticket.status to_status
          then (
            ok (record ticket { status = to_status; updated_at = s.now }),
            moved ticket to_status actor event_type message s,
          )
          else (err (invalid_transition ticket.status to_status), s))
  unfolding transition
  transition_lem ticket to_status actor event_type message s =
      elim (Bool-cases (can_transition ticket.status to_status)) [
        | inl e ↦ rw e refl
        | inr e ↦ rw e refl
      ]

  found_lem :
      (organization_id : ℕ) (o : Option Ticket) (s : Session F) (ticket : Ticket)
      → (check_tenant organization_id o s ≡ (ok ticket, s))
        ↔ ((o ≡ some ticket) × (ticket.organization_id ≡ organization_id))
  unfolding check_tenant
  found_lem organization_id none s ticket = (λ p. cc, λ p. cc)
  found_lem organization_id (some t) s ticket =
      elim (Bool-cases (t.organization_id == organization_id)) [
        | inl e ↦
            let own = (==_iff t.organization_id organization_id).0 e in
            rw e (λ p. (cc, cc), λ p. cc)
        | inr e ↦ rw e (λ p. cc, λ p. absurd (ground (arith, p.0, p.1)))
      ]

  -- `get_ticket` gives a ticket exactly if it has the key that is asked for and belongs to the
  -- organization that asks.
  get_ticket_lem :
      (organization_id key : ℕ) (s : Session F) (ticket : Ticket)
      → (get_ticket organization_id key s ≡ (ok ticket, s))
        ↔ ((get key s.working.tickets ≡ some ticket) × (ticket.organization_id ≡ organization_id))
  unfolding get_ticket
  get_ticket_lem organization_id key s ticket =
      found_lem organization_id (get key s.working.tickets) s ticket

  -- A ticket of another organization is reported exactly like one that does not exist.
  get_ticket-foreign :
      (organization_id key : ℕ) (s : Session F) (ticket : Ticket)
      → get key s.working.tickets ≡ some ticket
      → ticket.organization_id ≢ organization_id
      → let empty : Session F = record s { working = record s.working { tickets = [] } } in
        (get_ticket organization_id key s).0 ≡ (get_ticket organization_id key empty).0
  unfolding get_ticket check_tenant
  get_ticket-foreign organization_id key s ticket found ne =
      let other : (ticket.organization_id == organization_id) ≡ false = ground (arith, ne) in
      rw (found, other) refl

module _ {F : Type 0} (env : Env F) where
  -- The tickets that `finish_approval` has committed are those that the session saw.
  finish_approval-commits :
      (ticket : Ticket) (actor : ℕ) (edited : Bool) (s : Session F)
      → (finish_approval env ticket actor edited s).1.committed.tickets ≡ s.working.tickets
  unfolding finish_approval record_event
  finish_approval-commits ticket actor edited s =
      let u =
        (record_event env response_approved (some ticket.organization_id) (some actor)
          (some "ticket") (some ticket.id) (some (obj (member "edited" (bool edited) end))) false
          s).1 in
      let rest : Exec F Ticket = refresh_ticket ticket.id >>= λ refreshed.
      enqueue_for_ticket env refreshed "ticket.approved" >> pure refreshed in
      let quiet : IsQuiet rest = search (quiet_rules, IsQuiet-enqueue_for_ticket) depth 8 in
      elim ((quiet.at (record u { committed = u.working })).published) [ inl p ↦ p.0 | inr p ↦ p.0 ]

  -- An approval of a stored ticket that waits for it, with a final text that is not blank, commits
  -- the ticket as approved with that text, whatever becomes of the webhook behind it.
  pub approve-commits :
      (ticket : Ticket) (actor : ℕ) (edited : Option String) (s : Session F) (row : Ticket)
      → get ticket.id s.working.tickets ≡ some row
      → ticket.status ≡ waiting_approval
      → is_blank (final_text ticket edited) ≡ false
      → get ticket.id (approve env ticket actor edited s).1.committed.tickets
        ≡ some (record row {
          status = approved;
          final_response = some (final_text ticket edited);
          updated_at = s.now;
        })
  unfolding approve
  approve-commits ticket actor edited s row found waiting filled =
      let final = final_text ticket edited in
      let legal : can_transition ticket.status approved ≡ true =
        (decided_from_waiting ticket.status).0.1 waiting in
      let noted =
        get-update_self ticket.id (λ t. record t { final_response = some final }) s.working.tickets
          (λ t. refl) found in
      let t : Session F = record s {
        working = record s.working {
          tickets =
              update ticket.id (λ x. record x { final_response = some final }) s.working.tickets;
        };
      } in
      let u : Session F =
        moved (record ticket { final_response = some final }) approved (some actor) "approved"
          (some ("Response approved" <> (if is_some edited then " (edited)" else ""))) t in
      rw (filled, legal)
        (ap (get ticket.id) (
            finish_approval-commits
              (record ticket { status = approved; final_response = some final; updated_at = s.now })
              actor (is_some edited) u)
          ∙ get-update_self ticket.id (λ t. record t { status = approved; updated_at = s.now }) _
              (λ t. refl) noted)

  -- An approval without a final text, or of a ticket that is not waiting for one, is refused, and
  -- leaves what is committed as it was.
  pub approve-refused :
      (ticket : Ticket) (actor : ℕ) (edited : Option String) (s : Session F)
      → (is_blank (final_text ticket edited) ≡ true) ⊎ (ticket.status ≢ waiting_approval)
      → (e : Error) × ((approve env ticket actor edited s).0 ≡ err e)
        × ((approve env ticket actor edited s).1.committed ≡ s.committed)
  unfolding approve
  approve-refused ticket actor edited s why =
      elim (Bool-cases (is_blank (final_text ticket edited))) [
        | inl blank ↦ rw blank (_, refl, refl)
        | inr filled ↦
            let illegal : can_transition ticket.status approved ≡ false = elim why [
              | inl p ↦ absurd (ground (arith, p, filled))
              | inr ne ↦ elim (Bool-cases (can_transition ticket.status approved)) [
                | inl p ↦ absurd (ne ((decided_from_waiting ticket.status).0.0 p))
                | inr p ↦ p
              ]
            ] in
            rw (filled, illegal) (_, refl, refl)
      ]
