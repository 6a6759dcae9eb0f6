-- ===== src/Tickets/Service/Soundness.antt =====
-- services/ticket_service.py and the invariant of the tickets and their events.
use agentdesk_ai.Base.{
  ◌⊎◌, true, false, ℕ, suc, ◌≡◌, ◌≢◌, refl, Bool, true, false, inl, inr, Option, none, some, [],
  ◌∷◌, ◌++◌, List, String, ◌<>◌, is_blank, is_some, if◌then◌else◌, arith, All, Bool-cases,
}
use agentdesk_ai.Models.Ticket.{
  Ticket, TicketStatus, TicketPriority, new, approved, rejected, can_transition,
}
use agentdesk_ai.Models.Records.{TicketEvent}
use agentdesk_ai.Session.{Session, Env, commit, ◌>>◌}
use agentdesk_ai.Session.Quiet.{IsQuiet, quiet_rules}
use agentdesk_ai.Session.Rows.{update, ticket_row, All-update}
use agentdesk_ai.Audit.Effects.{IsQuiet-record_event}
use agentdesk_ai.Webhooks.Delivery.Effects.{IsQuiet-enqueue_for_ticket}
use agentdesk_ai.Tickets.History.{Past, HasFinal, IsSound}
use agentdesk_ai.Tickets.History.Steps.{
  IsSound-later, IsSound-update, IsSound-note, IsSound-move, IsSound-create,
}
use agentdesk_ai.Tickets.History.Sessions.{IsSoundSession, IsLoaded, resume-IsSoundSession}
use agentdesk_ai.Tickets.Service.{
  create_ticket, approve, reject, edit_draft, final_text, finish_approval, finish_create,
  insert_ticket, apply_edit, same_text, new_ticket,
}
use agentdesk_ai.Tickets.Transition.{transition, new_event, refresh_ticket}

-- No row becomes approved by a move to another status.
pub no_approval :
    (to_status : TicketStatus) (k now : ℕ) (ts : List Ticket)
    → to_status ≢ approved
    → All (λ t. t.id ≡ k → HasFinal (record t { status = to_status; updated_at = now })) ts
no_approval to_status k now [] ne = tt
no_approval to_status k now (t ∷ ts) ne =
    ((λ e p. absurd (ne p)), no_approval to_status k now ts ne)

final_ready :
    (final : String) (k now : ℕ) (ts : List Ticket)
    → is_blank final ≡ false
    → All
        (λ t. t.id ≡ k → HasFinal (record t { status = approved; updated_at = now }))
        (update k (λ t. record t { final_response = some final }) ts)
final_ready final k now ts ok =
    All-update (λ t. Unit {0})
      (λ t. t.id ≡ k → HasFinal (record t { status = approved; updated_at = now })) k
      (λ t. record t { final_response = some final }) ts (λ t e p q r. (final, refl, ok))
      (λ t ne p e. absurd (ne e)) (everywhere ts)
  where
    everywhere : (xs : List Ticket) → All (λ t. Unit {0}) xs
    everywhere [] = tt
    everywhere (x ∷ xs) = (tt, everywhere xs)

module _ {F : Type 0} where
  -- A move to a status that is not `approved`, or of a row that has its final response.
  pub transition-IsSoundSession :
      {past : Past} (ticket : Ticket) (to_status : TicketStatus) (actor : Option ℕ)
      (event_type : String) (message : Option String) (s : Session F)
      → IsSoundSession past s
      → IsLoaded ticket s
      → All
          (λ t. t.id ≡ ticket.id → HasFinal (record t { status = to_status; updated_at = s.now }))
          s.working.tickets
      → IsSoundSession past (transition ticket to_status actor event_type message s).1
  unfolding transition
  transition-IsSoundSession {past} ticket to_status actor event_type message s h l final =
      elim (Bool-cases (can_transition ticket.status to_status)) [
        | inl legal ↦ rw legal (record {
          seen = IsSound-later _ _ (moved legal) (suc s.next_id) (omega arith);
          stored = IsSound-later _ _ h.stored (suc s.next_id) (omega arith);
        })
        | inr illegal ↦ rw illegal h
      ]
    where
      event : TicketEvent
      event =
          new_event s.next_id s.now ticket event_type (some ticket.status) (some to_status) actor
            message

      moved :
          can_transition ticket.status to_status ≡ true
          → IsSound past s.next_id
              (update ticket.id
                (λ t. record t { status = to_status; updated_at = s.now })
                s.working.tickets)
              (s.working.ticket_events ++ (event ∷ []))
      moved legal =
          IsSound-move s.working.tickets s.working.ticket_events h.seen ticket.id
            (λ t. record t { status = to_status; updated_at = s.now }) event ticket.status to_status
            l.known l.standing legal refl refl refl (λ t. refl) (λ t. refl) (λ t. refl) final

module _ {F : Type 0} (env : Env F) where
  pub reject-IsSoundSession :
      {past : Past} (ticket : Ticket) (actor : ℕ) (reason : Option String) (s : Session F)
      → IsSoundSession past s
      → IsLoaded ticket s
      → IsSoundSession past (reject env ticket actor reason s).1
  unfolding reject
  reject-IsSoundSession ticket actor reason s h l =
      let r = transition ticket rejected (some actor) "rejected" reason s in
      resume-IsSoundSession r.0 _ r.1 (λ t. search (quiet_rules, IsQuiet-record_event) depth 8)
        (transition-IsSoundSession ticket rejected (some actor) "rejected" reason s h l
          (no_approval rejected ticket.id s.now s.working.tickets (λ e. cc)))

  IsQuiet-finish_approval :
      (ticket : Ticket) (actor : ℕ) (edited : Bool)
      → IsQuiet (finish_approval env ticket actor edited)
  unfolding finish_approval
  IsQuiet-finish_approval ticket actor edited =
      search (quiet_rules, IsQuiet-record_event, IsQuiet-enqueue_for_ticket) depth 12

  pub approve-IsSoundSession :
      {past : Past} (ticket : Ticket) (actor : ℕ) (edited : Option String) (s : Session F)
      → IsSoundSession past s
      → IsLoaded ticket s
      → IsSoundSession past (approve env ticket actor edited s).1
  unfolding approve
  approve-IsSoundSession {past} ticket actor edited s h l =
      elim (Bool-cases (is_blank (final_text ticket edited))) [
        | inl blank ↦ rw blank h
        | inr ok ↦
            let final = final_text ticket edited in
            let t : Session F = record s {
              working = record s.working {
                tickets =
                    update ticket.id (λ x. record x { final_response = some final })
                      s.working.tickets;
              };
            } in
            let sound : IsSoundSession past t = record {
              seen =
                  IsSound-update s.working.tickets s.working.ticket_events h.seen ticket.id
                    (λ x. record x { final_response = some final }) (λ x. refl) (λ x. refl)
                    (λ x. refl) (λ x p q. (final, refl, ok));
              stored = h.stored;
            } in
            let loaded : IsLoaded (record ticket { final_response = some final }) t = record {
              known = l.known;
              standing = l.standing;
            } in
            let moved =
              transition-IsSoundSession (record ticket { final_response = some final }) approved
                (some actor) "approved"
                (some ("Response approved" <> (if is_some edited then " (edited)" else ""))) t sound
                loaded (final_ready final ticket.id s.now s.working.tickets ok) in
            rw ok (
              resume-IsSoundSession _ (λ a. finish_approval env a actor (is_some edited)) _
                (λ a. IsQuiet-finish_approval a actor (is_some edited)) moved)
      ]

  IsQuiet-finish_create : (ticket : Ticket) (actor : ℕ) → IsQuiet (finish_create env ticket actor)
  unfolding finish_create
  IsQuiet-finish_create ticket actor = search (quiet_rules, IsQuiet-record_event) depth 8

  pub create_ticket-IsSoundSession :
      {past : Past} (organization_id actor : ℕ) (title description : String)
      (priority : TicketPriority) (s : Session F)
      → IsSoundSession past s
      → IsSoundSession past (create_ticket env organization_id actor title description priority s).1
  unfolding create_ticket
  create_ticket-IsSoundSession organization_id actor title description priority s h =
      let ticket = new_ticket s.next_id s.now organization_id actor title description priority in
      let made =
        IsSound-create s.working.tickets s.working.ticket_events h.seen ticket
          (new_event (suc s.next_id) s.now ticket "created" none (some new) (some actor) none) refl
          refl refl refl refl in
      resume-IsSoundSession (insert_ticket organization_id actor title description priority s).0
        (λ t. finish_create env t actor)
        (insert_ticket organization_id actor title description priority s).1
        (λ t. IsQuiet-finish_create t actor)
        (record {
          seen = IsSound-later _ _ made (suc (suc s.next_id)) (omega arith);
          stored = IsSound-later _ _ h.stored (suc (suc s.next_id)) (omega arith);
        })

module _ {F : Type 0} where
  pub edit_draft-IsSoundSession :
      {past : Past} (ticket : Ticket) (actor : ℕ) (content : String) (s : Session F)
      → IsSoundSession past s
      → IsLoaded ticket s
      → IsSoundSession past (edit_draft ticket actor content s).1
  unfolding edit_draft
  edit_draft-IsSoundSession {past} ticket actor content s h l =
      elim (Bool-cases (is_blank content)) [
        | inl blank ↦ rw blank h
        | inr ok ↦ rw ok (
            resume-IsSoundSession (apply_edit ticket actor content s).0
              (λ _. commit >> refresh_ticket ticket.id) (apply_edit ticket actor content s).1
              (λ _. search quiet_rules)
              (edited (Bool-cases (same_text ticket.draft_response content))))
      ]
    where
      edited :
          (same_text ticket.draft_response content ≡ true)
            ⊎ (same_text ticket.draft_response content ≡ false)
          → IsSoundSession past (apply_edit ticket actor content s).1
      edited (inl same) = rw same (record {
        seen =
            IsSound-later _ _
              (IsSound-note s.working.tickets s.working.ticket_events h.seen
                (new_event s.next_id s.now ticket "edited" none none (some actor)
                  (some "Draft edited"))
                l.known refl)
              (suc s.next_id) (omega arith);
        stored = IsSound-later _ _ h.stored (suc s.next_id) (omega arith);
      })
      edited (inr changed) = rw changed (record {
        seen =
            IsSound-later _ _
              (IsSound-note _ _
                (IsSound-update s.working.tickets s.working.ticket_events h.seen ticket.id
                  (λ t. record t { draft_response = some content; updated_at = s.now }) (λ t. refl)
                  (λ t. refl) (λ t. refl) (λ t p q. p q))
                (new_event s.next_id s.now ticket "edited" none none (some actor)
                  (some "Draft edited"))
                l.known refl)
              (suc s.next_id) (omega arith);
        stored = IsSound-later _ _ h.stored (suc s.next_id) (omega arith);
      })
