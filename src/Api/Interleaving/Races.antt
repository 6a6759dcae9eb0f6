-- ===== src/Api/Interleaving/Races.antt =====
-- Two decisions on one ticket that was loaded for both before either was taken.
use agentdesk_ai.Base.{ℕ, ◌≡◌, refl, ◌∙◌, ap, false, Option, some, String, is_blank}
use agentdesk_ai.Models.Ticket.{Ticket, waiting_approval, approved, rejected}
use agentdesk_ai.Models.Records.{User}
use agentdesk_ai.Session.{Session, Env, Exec, Result, ok, err, or_handle}
use agentdesk_ai.Session.Rows.{get, ticket_row}
use agentdesk_ai.Tickets.Service.{final_text}
use agentdesk_ai.Tickets.Service
use agentdesk_ai.Tickets.Service.Laws.{approve-commits}
use agentdesk_ai.Tickets.Service.Decisions.{reject-commits}
use agentdesk_ai.Api.Routes.{translate, http_of}
use agentdesk_ai.Api.Interleaving.{approval, rejection, decide, run_at}

module _ {F : Type 0} (env : Env F) where
  translate-state : {A : Type 0} (m : Exec F A) (s : Session F) → (translate m s).1 ≡ (m s).1
  translate-state {A} m s = go (m s).0 (m s).1
    where
      go : (r : Result A) (t : Session F) → (or_handle r (λ e u. (err (http_of e), u)) t).1 ≡ t
      go (ok a) t = refl
      go (err e) t = refl

  -- The last decision wins: if two users have loaded a ticket that waits for its approval, and the
  -- first approves it with a text that is not blank, then the second, who rejects it, is not
  -- refused: the ticket is committed as rejected, with the final response of the approval.
  pub approve-reject :
      (first second : User) (ticket row : Ticket) (edited reason : Option String) (s : Session F)
      (t u : ℕ)
      → get ticket.id s.committed.tickets ≡ some row
      → ticket.status ≡ waiting_approval
      → is_blank (final_text ticket edited) ≡ false
      → let approved_by = run_at t (decide env first ticket (approval edited)) s in
        let rejected_by = run_at u (decide env second ticket (rejection reason)) approved_by in
        get ticket.id rejected_by.committed.tickets
        ≡ some (record row {
          status = rejected;
          final_response = some (final_text ticket edited);
          updated_at = u;
        })
  unfolding decide
  approve-reject first second ticket row edited reason s t u found waiting filled =
      let begun : Session F = record s { working = s.committed; now = t } in
      let after_approval : get ticket.id
            (translate (Service.approve env ticket first.id edited) begun).1.committed.tickets
          ≡ some (record row {
            status = approved;
            final_response = some (final_text ticket edited);
            updated_at = t;
          }) =
        rw (translate-state (Service.approve env ticket first.id edited) begun)
          (approve-commits env ticket first.id edited begun row found waiting filled) in
      let v : Session F = (translate (Service.approve env ticket first.id edited) begun).1 in
      let again : Session F = record v { working = v.committed; now = u } in
      ap (λ x. get ticket.id x.committed.tickets)
        (translate-state (Service.reject env ticket second.id reason) again)
      ∙ (reject-commits env ticket second.id reason again _ after_approval waiting).stored
