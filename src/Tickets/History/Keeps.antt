-- ===== src/Tickets/History/Keeps.antt =====
-- Actions that keep the invariant of the tickets and their events and take nothing from the audit
-- log, and how they compose.
use agentdesk_ai.Base.{
  ℕ, Bool, true, false, Option-cases, inl, inr, Bool-cases, ◌==◌, if◌then◌else◌,
}
use agentdesk_ai.Models.Ticket.{Ticket}
use agentdesk_ai.Session.{Session, Exec, Result, ok, err, Error, resume, catch, in_session, ◌>>=◌}
use agentdesk_ai.Session.Growth.{
  Appends, Appends-bind, Appends-catch, Appends-in_session, append_rules,
}
use agentdesk_ai.Session.Quiet.{IsQuiet}
use agentdesk_ai.Session.Rows.{get, get-key, ticket_row}
use agentdesk_ai.Tickets.Service.{get_ticket}
use agentdesk_ai.Tickets.Service.Growth.{Appends-get_ticket}
use agentdesk_ai.Tickets.History.{Past}
use agentdesk_ai.Tickets.History.Sessions.{
  IsSoundSession, IsLoaded, Quiet-IsSoundSession, get-IsLoaded, or_handle-IsSoundSession,
}

pub record Keeps {F A : Type 0} (m : Exec F A) : Type 0 where
  pub at : {past : Past} (s : Session F) → IsSoundSession past s → IsSoundSession past (m s).1
  pub appends : Appends m

module _ {F : Type 0} where
  pub Keeps-quiet : {A : Type 0} (m : Exec F A) → IsQuiet m → Keeps m
  Keeps-quiet m q = record { at = λ s h. Quiet-IsSoundSession (q.at s) h; appends = q.appends }

  pub Keeps-bind :
      {A B : Type 0} (m : Exec F A) (f : A → Exec F B)
      → Keeps m
      → ((a : A) → Keeps (f a))
      → Keeps (m >>= f)
  Keeps-bind {A} {B} m f hm hf = record {
    at = λ s h. go (m s).0 (m s).1 (hm.at s h);
    appends = Appends-bind m f hm.appends (λ a. (hf a).appends);
  }
    where
      go :
          {past : Past} (r : Result A) (t : Session F)
          → IsSoundSession past t
          → IsSoundSession past (resume r f t).1
      go (ok a) t h = (hf a).at t h
      go (err e) t h = h

  pub Keeps-catch :
      {A : Type 0} (m : Exec F A) (handler : Error → Exec F A)
      → Keeps m
      → ((e : Error) → Keeps (handler e))
      → Keeps (catch m handler)
  Keeps-catch m handler hm hh = record {
    at = λ s h.
        or_handle-IsSoundSession (m s).0 handler (m s).1 (hm.at s h)
          (λ e. (hh e).at (m s).1 (hm.at s h));
    appends = Appends-catch m handler hm.appends (λ e. (hh e).appends);
  }

  pub Keeps-if :
      {A : Type 0} (b : Bool) (m n : Exec F A) → Keeps m → Keeps n → Keeps (if b then m else n)
  Keeps-if true m n hm hn = hm
  Keeps-if false m n hm hn = hn

  -- A session that is closed keeps what it has committed.
  pub Keeps-in_session : {A : Type 0} (m : Exec F A) → Keeps m → Keeps (in_session m)
  Keeps-in_session m hm = record {
    at = λ s h.
        let begun : Session F = record s { working = s.committed } in
        let ended = hm.at begun (record { seen = h.stored; stored = h.stored }) in
        record { seen = ended.stored; stored = ended.stored };
    appends = Appends-in_session m hm.appends;
  }

  -- A ticket of the organization, and then what keeps the invariant for a loaded ticket.
  pub get_ticket_then :
      {A : Type 0} (organization_id ticket_id : ℕ) (g : Error → Error) (f : Ticket → Exec F A)
      → ((past : Past) (ticket : Ticket) (s : Session F)
          → IsSoundSession past s
          → IsLoaded ticket s
          → IsSoundSession past (f ticket s).1)
      → ((ticket : Ticket) → Appends (f ticket))
      → Keeps (catch (get_ticket organization_id ticket_id) (λ e s. (err (g e), s)) >>= f)
  unfolding get_ticket
  get_ticket_then {A} organization_id ticket_id g f k grows = record {
    at = λ {past} s h. elim (Option-cases (get ticket_id s.working.tickets)) [
      | inl missing ↦ rw missing h
      | inr (ticket, found) ↦
          let loaded : IsLoaded ticket s =
            get-IsLoaded ticket s h (cc (get-key ticket_id s.working.tickets found)) in
          rw found (elim (Bool-cases (ticket.organization_id == organization_id)) [
            | inl own ↦ rw own (k past ticket s h loaded)
            | inr foreign ↦ rw foreign h
          ])
    ];
    appends = search (append_rules, Appends-catch, Appends-get_ticket, grows);
  }
