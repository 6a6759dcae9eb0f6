-- ===== src/Session/Growth.antt =====
-- Actions that write the audit log at its end only, and how they compose.
use mathlib.Core.List.{append_assoc, append-nil}
use mathlib.Core.Path.{subst}
use agentdesk_ai.Base.{
  ◌≡◌, sym, Bool, Bool-cases, inl, inr, true, false, Option, none, some, List, [], ◌++◌,
  if◌then◌else◌,
}
use agentdesk_ai.Models.Ticket.{Ticket}
use agentdesk_ai.Models.Records.{AuditLog, TicketEvent}
use agentdesk_ai.Session.State.{Db, Session, Env, Error, Request, Task}
use agentdesk_ai.Session.Action.{
  Exec, Result, ok, err, resume, or_handle, pure, raise, raise_if, raise_if_none, query, fresh_id,
  get_now, write, commit, rollback, delay, log_post, catch, in_session, ◌>>=◌,
}

-- The list is the one before with others behind it.
abbrev pub Extends : {A : Type 0} → List A → List A → Type 0
Extends {A} before after = (more : List A) × (after ≡ before ++ more)

pub Extends-refl : {A : Type 0} (xs : List A) → Extends xs xs
Extends-refl xs = ([], sym (append-nil xs))

pub Extends-trans : {A : Type 0} (a b c : List A) → Extends a b → Extends b c → Extends a c
Extends-trans a b c (more, p) (further, q) =
    (more ++ further, rw (q, p) (append_assoc a more further))

-- The audit log of some moment before begins what the session sees and what is committed.
pub record Grown {F : Type 0} (past : List (AuditLog F)) (s : Session F) : Type 0 where
  pub seen : Extends past s.working.audit_logs
  pub stored : Extends past s.committed.audit_logs

pub record Appends {F A : Type 0} (m : Exec F A) : Type 0 where
  pub at : (past : List (AuditLog F)) (s : Session F) → Grown past s → Grown past (m s).1

module _ {F : Type 0} where
  pub Appends-bind :
      {A B : Type 0} (m : Exec F A) (f : A → Exec F B)
      → Appends m
      → ((a : A) → Appends (f a))
      → Appends (m >>= f)
  Appends-bind {A} {B} m f hm hf = record {
    at = λ past s h. go past (m s).0 (m s).1 (hm.at past s h);
  }
    where
      go :
          (past : List (AuditLog F)) (r : Result A) (t : Session F)
          → Grown past t
          → Grown past (resume r f t).1
      go past (ok a) t h = (hf a).at past t h
      go past (err e) t h = h

  pub Appends-catch :
      {A : Type 0} (m : Exec F A) (handler : Error → Exec F A)
      → Appends m
      → ((e : Error) → Appends (handler e))
      → Appends (catch m handler)
  Appends-catch {A} m handler hm hh = record {
    at = λ past s h. go past (m s).0 (m s).1 (hm.at past s h);
  }
    where
      go :
          (past : List (AuditLog F)) (r : Result A) (t : Session F)
          → Grown past t
          → Grown past (or_handle r handler t).1
      go past (ok a) t h = h
      go past (err e) t h = (hh e).at past t h

  -- What changes nothing.
  pub Appends-same : {A : Type 0} (m : Exec F A) → ((s : Session F) → (m s).1 ≡ s) → Appends m
  Appends-same m same = record { at = λ past s h. subst (λ t. Grown past t) (sym (same s)) h }

  pub Appends-pure : {A : Type 0} (a : A) → Appends {F = F} (pure a)
  Appends-pure a = record { at = λ past s h. h }

  pub Appends-raise : {A : Type 0} (e : Error) → Appends {F = F} {A = A} (raise e)
  Appends-raise e = record { at = λ past s h. h }

  pub Appends-raise_if_none :
      {A : Type 0} (o : Option A) (e : Error) → Appends {F = F} (raise_if_none o e)
  Appends-raise_if_none none e = record { at = λ past s h. h }
  Appends-raise_if_none (some a) e = record { at = λ past s h. h }

  pub Appends-raise_if : (b : Bool) (e : Error) → Appends {F = F} (raise_if b e)
  Appends-raise_if true e = record { at = λ past s h. h }
  Appends-raise_if false e = record { at = λ past s h. h }

  pub Appends-query : {A : Type 0} (f : Db F → A) → Appends (query f)
  Appends-query f = record { at = λ past s h. h }

  pub Appends-fresh_id : Appends {F = F} fresh_id
  Appends-fresh_id = record { at = λ past s h. record { seen = h.seen; stored = h.stored } }

  pub Appends-get_now : Appends {F = F} get_now
  Appends-get_now = record { at = λ past s h. h }

  pub Appends-commit : Appends {F = F} commit
  Appends-commit = record { at = λ past s h. record { seen = h.seen; stored = h.seen } }

  pub Appends-rollback : Appends {F = F} rollback
  Appends-rollback = record { at = λ past s h. record { seen = h.stored; stored = h.stored } }

  pub Appends-log_post : (r : Request) → Appends {F = F} (log_post r)
  Appends-log_post r = record { at = λ past s h. record { seen = h.seen; stored = h.stored } }

  pub Appends-delay : (env : Env F) (task : Task) → Appends (delay env task)
  Appends-delay env task = record {
    at = λ past s h. elim (Bool-cases (env.broker_accepts task)) [
      | inl e ↦ rw (e, delay) (record { seen = h.seen; stored = h.stored })
      | inr e ↦ rw (e, delay) h
    ];
  }

  pub Appends-write :
      (f : Db F → Db F)
      → ((db : Db F) → Extends db.audit_logs (f db).audit_logs)
      → Appends (write f)
  Appends-write f grows = record {
    at = λ past s h. record {
      seen = Extends-trans _ _ _ h.seen (grows s.working);
      stored = h.stored;
    };
  }

  pub Appends-if :
      {A : Type 0} (b : Bool) (m n : Exec F A)
      → Appends m
      → Appends n
      → Appends (if b then m else n)
  Appends-if true m n hm hn = hm
  Appends-if false m n hm hn = hn

  pub Appends-in_session : {A : Type 0} (m : Exec F A) → Appends m → Appends (in_session m)
  Appends-in_session m hm = record {
    at = λ past s h.
        let begun : Session F = record s { working = s.committed } in
        let ended = hm.at past begun (record { seen = h.stored; stored = h.stored }) in
        record { seen = ended.stored; stored = ended.stored };
  }

  -- A write to another table.
  pub Appends-write_tickets :
      (f : Db F → List Ticket) → Appends (write λ db. record db { tickets = f db })
  Appends-write_tickets f = Appends-write _ (λ db. Extends-refl db.audit_logs)

  pub Appends-write_events :
      (f : Db F → List TicketEvent) → Appends (write λ db. record db { ticket_events = f db })
  Appends-write_events f = Appends-write _ (λ db. Extends-refl db.audit_logs)

pub ruleset append_rules = (
  Appends-bind, Appends-pure, Appends-raise, Appends-raise_if, Appends-raise_if_none, Appends-query,
  Appends-fresh_id, Appends-get_now, Appends-commit, Appends-rollback, Appends-if,
  Appends-write_tickets, Appends-write_events,
)
