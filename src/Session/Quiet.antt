-- ===== src/Session/Quiet.antt =====
-- Actions that leave the tickets and their events alone, audit entries, webhooks and deliveries, and
-- that take nothing from the audit log.
use agentdesk_ai.Base.{◌≤◌, ◌≡◌, ◌⊎◌, Bool, true, false, Option, none, some, arith, if◌then◌else◌}
use agentdesk_ai.Session.State.{Db, Session, Env, Error, Request, Task}
use agentdesk_ai.Session.Action.{
  Exec, Result, ok, err, resume, pure, raise, raise_if, raise_if_none, query, fresh_id, get_now,
  write, commit, delay, log_post, or_handle, catch, ◌>>=◌,
}
use agentdesk_ai.Session.Growth.{
  Extends, Appends, Appends-bind, Appends-catch, Appends-pure, Appends-raise, Appends-raise_if,
  Appends-raise_if_none, Appends-query, Appends-fresh_id, Appends-get_now, Appends-commit,
  Appends-log_post, Appends-delay, Appends-write,
}

-- What is committed after is what was committed before, or what the session saw before.
pub record Quiet {F : Type 0} (s t : Session F) : Type 0 where
  pub tickets : t.working.tickets ≡ s.working.tickets
  pub events : t.working.ticket_events ≡ s.working.ticket_events
  pub ids : s.next_id ≤ t.next_id
  pub clock : t.now ≡ s.now
  pub published :
      ((t.committed.tickets ≡ s.committed.tickets)
        × (t.committed.ticket_events ≡ s.committed.ticket_events))
      ⊎ ((t.committed.tickets ≡ s.working.tickets)
          × (t.committed.ticket_events ≡ s.working.ticket_events))

pub record IsQuiet {F A : Type 0} (m : Exec F A) : Type 0 where
  pub at : (s : Session F) → Quiet s (m s).1
  pub appends : Appends m

module _ {F : Type 0} where
  pub Quiet-trans : {s t u : Session F} → Quiet s t → Quiet t u → Quiet s u
  Quiet-trans {s} {t} {u} h k = ground arith

  pub IsQuiet-bind :
      {A B : Type 0} (m : Exec F A) (f : A → Exec F B)
      → IsQuiet m
      → ((a : A) → IsQuiet (f a))
      → IsQuiet (m >>= f)
  IsQuiet-bind {A} {B} m f hm hf = record {
    at = λ s. go s (m s).0 (m s).1 (hm.at s);
    appends = Appends-bind m f hm.appends (λ a. (hf a).appends);
  }
    where
      go : (s : Session F) (r : Result A) (t : Session F) → Quiet s t → Quiet s (resume r f t).1
      go s (ok a) t q = Quiet-trans q ((hf a).at t)
      go s (err e) t q = q

  pub IsQuiet-pure : {A : Type 0} (a : A) → IsQuiet {F = F} (pure a)
  IsQuiet-pure a = record { at = λ s. ground arith; appends = Appends-pure a }

  pub IsQuiet-raise : {A : Type 0} (e : Error) → IsQuiet {F = F} {A = A} (raise e)
  IsQuiet-raise e = record { at = λ s. ground arith; appends = Appends-raise e }

  pub IsQuiet-raise_if_none :
      {A : Type 0} (o : Option A) (e : Error) → IsQuiet {F = F} (raise_if_none o e)
  IsQuiet-raise_if_none none e = record {
    at = λ s. ground arith;
    appends = Appends-raise_if_none none e;
  }
  IsQuiet-raise_if_none (some a) e = record {
    at = λ s. ground arith;
    appends = Appends-raise_if_none (some a) e;
  }

  pub IsQuiet-raise_if : (b : Bool) (e : Error) → IsQuiet {F = F} (raise_if b e)
  IsQuiet-raise_if true e = record { at = λ s. ground arith; appends = Appends-raise_if true e }
  IsQuiet-raise_if false e = record { at = λ s. ground arith; appends = Appends-raise_if false e }

  pub IsQuiet-query : {A : Type 0} (f : Db F → A) → IsQuiet (query f)
  IsQuiet-query f = record { at = λ s. ground arith; appends = Appends-query f }

  pub IsQuiet-fresh_id : IsQuiet {F = F} fresh_id
  IsQuiet-fresh_id = record { at = λ s. ground arith; appends = Appends-fresh_id }

  pub IsQuiet-get_now : IsQuiet {F = F} get_now
  IsQuiet-get_now = record { at = λ s. ground arith; appends = Appends-get_now }

  pub IsQuiet-commit : IsQuiet {F = F} commit
  IsQuiet-commit = record { at = λ s. ground arith; appends = Appends-commit }

  pub IsQuiet-write :
      (f : Db F → Db F)
      → ((db : Db F) → (f db).tickets ≡ db.tickets)
      → ((db : Db F) → (f db).ticket_events ≡ db.ticket_events)
      → ((db : Db F) → Extends db.audit_logs (f db).audit_logs)
      → IsQuiet (write f)
  IsQuiet-write f ht he grows = record {
    at = λ s. ground (arith, ht s.working, he s.working);
    appends = Appends-write f grows;
  }

  pub IsQuiet-log_post : (r : Request) → IsQuiet {F = F} (log_post r)
  IsQuiet-log_post r = record { at = λ s. ground arith; appends = Appends-log_post r }

  pub IsQuiet-delay : (env : Env F) (task : Task) → IsQuiet (delay env task)
  IsQuiet-delay env task = record { at = λ s. ground arith; appends = Appends-delay env task }

  pub IsQuiet-catch :
      {A : Type 0} (m : Exec F A) (handler : Error → Exec F A)
      → IsQuiet m
      → ((e : Error) → IsQuiet (handler e))
      → IsQuiet (catch m handler)
  IsQuiet-catch {A} m handler hm hh = record {
    at = λ s. go s (m s).0 (m s).1 (hm.at s);
    appends = Appends-catch m handler hm.appends (λ e. (hh e).appends);
  }
    where
      go :
          (s : Session F) (r : Result A) (t : Session F)
          → Quiet s t
          → Quiet s (or_handle r handler t).1
      go s (ok a) t q = q
      go s (err e) t q = Quiet-trans q ((hh e).at t)

  pub IsQuiet-Appends : {A : Type 0} (m : Exec F A) → IsQuiet m → Appends m
  IsQuiet-Appends m h = h.appends

  pub IsQuiet-if :
      {A : Type 0} (b : Bool) (m n : Exec F A)
      → IsQuiet m
      → IsQuiet n
      → IsQuiet (if b then m else n)
  IsQuiet-if true m n hm hn = hm
  IsQuiet-if false m n hm hn = hn

pub ruleset quiet_rules = (
  IsQuiet-bind, IsQuiet-pure, IsQuiet-raise, IsQuiet-raise_if_none, IsQuiet-query, IsQuiet-fresh_id,
  IsQuiet-get_now, IsQuiet-commit, IsQuiet-log_post, IsQuiet-delay, IsQuiet-if,
)
