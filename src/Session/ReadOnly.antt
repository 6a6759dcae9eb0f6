-- ===== src/Session/ReadOnly.antt =====
-- Actions that change nothing, and how they compose.
use mathlib.Core.Path.{subst}
use agentdesk_ai.Base.{
  ◌≡◌, refl, sym, ◌∙◌, Bool, true, false, Option, none, some, arith, if◌then◌else◌,
}
use agentdesk_ai.Session.State.{Db, Session, Error}
use agentdesk_ai.Session.Action.{
  Exec, Result, ok, err, resume, pure, raise, raise_if, raise_if_none, query, get_now, or_handle,
  catch, ◌>>=◌,
}
use agentdesk_ai.Session.Growth.{Appends-same}
use agentdesk_ai.Session.Quiet.{Quiet, IsQuiet}

pub record IsReadOnly {F A : Type 0} (m : Exec F A) : Type 0 where
  pub at : (s : Session F) → (m s).1 ≡ s

module _ {F : Type 0} where
  pub IsReadOnly-bind :
      {A B : Type 0} (m : Exec F A) (f : A → Exec F B)
      → IsReadOnly m
      → ((a : A) → IsReadOnly (f a))
      → IsReadOnly (m >>= f)
  IsReadOnly-bind {A} {B} m f hm hf = record { at = λ s. go (m s).0 (m s).1 ∙ hm.at s }
    where
      go : (r : Result A) (t : Session F) → (resume r f t).1 ≡ t
      go (ok a) t = (hf a).at t
      go (err e) t = refl

  pub IsReadOnly-pure : {A : Type 0} (a : A) → IsReadOnly {F = F} (pure a)
  IsReadOnly-pure a = record { at = λ s. refl }

  pub IsReadOnly-raise : {A : Type 0} (e : Error) → IsReadOnly {F = F} {A = A} (raise e)
  IsReadOnly-raise e = record { at = λ s. refl }

  pub IsReadOnly-raise_if_none :
      {A : Type 0} (o : Option A) (e : Error) → IsReadOnly {F = F} (raise_if_none o e)
  IsReadOnly-raise_if_none none e = record { at = λ s. refl }
  IsReadOnly-raise_if_none (some a) e = record { at = λ s. refl }

  pub IsReadOnly-raise_if : (b : Bool) (e : Error) → IsReadOnly {F = F} (raise_if b e)
  IsReadOnly-raise_if true e = record { at = λ s. refl }
  IsReadOnly-raise_if false e = record { at = λ s. refl }

  pub IsReadOnly-query : {A : Type 0} (f : Db F → A) → IsReadOnly (query f)
  IsReadOnly-query f = record { at = λ s. refl }

  pub IsReadOnly-get_now : IsReadOnly {F = F} get_now
  IsReadOnly-get_now = record { at = λ s. refl }

  pub IsReadOnly-catch :
      {A : Type 0} (m : Exec F A) (f : Error → Exec F A)
      → IsReadOnly m
      → ((e : Error) → IsReadOnly (f e))
      → IsReadOnly (catch m f)
  IsReadOnly-catch {A} m f hm hf = record { at = λ s. go (m s).0 (m s).1 ∙ hm.at s }
    where
      go : (r : Result A) (t : Session F) → (or_handle r f t).1 ≡ t
      go (ok a) t = refl
      go (err e) t = (hf e).at t

  pub IsReadOnly-if :
      {A : Type 0} (b : Bool) (m n : Exec F A)
      → IsReadOnly m
      → IsReadOnly n
      → IsReadOnly (if b then m else n)
  IsReadOnly-if true m n hm hn = hm
  IsReadOnly-if false m n hm hn = hn

  same-Quiet : (s : Session F) → Quiet s s
  same-Quiet s = ground arith

  pub IsReadOnly-IsQuiet : {A : Type 0} (m : Exec F A) → IsReadOnly m → IsQuiet m
  IsReadOnly-IsQuiet m h = record {
    at = λ s. subst (λ t. Quiet s t) (sym (h.at s)) (same-Quiet s);
    appends = Appends-same m h.at;
  }

pub ruleset read_rules = (
  IsReadOnly-bind, IsReadOnly-pure, IsReadOnly-raise, IsReadOnly-raise_if_none, IsReadOnly-raise_if,
  IsReadOnly-query, IsReadOnly-get_now, IsReadOnly-catch, IsReadOnly-if,
)
