-- ===== src/Session/Action.antt =====
-- Actions on a session. What was written before a raise stays in the session, so the state comes
-- back beside an error too; only `rollback` takes it back.
use agentdesk_ai.Base.{ℕ, suc, Bool, true, false, Option, none, some, [], ◌∷◌, ◌++◌}
use agentdesk_ai.Session.State.{Db, Session, Task, Request, Error, Env, external}

pub data Result (A : Type 0) : Type 0 where
  ok : A → Result A
  err : Error → Result A

abbrev pub Exec : Type 0 → Type 0 → Type 0
Exec F A = Session F → Result A × Session F

module _ {F A : Type 0} where
  abbrev pub pure : A → Exec F A
  pure a s = (ok a, s)

  abbrev pub raise : Error → Exec F A
  raise e s = (err e, s)

  abbrev pub raise_if_none : Option A → Error → Exec F A
  raise_if_none none e = raise e
  raise_if_none (some a) _ = pure a

  -- A query, over what the session sees.
  abbrev pub query : (Db F → A) → Exec F A
  query f s = (ok (f s.working), s)

  abbrev pub or_handle : Result A → (Error → Exec F A) → Exec F A
  or_handle (ok a) handler s = (ok a, s)
  or_handle (err e) handler s = handler e s

  -- `try: m  except Exception as exc: handler(exc); raise` and the like: the handler goes on from
  -- the state that the raise left.
  abbrev pub catch : Exec F A → (Error → Exec F A) → Exec F A
  catch m handler s = let (r, s') = m s in or_handle r handler s'

  -- An `async with SessionLocal()` block, or a request's `get_db`: the session begins with what is
  -- committed, and when it is closed what was not committed is dropped, after a raise or a return.
  abbrev pub in_session : Exec F A → Exec F A
  in_session m s =
      let (r, s') = m (record s { working = s.committed }) in
      (r, record s' { working = s'.committed })

-- What follows an action: the rest of the block, or nothing after a raise.
abbrev pub resume : {F A B : Type 0} → Result A → (A → Exec F B) → Exec F B
resume (ok a) f s = f a s
resume (err e) f s = (err e, s)

infixl 5 ◌>>=◌ ◌>>◌
abbrev pub ◌>>=◌ : {F A B : Type 0} → Exec F A → (A → Exec F B) → Exec F B
◌>>=◌ m f s = let (r, s') = m s in resume r f s'

abbrev pub ◌>>◌ : {F A B : Type 0} → Exec F A → Exec F B → Exec F B
m >> k = m >>= λ _. k

module _ {F : Type 0} where
  abbrev pub raise_if : Bool → Error → Exec F (Unit {0})
  raise_if true e = raise e
  raise_if false e = pure tt

  -- `uuid4()` of a new row
  abbrev pub fresh_id : Exec F ℕ
  fresh_id s = (ok s.next_id, record s { next_id = suc s.next_id })

  abbrev pub get_now : Exec F ℕ
  get_now s = (ok s.now, s)

  -- A write of the session: an `add`, or the columns that an assignment changed.
  abbrev pub write : (Db F → Db F) → Exec F (Unit {0})
  write f s = (ok tt, record s { working = f s.working })

  abbrev pub commit : Exec F (Unit {0})
  commit s = (ok tt, record s { committed = s.working })

  abbrev pub rollback : Exec F (Unit {0})
  rollback s = (ok tt, record s { working = s.committed })

  -- `task.delay(…)`
  abbrev pub delay : Env F → Task → Exec F (Unit {0})
  delay env task s = elim (env.broker_accepts task) [
    | true ↦ (ok tt, record s { queued = s.queued ++ (task ∷ []) })
    | false ↦ (err (external "broker unreachable"), s)
  ]

  abbrev pub log_post : Request → Exec F (Unit {0})
  log_post r s = (ok tt, record s { posted = s.posted ++ (r ∷ []) })
