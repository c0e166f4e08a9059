-- ===== src/Console/Refused.antt =====
-- No console is ever connected: the calls take the fault of a missing lock along (functions-console.c).
use ezrpc.Base.{
  ◌==◌, ap, if◌then◌else◌, List, ◌++◌, ◌≡◌, ◌≤◌, refl, ◌∙◌, arith, Bool, true, false, some, [], ◌∷◌,
}
use ezrpc.Rpc.Faults.{Fault, is_error}
use ezrpc.Rpc.State.{CStr, Ctx, Fn, Query, Effect, Session, lit}
use ezrpc.Rpc.Macros.{ctx_cb_add, ctx_return, mark_cb, rewind, set_fault, drop_param, set_param}
use ezrpc.Rpc.Callbacks.{cb_bool_rewind}
use ezrpc.Rpc.Database.{Answer, qia, query_kind}
use ezrpc.Rpc.Env.{Env}
use ezrpc.Dispatch.Steps.{
  or_true, IsWaiting, IsFresh, answer_int, missing_fault, asked, ctx_return-alone, ask_and_wait,
  event_cb-int,
}
use ezrpc.Dispatch.Chain.{call_fn, run_chain, go_on, follow, deliver}
use ezrpc.Console.Calls.{has_console_lock, acquire_console_lock}
use ezrpc.Console.Text.{connect_text_console, text_case, text_lock}

pub deliver-lock :
    (env : Env) (q : Query) (a : Answer) (s : Ctx)
    → query_kind q ≡ qia
    → IsWaiting Fn.cb_bool_rewind s
    → a.failed ≡ false
    → a.rows ≤ 1
    → deliver env q a s
      ≡ cb_bool_rewind (answer_int a) (record s { state = false; error = missing_fault a })
unfolding deliver follow run_chain call_fn go_on
deliver-lock env q a s e w h k = rw (e, event_cb-int a s w h k, w.chain) refl

abbrev pub lock_query : CStr → Query
lock_query uuid = Query.has_console_lock uuid (some (lit "text"))

-- What a refused call is left with: the fault, no callback, and nothing sent but the refusals.
abbrev pub refusals : Bool → List Effect
refusals missing =
    if missing then Effect.resume false ∷ Effect.resume false ∷ [] else Effect.resume false ∷ []

abbrev pub lock_fault : Bool → Fault
lock_fault missing = if missing then Fault.unknown_resource else Fault.console_locked

module _ (env : Env) (takes : (q : Query) → env.sent q ≡ true) (runs : Bool) (session : Session)
    (uuid : CStr) where
  abbrev asked_lock : Ctx → Ctx
  asked_lock s = record (asked (lock_query uuid) s) { cbs = Fn.cb_bool_rewind ∷ [] }

  first_run :
      (s : Ctx) → IsFresh s → (connect_text_console env runs session uuid s).0 ≡ asked_lock s
  unfolding connect_text_console text_case has_console_lock query_kind
  first_run s r = ground (
    arith,
    ask_and_wait env (lock_query uuid) Fn.cb_bool_rewind s r refl (takes _),
    ctx_return-alone (asked_lock s) r.no_fault r.no_result,
  )

  -- The call once the lock's answer is there.
  abbrev woken : Answer → Ctx → Ctx
  woken a s = record s {
    state = false;
    error = missing_fault a;
    cbs = [];
    count = 1;
    log = Effect.resume true ∷ Effect.rewind ∷ Effect.query (lock_query uuid) ∷ s.log;
  }

  deliver-woken :
      (a : Answer) (s : Ctx)
      → IsFresh s
      → a.failed ≡ false
      → a.rows ≤ 1
      → deliver env (lock_query uuid) a (asked_lock s) ≡ woken a s
  unfolding query_kind cb_bool_rewind rewind mark_cb
  deliver-woken a s r h k =
      deliver-lock env (lock_query uuid) a (asked_lock s) refl
        (record { alive = r.alive; no_fault = r.no_fault; chain = refl }) h k
      ∙ ground arith

  case_lock :
      (t : Ctx) → t.count ≡ 1 → text_case env runs session uuid t ≡ text_lock env session uuid t
  unfolding text_case
  case_lock t h = rw (h) refl

  lock_held :
      (t : Ctx)
      → t.error ≡ Fault.no_error
      → text_lock env session uuid t ≡ record t { error = Fault.console_locked }
  unfolding text_lock
  lock_held t h = rw (h) refl

  -- `_acquireConsoleLock` refuses the call, since the fault of the missing lock is still there.
  acquire-refused :
      (type : CStr) (t : Ctx)
      → t.count ≡ 1
      → t.error ≡ Fault.unknown_resource
      → (acquire_console_lock env uuid session type t).0
        ≡ (ctx_return (drop_param Fn.acquire_console_lock t)).0
  unfolding acquire_console_lock drop_param set_param
  acquire-refused type t h k = rw (h, k) refl

  returned :
      (t : Ctx) (f : Fault)
      → t.error ≡ f
      → is_error f ≡ true
      → t.has_content ≡ true
      → (ctx_return t).0 ≡ record t { content_fault = f; log = Effect.resume false ∷ t.log }
  unfolding ctx_return set_fault
  returned t f h e k = simp (h, e, k) refl

  missing_passes :
      (t : Ctx)
      → is_error t.error ≡ true
      → text_lock env session uuid t
        ≡ ctx_cb_add Fn.cb_bool_rewind
            (acquire_console_lock env uuid session (some (lit "text")) t).0
  unfolding text_lock
  missing_passes t e = rw (e) refl

  ctx_cb_add-faulty : (f : Fn) (t : Ctx) → is_error t.error ≡ true → ctx_cb_add f t ≡ t
  unfolding ctx_cb_add
  ctx_cb_add-faulty f t e = rw (e, or_true t.dead) refl

  -- A call that `_acquireConsoleLock` has refused.
  abbrev turned_down : Ctx → Ctx
  turned_down t = record (drop_param Fn.acquire_console_lock t) {
    content_fault = Fault.unknown_resource;
    log = Effect.resume false ∷ t.log;
  }

  missing_lock :
      (t : Ctx)
      → t.count ≡ 1
      → t.error ≡ Fault.unknown_resource
      → t.has_content ≡ true
      → text_lock env session uuid t ≡ turned_down t
  unfolding drop_param set_param
  missing_lock t h k c =
      missing_passes t (ap is_error k)
      ∙ ap (ctx_cb_add Fn.cb_bool_rewind) (
          acquire-refused (some (lit "text")) t h k
          ∙ returned (drop_param Fn.acquire_console_lock t) Fault.unknown_resource k refl c)
      ∙ ctx_cb_add-faulty Fn.cb_bool_rewind (turned_down t) (ap is_error k)

  second_run :
      (missing : Bool) (t : Ctx)
      → t.count ≡ 1
      → t.error ≡ (if missing then Fault.unknown_resource else Fault.no_error)
      → t.has_content ≡ true
      → ((connect_text_console env runs session uuid t).0.content_fault ≡ lock_fault missing)
        × (((connect_text_console env runs session uuid t).0.log ≡ refusals missing ++ t.log)
            × ((connect_text_console env runs session uuid t).0.cbs ≡ t.cbs))
  unfolding connect_text_console drop_param set_param
  second_run false t h k c =
      rw
        (
          case_lock t h,
          lock_held t k,
          returned (record t { error = Fault.console_locked }) Fault.console_locked refl refl c,
        )
        (refl, (refl, refl))
  second_run true t h k c =
      rw
        (
          case_lock t h,
          missing_lock t h k c,
          returned (turned_down t) Fault.unknown_resource k refl c,
        )
        (refl, (refl, refl))

  -- A new call for a text console sends one query, the question whether the machine has a lock, and
  -- the call is refused whatever the database answers: with CONSOLE_LOCKED where the machine has a
  -- lock, and with UNKNOWN_RESOURCE where it has none. After the answer the call is resumed and
  -- refused, nothing more is sent, so no lock is taken, and no callback waits. The pool takes every
  -- query, and the answer does not fail and has at most one row.
  pub connect_text_console-refused :
      (a : Answer) (s : Ctx)
      → IsFresh s
      → s.has_content ≡ true
      → a.failed ≡ false
      → a.rows ≤ 1
      → let t = deliver env (lock_query uuid) a (connect_text_console env runs session uuid s).0 in
        let u = (connect_text_console env runs session uuid t).0 in
        (u.content_fault ≡ lock_fault (a.rows == 0))
        × (u.log ≡ refusals (a.rows == 0) ++ (woken a s).log)
        × (u.cbs ≡ [])
        × ((connect_text_console env runs session uuid s).0.log
            ≡ Effect.query (lock_query uuid) ∷ s.log)
  connect_text_console-refused a s r c h k =
      rw (first_run s r, deliver-woken a s r h k)
        (let v = second_run (a.rows == 0) (woken a s) refl refl c in (v.0, v.1.0, v.1.1, refl))
