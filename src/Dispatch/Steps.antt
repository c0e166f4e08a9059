-- ===== src/Dispatch/Steps.antt =====
-- One step of a call at a time: a query is sent and waited for, and its answer wakes the callback.
use ezrpc.Base.{
  ◌≡◌, ◌==◌, ◌≤◌, ◌||◌, refl, ap, ◌∙◌, arith, Bool, true, false, not, [], ◌∷◌, if◌then◌else◌,
}
use ezrpc.Base.Int.{negsuc}
use ezrpc.Rpc.Faults.{Fault}
use ezrpc.Rpc.State.{Ctx, Fn, Value, Query, Effect}
use ezrpc.Rpc.Macros.{ctx_cb_add, ctx_return}
use ezrpc.Rpc.Callbacks.{cb_bool_rewind, cb_auth_rewind}
use ezrpc.Rpc.Database.{db_call, Answer, Delivery, qia, qiab, query_kind, run_db_cb, event_cb}
use ezrpc.Rpc.Env.{Env}
use ezrpc.User.Accounts.{ask}
use ezrpc.Dispatch.Chain.{call_fn, run_chain, go_on, follow, deliver}

-- A live call without a fault that waits with `f`.
pub record IsWaiting (f : Fn) (s : Ctx) : Type 0 where
  pub alive : s.dead ≡ false
  pub no_fault : s.error ≡ Fault.no_error
  pub chain : s.cbs ≡ f ∷ []

-- What is left of a query that the database answered with a row or none.
abbrev pub missing_fault : Answer → Fault
missing_fault a = if a.rows == 0 then Fault.unknown_resource else Fault.no_error

-- The value with which a query for a number wakes its callback.
abbrev pub answer_int : Answer → Value
answer_int a = if a.rows == 0 then Value.int (negsuc 0) else a.value

-- The answer to a query that must have one row, to a call that waits with `f`.
abbrev pub answered : Fn → Answer → Ctx → Ctx × Delivery
answered f a s = (
  record s { state = false; error = missing_fault a },
  Delivery.call f (Value.bool (not (a.rows == 0))),
)

pub event_cb-bool_rewind :
    (a : Answer) (s : Ctx)
    → IsWaiting Fn.cb_bool_rewind s
    → a.failed ≡ false
    → a.rows ≤ 1
    → event_cb qiab a s ≡ answered Fn.cb_bool_rewind a s
unfolding event_cb run_db_cb
event_cb-bool_rewind a s w h k = ground arith

pub event_cb-auth_rewind :
    (a : Answer) (s : Ctx)
    → IsWaiting Fn.cb_auth_rewind s
    → a.failed ≡ false
    → a.rows ≤ 1
    → event_cb qiab a s ≡ answered Fn.cb_auth_rewind a s
unfolding event_cb run_db_cb
event_cb-auth_rewind a s w h k = ground arith

pub deliver-bool_rewind :
    (env : Env) (q : Query) (a : Answer) (s : Ctx)
    → query_kind q ≡ qiab
    → IsWaiting Fn.cb_bool_rewind s
    → a.failed ≡ false
    → a.rows ≤ 1
    → deliver env q a s
      ≡ cb_bool_rewind (Value.bool (not (a.rows == 0))) (answered Fn.cb_bool_rewind a s).0
unfolding deliver follow run_chain call_fn go_on
deliver-bool_rewind env q a s e w h k = rw (e, event_cb-bool_rewind a s w h k, w.chain) refl

pub deliver-auth_rewind :
    (env : Env) (q : Query) (a : Answer) (s : Ctx)
    → query_kind q ≡ qiab
    → IsWaiting Fn.cb_auth_rewind s
    → a.failed ≡ false
    → a.rows ≤ 1
    → deliver env q a s
      ≡ cb_auth_rewind (Value.bool (not (a.rows == 0))) (answered Fn.cb_auth_rewind a s).0
unfolding deliver follow run_chain call_fn go_on
deliver-auth_rewind env q a s e w h k = rw (e, event_cb-auth_rewind a s w h k, w.chain) refl

pub event_cb-user_name :
    (a : Answer) (s : Ctx)
    → IsWaiting Fn.user_cb_name s
    → a.failed ≡ false
    → a.rows ≤ 1
    → event_cb qia a s ≡ (
      record s { state = false; error = missing_fault a },
      Delivery.call Fn.user_cb_name (answer_int a),
    )
unfolding event_cb run_db_cb
event_cb-user_name a s w h k = ground arith

-- The state after a query that must have one row.
abbrev pub asked : Query → Ctx → Ctx
asked q s = record s { state = true; log = Effect.query q ∷ s.log }

pub or_true : (b : Bool) → (b || true) ≡ true
or_true true = refl
or_true false = refl

pub if-not : (b c : Bool) (x y : Ctx) → c ≡ not b → (if c then y else x) ≡ (if b then x else y)
if-not true c x y h = ground arith
if-not false c x y h = ground arith

pub db_call-asked :
    (env : Env) (q : Query) (s : Ctx)
    → (query_kind q).single ≡ true
    → env.sent q ≡ true
    → db_call env.sent q s ≡ asked q s
unfolding db_call
db_call-asked env q s e h = rw (e, h, or_true s.state) refl

pub ctx_return-alone :
    (s : Ctx) → s.error ≡ Fault.no_error → s.ret_set ≡ false → (ctx_return s).0 ≡ s
unfolding ctx_return
ctx_return-alone s h k = rw (h, k) refl

pub ctx_cb_add-alone :
    (f : Fn) (s : Ctx)
    → s.dead ≡ false
    → s.error ≡ Fault.no_error
    → s.cbs ≡ []
    → ctx_cb_add f s ≡ record s { cbs = f ∷ [] }
unfolding ctx_cb_add
ctx_cb_add-alone f s h k l = rw (h, k, l) refl

pub event_cb-int :
    (a : Answer) (s : Ctx)
    → IsWaiting Fn.cb_bool_rewind s
    → a.failed ≡ false
    → a.rows ≤ 1
    → event_cb qia a s ≡ (
      record s { state = false; error = missing_fault a },
      Delivery.call Fn.cb_bool_rewind (answer_int a),
    )
unfolding event_cb run_db_cb
event_cb-int a s w h k = ground arith

pub event_cb-group_add :
    (a : Answer) (s : Ctx)
    → IsWaiting Fn.group_cb_add s
    → a.failed ≡ false
    → a.rows ≤ 1
    → event_cb qia a s ≡ (
      record s { state = false; error = missing_fault a },
      Delivery.call Fn.group_cb_add (answer_int a),
    )
unfolding event_cb run_db_cb
event_cb-group_add a s w h k = ground arith

pub ctx_return-passes :
    (s : Ctx) → s.error ≡ Fault.no_error → s.ret_set ≡ false → ctx_return s ≡ (s, true)
unfolding ctx_return
ctx_return-passes s h k = rw (h, k) refl

-- A call that has not begun: no query waits, and nothing has gone wrong.
pub record IsFresh (s : Ctx) : Type 0 where
  pub alive : s.dead ≡ false
  pub no_fault : s.error ≡ Fault.no_error
  pub no_result : s.ret_set ≡ false
  pub no_chain : s.cbs ≡ []
  pub first : s.count ≡ 0

-- The run that sends a query for one row and waits for it with `f`.
pub ask_and_wait :
    (env : Env) (q : Query) (f : Fn) (s : Ctx)
    → IsFresh s
    → (query_kind q).single ≡ true
    → env.sent q ≡ true
    → ctx_cb_add f (ask env q s).0 ≡ record (asked q s) { cbs = f ∷ [] }
unfolding ask
ask_and_wait env q f s r e h =
    ap (ctx_cb_add f) (
      ap (λ (t : Ctx). (ctx_return t).0) (db_call-asked env q s e h)
      ∙ ctx_return-alone (asked q s) r.no_fault r.no_result)
    ∙ ctx_cb_add-alone f (asked q s) r.alive r.no_fault r.no_chain
