-- ===== src/Rpc/Macros.antt =====
-- The macros of include/functions.h on the request context, and `QUERY` of include/zrpcdb.h.
use ezrpc.Base.{
  Bool, true, false, not, ◌&&◌, ◌||◌, Option, none, some, List, [], ◌∷◌, ◌++◌, if◌then◌else◌,
}
use ezrpc.Rpc.Faults.{Fault, is_error}
use ezrpc.Rpc.State.{Ctx, Fn, Value, Effect}
use ezrpc.Rpc.Slots.{fn_eq}

-- `eina_hash_set` and `eina_hash_find` of `ctx->params`: a slot that is not set reads as NULL.
unfoldable pub set_param : Fn → Value → Ctx → Ctx
set_param k v s = record s { params = λ j. if fn_eq j k then v else s.params j }

-- `CTX_PARAM_GET` in function `k`: the value, and the slot emptied.
unfoldable pub drop_param : Fn → Ctx → Ctx
unfolding set_param
drop_param k s = set_param k Value.null s

-- `CTX_CB_ADD`.
unfoldable pub ctx_cb_add : Fn → Ctx → Ctx
ctx_cb_add f s = if s.dead || is_error s.error then s else record s { cbs = s.cbs ++ f ∷ [] }

abbrev pub tail : List Fn → List Fn
tail [] = []
tail (f ∷ fs) = fs

-- `MARK_CB`.
unfoldable pub mark_cb : Ctx → Ctx
mark_cb s = record s { cbs = tail s.cbs }

abbrev pub emit : Effect → Ctx → Ctx
emit e s = record s { log = e ∷ s.log }

-- `azy_err_faultcode_set(ERROR, e)`.
unfoldable pub set_fault : Fault → Ctx → Ctx
set_fault e s = if s.has_content then record s { content_fault = e } else s

-- `CTX_RETURN`: the new state and what the function returns.
unfoldable pub ctx_return : Ctx → Ctx × Bool
unfolding set_fault
ctx_return s =
    if is_error s.error
    then (emit (Effect.resume false) (set_fault s.error s), false)
    else if s.ret_set
    then (emit (Effect.resume true) s, true)
    else (s, true)

-- The fault that `RESUME` leaves on the content.
abbrev pub resumed_fault : Ctx → Fault
resumed_fault s =
    if is_error s.error && not (is_error s.content_fault) then s.error else s.content_fault

-- `RESUME`.
unfoldable pub resume : Ctx → Ctx
resume s =
    if s.dead
    then s
    else if s.has_content
    then emit (Effect.resume (not (is_error (resumed_fault s))))
        (record s { content_fault = resumed_fault s })
    else emit (Effect.resume true) s

-- `REWIND`.
unfoldable pub rewind : Ctx → Ctx
rewind s = emit Effect.rewind s

-- `AZY_RETVAL`.
unfoldable pub azy_retval : Value → Ctx → Ctx
azy_retval v s =
    if not s.ret_set && not (is_error s.error) && not (is_error s.content_fault)
    then record s { content_retval = some v; ret = true; ret_set = true }
    else s

-- `AZY_RET`.
unfoldable pub azy_ret : Bool → Ctx → Ctx
azy_ret b s = record s { ret = b; ret_set = true }

-- `CTX_VALUE_RETURN` and `CTX_INT_RETURN` in function `f`, and `CTX_VALUE_SEND(f)`.
unfoldable pub ctx_value_return : Fn → Ctx → Ctx
unfolding ctx_cb_add set_param
ctx_value_return f s =
    set_param Fn.cb_pointer_return (Value.fn f) (ctx_cb_add Fn.cb_pointer_return s)

unfoldable pub ctx_int_return : Fn → Ctx → Ctx
unfolding ctx_cb_add set_param
ctx_int_return f s = set_param Fn.cb_int_return (Value.fn f) (ctx_cb_add Fn.cb_int_return s)

-- `CTX_BOOL_JOB`, `CTX_INT_JOB` and `CTX_VALUE_JOB`.
unfoldable pub ctx_bool_job : Fn → Ctx → Ctx
unfolding ctx_cb_add
ctx_bool_job f s = record (ctx_cb_add Fn.cb_bool_job s) { job = f }

unfoldable pub ctx_int_job : Fn → Ctx → Ctx
unfolding ctx_cb_add set_param
ctx_int_job f s =
    set_param Fn.cb_int_job (Value.fn f) (record (ctx_cb_add Fn.cb_int_job s) { job = f })

unfoldable pub ctx_value_job : Fn → Ctx → Ctx
unfolding ctx_cb_add set_param
ctx_value_job f s =
    set_param Fn.cb_pointer_job (Value.fn f) (record (ctx_cb_add Fn.cb_pointer_job s) { job = f })

-- What a callback hands on: nothing, or `NEXT_CB(v)` as its last act.
pub data Handoff : Type 0 where
  stop : Handoff
  next_cb : Value → Handoff

abbrev pub is_some : Option Value → Bool
is_some none = false
is_some (some v) = true

-- `NEXT_CB` where the chain is empty and the client is alive.
unfoldable pub next_cb_empty : Ctx → Ctx
unfolding resume
next_cb_empty s =
    if is_error s.error || is_error s.content_fault
    then resume s
    else if s.ret_set && is_some s.content_retval
    then emit (Effect.resume s.ret) s
    else resume s
