-- ===== src/Job/Calls.antt =====
-- The callbacks of functions-jobs.c on a new or fetched job, and the calls that start from them.
use ezrpc.Base.{
  Bool, true, false, not, ◌&&◌, ◌||◌, ◌+◌, ◌-◌, ◌%◌, ◌^◌, ltb, none, some, [], ◌∷◌, if◌then◌else◌,
}
use ezrpc.Base.Int.{ℤ, pos, ltb_ℤ}
use ezrpc.Rpc.Faults.{Fault, is_error}
use ezrpc.Rpc.State.{CStr, Ctx, Fn, Value, Query, Effect, Job, lit, as_text, is_null}
use ezrpc.Rpc.Macros.{
  ctx_cb_add, mark_cb, set_param, drop_param, ctx_return, resume, azy_retval, emit,
}
use ezrpc.Rpc.Database.{db_call}
use ezrpc.Rpc.Env.{Env}
use ezrpc.User.Accounts.{ask, refuse}

-- `jobs_kickScheduler`. Its event handlers stand in the list of the event loop, not here.
unfoldable pub jobs_kick_scheduler : Env → Job → CStr → Ctx → Ctx
jobs_kick_scheduler env job none s =
    let t = set_param Fn.jobs_cb_address (Value.job job) (
      ctx_cb_add Fn.jobs_cb_address
        (db_call env.sent (Query.get_scheduler_address_by_job job.id) s)) in
    if is_error t.error then resume t else t
jobs_kick_scheduler env job (some address) s =
    let t = emit Effect.timer_add (emit (Effect.connect (some address)) s) in
    set_param Fn.jobs_cb_connect (Value.job job)
      (set_param Fn.jobs_cb_disconnect (Value.job job) (record t { data_ptr = Value.bool true }))

-- A job in a slot of `ctx->params`; NULL is read through where the code uses it.
abbrev pub with_job : Value → (Job → Ctx → Ctx) → Ctx → Ctx
with_job (Value.job j) f s = f j s
with_job _ f s = emit Effect.undefined s

-- `jobs_cb_address`.
unfoldable pub jobs_cb_address : Env → Value → Ctx → Ctx
jobs_cb_address env ret s =
    let s = mark_cb s in
    let t = drop_param Fn.jobs_cb_address s in
    if is_error t.error
    then resume (record t { error = Fault.scheduler_not_found })
    else with_job (s.params Fn.jobs_cb_address) (λ j u. jobs_kick_scheduler env j (as_text ret) u) t

abbrev pub is_empty_text : CStr → Bool
is_empty_text none = true
is_empty_text (some []) = true
is_empty_text (some (c ∷ cs)) = false

-- The branch of `jobs_fill` below 100: the resource of the job is asked for.
unfoldable pub ask_resource : Env → Job → Ctx → Ctx
ask_resource env ret s =
    let j =
      if not (is_null (Value.int s.user_type)) then record ret { target_host = some [] } else ret in
    let wait = λ (q : Query) (t : Ctx).
      set_param Fn.jobs_cb_resource (Value.job j)
        (ctx_cb_add Fn.jobs_cb_resource (ask env q t).0) in
    if env.validate_uuid j.target_vm && env.validate_uuid j.target_node
    then wait (Query.get_vm_attribute j.target_vm (lit "name")) s
    else if env.validate_uuid j.target_node && is_empty_text j.target_vm
    then wait (Query.get_node_attribute j.target_node (lit "hostname")) s
    else s

-- `jobs_fill`. The slot of its name is only tested.
unfoldable pub jobs_fill : Env → Job → Ctx → Ctx
jobs_fill env ret s =
    let t = drop_param Fn.jobs_fill s in
    if ltb s.count 100
    then ask_resource env ret s
    else if not (is_null (s.params Fn.jobs_fill))
    then jobs_kick_scheduler env ret none (record t { count = s.count - 100 })
    else resume (azy_retval (Value.job ret) t)

-- `jobs_cb_resource`.
unfoldable pub jobs_cb_resource : Env → Value → Ctx → Ctx
jobs_cb_resource env ret s =
    let s = mark_cb s in
    let t = drop_param Fn.jobs_cb_resource s in
    if is_error t.error
    then resume t
    else with_job (s.params Fn.jobs_cb_resource)
        (λ j u.
          jobs_fill env (record j { resource = as_text ret })
            (record u { count = (u.count + 100) % 2 ^ 32 }))
        t

-- `jobs_cb_get`.
unfoldable pub jobs_cb_get : Env → Value → Ctx → Ctx
jobs_cb_get env ret s =
    let s = mark_cb s in
    if is_error s.error || is_null ret
    then resume (record s { error = Fault.not_authorized })
    else with_job ret (λ j t. jobs_fill env j t) s

-- `_getJob`.
unfoldable pub get_job : Env → (id caller_uid : ℤ) → Ctx → Ctx × Bool
get_job env id caller_uid s =
    if ltb_ℤ id (pos 0) || ltb_ℤ caller_uid (pos 0)
    then refuse s
    else ctx_return (ctx_cb_add Fn.jobs_cb_get (db_call env.sent (Query.get_job id caller_uid) s))

-- `jobs_cb_add`. Its parameter is the caller's id cast to a pointer, and is read through.
unfoldable pub jobs_cb_add : Env → Value → Ctx → Ctx
jobs_cb_add env ret s =
    let s = mark_cb s in
    let t = drop_param Fn.jobs_cb_add s in
    if is_error t.error || is_null (s.params Fn.jobs_cb_add)
    then resume (record t { error = Fault.job_creation_failed })
    else emit Effect.undefined (set_param Fn.jobs_fill (Value.bool true) t)

-- `_addJob`.
unfoldable pub add_job : Env → Job → (caller_uid : ℤ) → Ctx → Ctx × Bool
add_job env job caller_uid s =
    if ltb_ℤ caller_uid (pos 0)
    then refuse s
    else ask env (Query.add_job (record job { uid = caller_uid })) s

-- `job_add`.
unfoldable pub job_add : Env → Job → (caller_uid : ℤ) → Ctx → Ctx × Bool
job_add env job caller_uid s =
    if ltb_ℤ caller_uid (pos 0)
    then refuse s
    else ctx_return (
        set_param Fn.jobs_cb_add (Value.int caller_uid) (
          ctx_cb_add Fn.jobs_cb_add
            (db_call env.sent (Query.add_job (record job { uid = caller_uid })) s)))
