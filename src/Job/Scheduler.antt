-- ===== src/Job/Scheduler.antt =====
-- The connection of functions-jobs.c to a scheduler: the handlers of its events. `ctx->data` is the
-- timer.
use ezrpc.Base.{ℕ, zero, suc, ◌==◌, Bool, true, false, some, [], ◌∷◌, if◌then◌else◌}
use ezrpc.Rpc.Faults.{Fault, is_error}
use ezrpc.Rpc.State.{Str, Ctx, Fn, Value, Effect, Job, lit, is_null}
use ezrpc.Rpc.Macros.{drop_param, resume, azy_retval, emit}
use ezrpc.Rpc.Env.{Env}
use ezrpc.Job.Calls.{with_job}

-- `jobs_cb_connect_timer`.
unfoldable pub jobs_cb_connect_timer : Ctx → Ctx
jobs_cb_connect_timer s =
    emit Effect.server_del
      (record s { error = Fault.scheduler_connect_error; data_ptr = Value.null })

abbrev pub new_job_message : Str
new_job_message = lit "ZENTIFICSCHEDULER:::ZENTIFIC_NEWJOB"

abbrev pub cancel_job_message : Str
cancel_job_message = lit "ZENTIFICSCHEDULER:::ZENTIFIC_CANCELJOB"

abbrev pub announce : Env → Job → Ctx → Ctx
announce env job s =
    let message =
      if env.same job.module_function (some (lit "cancel_job"))
      then cancel_job_message
      else new_job_message in
    emit Effect.timer_interval (emit (Effect.server_send message) s)

-- `jobs_cb_connect`.
unfoldable pub jobs_cb_connect : Env → Ctx → Ctx
jobs_cb_connect env s =
    with_job (s.params Fn.jobs_cb_connect) (λ j t. announce env j t)
      (drop_param Fn.jobs_cb_connect s)

-- `strncmp(a, b, n) == 0` on strings that end with the list.
abbrev pub same_prefix : ℕ → Str → Str → Bool
same_prefix zero a b = true
same_prefix (suc n) [] [] = true
same_prefix (suc n) (x ∷ xs) (y ∷ ys) =
    let rest = same_prefix n xs ys in if x == y then rest else false
same_prefix (suc n) _ _ = false

-- `jobs_cb_data`, on `size` bytes of data.
unfoldable pub jobs_cb_data : (bytes : Str) (size : ℕ) → Ctx → Ctx
jobs_cb_data bytes size s = emit Effect.server_del (
    if same_prefix size bytes (lit "ZOKAY")
    then s
    else record s { error = Fault.scheduler_connect_error })

-- `jobs_cb_disconnect`.
unfoldable pub jobs_cb_disconnect : Ctx → Ctx
jobs_cb_disconnect s =
    let t = drop_param Fn.jobs_cb_disconnect s in
    let u = if is_error t.error then t else azy_retval (s.params Fn.jobs_cb_disconnect) t in
    resume (if is_null u.data_ptr then u else emit Effect.timer_del u)
