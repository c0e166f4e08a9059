-- ===== src/Job/Lists.antt =====
-- The calls of functions-jobs.c that list jobs or ask for their state.
use ezrpc.Base.{◌%◌, ◌==◌, Bool, false, ◌||◌, List, [], ◌∷◌, if◌then◌else◌}
use ezrpc.Base.Int.{ℤ, pos, negsuc, ltb_ℤ}
use ezrpc.Rpc.Faults.{Fault, is_error}
use ezrpc.Rpc.State.{CStr, Ctx, Fn, Value, Query, as_int, is_null}
use ezrpc.Rpc.Macros.{ctx_cb_add, mark_cb, ctx_return, resume, azy_retval, azy_ret}
use ezrpc.Rpc.Database.{db_call}
use ezrpc.Rpc.Env.{Env}
use ezrpc.User.Accounts.{ask, refuse}

-- `ptr_job_cb`. After the first RESUME the callback does not return.
unfoldable pub ptr_job_cb : Value → Ctx → Ctx
ptr_job_cb ret s =
    let s = mark_cb s in
    let refused = resume (if is_null ret then record s { error = Fault.not_authorized } else s) in
    let t = if is_null ret || is_error s.error then refused else s in resume (azy_retval ret t)

-- A one-bit field takes the lowest bit of an integer.
abbrev pub low_bit : ℤ → Bool
low_bit (pos n) = n % 2 == 1
low_bit (negsuc n) = n % 2 == 0

-- `ptr_int_cb`. A NULL or 0 counts as refused; the first RESUME does not return either.
unfoldable pub ptr_int_cb : Value → Ctx → Ctx
ptr_int_cb ret s =
    let s = mark_cb s in
    let refused = resume (if is_null ret then record s { error = Fault.not_authorized } else s) in
    let t = if is_null ret || is_error s.error then refused else s in
    resume (azy_ret (low_bit (as_int ret)) t)

abbrev pub has_negative : List ℤ → Bool
has_negative [] = false
has_negative (i ∷ is) = ltb_ℤ i (pos 0) || has_negative is

-- `db->…; CTX_CB_ADD(ptr_job_cb); CTX_RETURN;`.
unfoldable pub ask_list : Env → Query → Ctx → Ctx × Bool
ask_list env q s = ctx_return (ctx_cb_add Fn.ptr_job_cb (db_call env.sent q s))

-- `_getJobs`.
unfoldable pub get_jobs : Env → Ctx → Ctx × Bool
get_jobs env = ask env Query.get_jobs

-- `_getJobsByUID`.
unfoldable pub get_jobs_by_uid : Env → ℤ → Ctx → Ctx × Bool
get_jobs_by_uid env uid s =
    if ltb_ℤ uid (pos 0) then refuse s else ask env (Query.get_jobs_by_uid uid) s

-- `_getJobsByUUID`.
unfoldable pub get_jobs_by_uuid : Env → CStr → Ctx → Ctx × Bool
get_jobs_by_uuid env uuid = ask env (Query.get_jobs_by_uuid uuid)

-- `_getRecentJobs`.
unfoldable pub get_recent_jobs : Env → Ctx → Ctx × Bool
get_recent_jobs env = ask_list env (Query.get_recent_jobs (pos 30))

-- `_getRecentJobsByUID`.
unfoldable pub get_recent_jobs_by_uid : Env → ℤ → Ctx → Ctx × Bool
get_recent_jobs_by_uid env uid = ask_list env (Query.get_recent_jobs_by_uid uid (pos 30))

-- `_getJobsByJIDs`.
unfoldable pub get_jobs_by_jids : Env → List ℤ → (caller_uid : ℤ) → Ctx → Ctx × Bool
get_jobs_by_jids env jobids caller_uid s =
    if ltb_ℤ caller_uid (pos 0)
    then refuse s
    else if has_negative jobids
    then refuse s
    else ask_list env (Query.get_jobs_by_ids jobids caller_uid) s

-- `_getJobsStatus`.
unfoldable pub get_jobs_status : Env → List ℤ → (caller_uid : ℤ) → Ctx → Ctx × Bool
get_jobs_status env jobids caller_uid s =
    if ltb_ℤ caller_uid (pos 0)
    then refuse s
    else if has_negative jobids
    then refuse s
    else ask_list env (Query.get_jobs_status jobids caller_uid) s

-- `_getJobStatus`.
unfoldable pub get_job_status : Env → (jobid caller_uid : ℤ) → Ctx → Ctx × Bool
get_job_status env jobid caller_uid s = ctx_return (
    if ltb_ℤ jobid (pos 0) || ltb_ℤ caller_uid (pos 0)
    then record s { error = Fault.invalid_parameter }
    else ctx_cb_add Fn.ptr_int_cb (db_call env.sent (Query.get_job_status jobid caller_uid) s))

-- `_isJob`.
unfoldable pub is_job : Env → ℤ → Ctx → Ctx × Bool
is_job env id s = if ltb_ℤ id (pos 0) then refuse s else ask env (Query.is_job id) s
