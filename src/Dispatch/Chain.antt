-- ===== src/Dispatch/Chain.antt =====
-- One answer of the database, carried through the callback chain to its end.
use ezrpc.Base.{ℕ, zero, suc, ◌+◌, List, [], ◌∷◌, length, if◌then◌else◌}
use ezrpc.Rpc.State.{Ctx, Fn, Value, Query, Effect}
use ezrpc.Rpc.Macros.{Handoff, stop, next_cb_empty, emit}
use ezrpc.Rpc.Callbacks
use ezrpc.Rpc.Database.{Answer, Delivery, query_kind, event_cb}
use ezrpc.Rpc.Handlers.{error_handler, result_handler}
use ezrpc.Rpc.Env.{Env}
use ezrpc.Session.Check
use ezrpc.Session.ClientIp.{session_get_client_ip_cb}
use ezrpc.Session.PreCall
use ezrpc.Auth.Login.{login_cb_uid}
use ezrpc.User.Callbacks as UserCallbacks
use ezrpc.Group.Calls.{group_cb_modify, group_cb_add}
use ezrpc.Job.Calls.{jobs_cb_address, jobs_cb_add, jobs_cb_get, jobs_cb_resource}
use ezrpc.Job.Lists.{ptr_job_cb, ptr_int_cb}

-- The call of a function pointer of the chain. A call of NULL is `undefined`; the callbacks of
-- components that are not modelled do nothing here.
unfoldable pub call_fn : Env → Fn → Value → Ctx → Ctx × Handoff
call_fn env Fn.no_fn v s = (emit Effect.undefined s, stop)
call_fn env Fn.cb_bool_job v s = (Callbacks.cb_bool_job v s, stop)
call_fn env Fn.cb_int_job v s = (Callbacks.cb_int_job v s, stop)
call_fn env Fn.cb_pointer_job v s = (Callbacks.cb_pointer_job v s, stop)
call_fn env Fn.cb_int_rewind v s = (Callbacks.cb_int_rewind v s, stop)
call_fn env Fn.cb_bool_rewind v s = (Callbacks.cb_bool_rewind v s, stop)
call_fn env Fn.cb_auth_rewind v s = (Callbacks.cb_auth_rewind v s, stop)
call_fn env Fn.cb_pointer_return v s = (Callbacks.cb_pointer_return v s, stop)
call_fn env Fn.cb_int_return v s = (Callbacks.cb_int_return v s, stop)
call_fn env Fn.session_cb_error_clear v s = (PreCall.session_cb_error_clear v s, stop)
call_fn env Fn.session_get_client_ip_cb v s = session_get_client_ip_cb env v s
call_fn env Fn.session_checkuuid_cb v s = Check.session_checkuuid_cb env v s
call_fn env Fn.session_checkuuid_get_cb v s = (Check.session_checkuuid_get_cb env v s, stop)
call_fn env Fn.session_check_cb v s = (Check.session_check_cb env v s, stop)
call_fn env Fn.session_get_cb v s = Check.session_get_cb v s
call_fn env Fn.session_pre_call_cb_super v s = (PreCall.session_pre_call_cb_super env v s, stop)
call_fn env Fn.session_pre_call_cb_get_session v s =
    (PreCall.session_pre_call_cb_get_session v s, stop)
call_fn env Fn.session_pre_call_cb_ip v s = (PreCall.session_pre_call_cb_ip v s, stop)
call_fn env Fn.login_cb_uid v s = (login_cb_uid env v s, stop)
call_fn env Fn.user_cb_name v s = (UserCallbacks.user_cb_name v s, stop)
call_fn env Fn.user_cb_lang v s = (UserCallbacks.user_cb_lang v s, stop)
call_fn env Fn.user_cb_logout_deauth v s = UserCallbacks.user_cb_logout_deauth v s
call_fn env Fn.user_cb_logoutsessions v s = (UserCallbacks.user_cb_logoutsessions env v s, stop)
call_fn env Fn.user_cb_superuser v s = UserCallbacks.user_cb_superuser v s
call_fn env Fn.user_cb_generatepw v s = UserCallbacks.user_cb_generatepw v s
call_fn env Fn.group_cb_modify v s = (group_cb_modify env v s, stop)
call_fn env Fn.group_cb_add v s = (group_cb_add env v s, stop)
call_fn env Fn.jobs_cb_address v s = (jobs_cb_address env v s, stop)
call_fn env Fn.jobs_cb_add v s = (jobs_cb_add env v s, stop)
call_fn env Fn.jobs_cb_get v s = (jobs_cb_get env v s, stop)
call_fn env Fn.jobs_cb_resource v s = (jobs_cb_resource env v s, stop)
call_fn env Fn.ptr_job_cb v s = (ptr_job_cb v s, stop)
call_fn env Fn.ptr_int_cb v s = (ptr_int_cb v s, stop)
call_fn env _ v s = (s, stop)

-- `NEXT_CB(w)` for a live client: the chain is empty, or its head is called.
unfoldable pub go_next : (Fn → Value → Ctx → Ctx) → Value → List Fn → Ctx → Ctx
go_next run w [] t = next_cb_empty t
go_next run w (g ∷ gs) t = run g w t

-- The end of a callback: `NEXT_CB` as its last act, or nothing.
unfoldable pub go_on : (Fn → Value → Ctx → Ctx) → Ctx × Handoff → Ctx
go_on run (t, Handoff.stop) = t
go_on run (t, Handoff.next_cb w) = if t.dead then t else go_next run w t.cbs t

-- A callback, and what it hands on by `NEXT_CB`, with fuel.
unfoldable pub run_chain : ℕ → Env → Fn → Value → Ctx → Ctx
run_chain zero env f v s = s
run_chain (suc n) env f v s = go_on (run_chain n env) (call_fn env f v s)

-- What follows a delivery.
unfoldable pub follow : Env → Delivery → Ctx → Ctx
follow env (Delivery.call f v) s = run_chain (length s.cbs + 1) env f v s
follow env Delivery.dropped s = s
follow env Delivery.result_event s = result_handler s
follow env Delivery.error_event s = error_handler s

-- An answer to the query `q`.
unfoldable pub deliver : Env → Query → Answer → Ctx → Ctx
deliver env q a s = let (t, d) = event_cb (query_kind q) a s in follow env d t
