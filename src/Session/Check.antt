-- ===== src/Session/Check.antt =====
-- The session calls of functions-session.c (lines 90 to 290) with their callbacks.
use ezrpc.Base.{
  ltb, ◌%◌, ◌^◌, ◌-◌, Bool, true, false, not, ◌&&◌, ◌||◌, none, some, [], if◌then◌else◌,
}
use ezrpc.Base.Int.{ℤ, pos, negsuc, ◌-ℤ◌, ◌*ℤ◌, ltb_ℤ}
use ezrpc.Rpc.Faults.{Fault, fault_code, is_error}
use ezrpc.Rpc.State.{CStr, Ctx, Fn, Value, Query, Effect, Session, lit, as_text, is_null}
use ezrpc.Rpc.Macros.{
  ctx_cb_add, mark_cb, set_param, drop_param, ctx_return, resume, azy_retval, emit, Handoff, stop,
  next_cb,
}
use ezrpc.Rpc.Database.{db_call}
use ezrpc.Rpc.Env.{Env}

abbrev pub default_session_timeout : ℤ
default_session_timeout = pos 15

-- `_getConfig` of functions-zentific.c.
unfoldable pub get_config : Env → Ctx → CStr → Ctx × Bool
unfolding db_call ctx_return
get_config env s (some key) = ctx_return (db_call env.sent (Query.get_config_value key) s)
get_config env s none = ctx_return s

-- A 32-bit `int` that wraps around.
unfoldable pub to_int : ℤ → ℤ
to_int (pos n) =
    if ltb (n % 2 ^ 32) (2 ^ 31) then pos (n % 2 ^ 32) else negsuc (2 ^ 32 - 1 - n % 2 ^ 32)
to_int (negsuc n) =
    if ltb (n % 2 ^ 32) (2 ^ 31) then negsuc (n % 2 ^ 32) else pos (2 ^ 32 - 1 - n % 2 ^ 32)

-- The seconds of inactivity that `session_checker` allows. The minutes are an `int` `t`, and so is
-- `t * 60`.
unfoldable pub session_timeout : Env → Fault → CStr → ℤ
session_timeout env e none = default_session_timeout *ℤ pos 60
session_timeout env e (some configured) =
    if is_error e
    then default_session_timeout *ℤ pos 60
    else to_int (
        (if env.strtol_failed configured then default_session_timeout else env.strtol configured)
        *ℤ pos 60)

abbrev pub is_none : CStr → Bool
is_none none = true
is_none (some _) = false

-- The status that `session_checker` gives a session.
unfoldable pub session_status : Env → ℤ → Session → Fault
session_status env timeout session =
    if not session.authenticated
    then Fault.not_authorized
    else if not (ltb_ℤ timeout (env.now -ℤ session.timestamp))
    then Fault.valid_session
    else Fault.expired_session

-- `session_checker`.
unfoldable pub session_checker : Env → CStr → Session → Ctx → Ctx × Session
unfolding session_timeout session_status
session_checker env configured session s =
    let timeout = session_timeout env s.error configured in
    let cleared =
      if is_none configured || is_error s.error then record s { error = Fault.no_error } else s in
    (
      record cleared { checked = true },
      record session { status = session_status env timeout session },
    )

-- `session_checkuuid_cb`. A parameter that is no session is a NULL that `session_checker` reads.
unfoldable pub session_checkuuid_cb : Env → Value → Ctx → Ctx × Handoff
unfolding mark_cb drop_param session_checker azy_retval
session_checkuuid_cb env configured s =
    let s = mark_cb s in
    let t = drop_param Fn.session_checkuuid_cb s in
    elim (s.params Fn.session_checkuuid_cb) [
      | Value.session stored ↦
          let (u, checked) = session_checker env (as_text configured) stored t in
          let status = Value.int (pos (fault_code checked.status)) in
          (elim u.cbs [ [] ↦ azy_retval status u | _ ↦ u ], next_cb status)
      | _ ↦ (emit Effect.undefined t, stop)
    ]

-- `session_checkuuid_get_cb`.
unfoldable pub session_checkuuid_get_cb : Env → Value → Ctx → Ctx
unfolding mark_cb get_config ctx_cb_add set_param
session_checkuuid_get_cb env ret s = set_param Fn.session_checkuuid_cb ret (
    ctx_cb_add Fn.session_checkuuid_cb
      (get_config env (mark_cb s) (some (lit "session_timeout"))).0)

-- `session_get_cb`.
unfoldable pub session_get_cb : Value → Ctx → Ctx × Handoff
unfolding mark_cb azy_retval
session_get_cb ret s =
    let s = mark_cb s in
    let t =
      if is_null ret && is_error s.content_fault
      then record s { error = Fault.invalid_session }
      else s in
    (elim t.cbs [ [] ↦ azy_retval ret t | _ ↦ t ], next_cb ret)

-- `_getSession`.
unfoldable pub get_session : Env → CStr → Ctx → Ctx × Bool
unfolding db_call ctx_cb_add ctx_return
get_session env id s =
    if not (env.validate_uuid id)
    then (record s { error = Fault.invalid_parameter }, false)
    else ctx_return (ctx_cb_add Fn.session_get_cb (db_call env.sent (Query.get_session id) s))

-- `_checkSessionUUID`.
unfoldable pub check_session_uuid : Env → CStr → Ctx → Ctx × Bool
unfolding get_session ctx_cb_add ctx_return
check_session_uuid env uuid s =
    if not (env.validate_uuid uuid)
    then ctx_return (record s { error = Fault.invalid_session })
    else ctx_return (ctx_cb_add Fn.session_checkuuid_get_cb (get_session env uuid s).0)

-- `session_check_cb`.
unfoldable pub session_check_cb : Env → Value → Ctx → Ctx
unfolding mark_cb session_checker resume
session_check_cb env configured s =
    let s = mark_cb s in
    let (t, checked) = session_checker env (as_text configured) s.session s in
    resume (record t { session = checked })

-- `_checkSession`.
unfoldable pub check_session : Env → Ctx → Ctx × Bool
unfolding get_config ctx_cb_add ctx_return
check_session env s =
    if not (env.validate_uuid s.session.session_id)
    then ctx_return (record s { error = Fault.invalid_session })
    else ctx_return
        (ctx_cb_add Fn.session_check_cb (get_config env s (some (lit "session_timeout"))).0)

-- `_removeSession`.
unfoldable pub remove_session : Env → CStr → Ctx → Ctx × Bool
unfolding db_call ctx_return
remove_session env id s =
    if not (env.validate_uuid id)
    then (record s { error = Fault.invalid_session }, false)
    else ctx_return (db_call env.sent (Query.remove_session id) s)

-- `_setLastLogin`.
unfoldable pub set_last_login : Env → ℤ → Ctx → Ctx × Bool
unfolding db_call ctx_return
set_last_login env uid s =
    if ltb_ℤ uid (pos 0)
    then (record s { error = Fault.invalid_parameter }, false)
    else ctx_return (db_call env.sent (Query.set_last_login uid) s)

-- `_deauthSession`.
unfoldable pub deauth_session : Env → CStr → Ctx → Ctx × Bool
unfolding db_call ctx_return
deauth_session env id s = ctx_return (
    if not (env.validate_uuid id)
    then record s { error = Fault.invalid_session }
    else db_call env.sent (Query.deauth_session id) s)

-- `_setSession`: the session of the request is there, since `PRE_CALL` makes it.
unfoldable pub set_session : Env → Ctx → Ctx × Bool
unfolding db_call ctx_return
set_session env s =
    let session = record (s.session) { timestamp = env.now } in
    ctx_return (db_call env.sent (Query.set_session session) (record s { session = session }))
