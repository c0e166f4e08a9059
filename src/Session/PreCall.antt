-- ===== src/Session/PreCall.antt =====
-- `session_pre_call` of functions-session.c with its callbacks: it runs before every call, and
-- again after each rewind, until the session of the request is known and checked.
use ezrpc.Base.{◌==◌, Bool, true, false, not, ◌&&◌, ◌||◌, some, if◌then◌else◌}
use ezrpc.Base.Int.{negsuc}
use ezrpc.Rpc.Faults.{Fault, fault_eq, is_error}
use ezrpc.Rpc.State.{CStr, Ctx, Fn, Value, Query, Effect, lit, as_int, as_text}
use ezrpc.Rpc.Macros.{ctx_cb_add, mark_cb, ctx_return, resume, rewind, emit}
use ezrpc.Rpc.Database.{db_call}
use ezrpc.Rpc.Env.{Env}
use ezrpc.Session.Check.{get_session, check_session, set_session, is_none}
use ezrpc.Session.ClientIp.{session_get_client_ip}
use ezrpc.Session.Sso.{session_pre_call_sso_check}

-- `session_cb_error_clear`.
unfoldable pub session_cb_error_clear : Value → Ctx → Ctx
unfolding mark_cb
session_cb_error_clear ret s =
    if s.dead then s else emit (Effect.resume true) (record (mark_cb s) { error = Fault.no_error })

-- `session_pre_call_cb_super`.
unfoldable pub session_pre_call_cb_super : Env → Value → Ctx → Ctx
unfolding mark_cb resume set_session ctx_cb_add
session_pre_call_cb_super env ret s =
    let s = mark_cb s in
    if is_error s.error
    then resume s
    else ctx_cb_add Fn.session_cb_error_clear
        (record (set_session env (record s { user_type = as_int ret })).0 {
          count = 0;
          checked = false;
        })

-- `session_pre_call_cb_getSession`.
unfoldable pub session_pre_call_cb_get_session : Value → Ctx → Ctx
unfolding mark_cb resume
session_pre_call_cb_get_session (Value.session stored) s =
    let s = mark_cb s in
    resume (record s {
      session = record (s.session) {
        authenticated = stored.authenticated;
        uid = stored.uid;
        referrer = stored.referrer;
        failures = stored.failures;
        timestamp = stored.timestamp;
      };
    })
session_pre_call_cb_get_session _ s = resume (mark_cb s)

-- `session_pre_call_cb_ip`.
unfoldable pub session_pre_call_cb_ip : Value → Ctx → Ctx
unfolding mark_cb resume
session_pre_call_cb_ip ip s =
    let s = mark_cb s in
    resume (record s { session = record (s.session) { client_host = as_text ip } })

abbrev pub is_login : Env → CStr → Bool
is_login env method =
    env.same method (some (lit "User.login")) || env.same method (some (lit "Zentific.hello"))

-- The cookie is no session id.
unfoldable pub pre_call_no_cookie : Env → Ctx → Ctx × Bool
pre_call_no_cookie env s =
    if s.has_content && not (is_login env s.method)
    then (if s.count == 0
        then ctx_return (session_pre_call_sso_check env s)
        else ctx_return (record s {
          error =
              if is_none s.session.session_id
              then Fault.not_authenticated
              else Fault.invalid_session;
        }))
    else (let t = record s {
      session = record (s.session) { session_id = some env.new_uuid };
      cookie = some env.new_uuid;
    } in
        ctx_return (set_session env (emit (Effect.cookie_set (some env.new_uuid)) t)).0)

-- The session is not checked yet.
unfoldable pub pre_call_unchecked : Env → Ctx → Ctx × Bool
pre_call_unchecked env s =
    if s.count == 0
    then ctx_return (session_pre_call_sso_check env s)
    else if is_none s.session.session_id
    then (let t = record s { session = record (s.session) { session_id = s.cookie } } in
        ctx_return (
          rewind (
            ctx_cb_add Fn.session_pre_call_cb_get_session
              (get_session env t.session.session_id t).0)))
    else ctx_return (rewind (check_session env s).0)

-- The answer for a checked session, by its status.
unfoldable pub pre_call_status : Env → Ctx → Ctx × Bool
pre_call_status env s =
    if fault_eq s.session.status Fault.valid_session
    then (let t = (ctx_return (db_call env.sent (Query.get_user_type s.session.uid) s)).0 in
        ctx_return (record (ctx_cb_add Fn.session_pre_call_cb_super t) { error = Fault.no_error }))
    else ctx_return (record s {
      error =
          if fault_eq s.session.status Fault.expired_session
          then Fault.expired_session
          else if fault_eq s.session.status Fault.not_authorized
          then Fault.not_authorized
          else Fault.invalid_session;
    })

-- The session is checked.
unfoldable pub pre_call_decide : Env → Ctx → Ctx × Bool
pre_call_decide env s =
    if is_login env s.method
    then (let t = resume s in
        ctx_return (record t {
          session = record (t.session) { uid = negsuc 0; authenticated = false };
          error = Fault.no_error;
        }))
    else if s.session.authenticated && env.same s.method (some (lit "User.logout"))
    then ctx_return (record s { error = Fault.no_error })
    else if env.is_get
    then ctx_return (resume (record s { error = Fault.no_error }))
    else pre_call_status env s

-- `session_pre_call`.
unfoldable pub session_pre_call : Env → Ctx → Ctx × Bool
session_pre_call env s =
    if is_none s.session.client_host
    then ctx_return (rewind (ctx_cb_add Fn.session_pre_call_cb_ip (session_get_client_ip env s)))
    else if not (env.validate_uuid s.cookie)
    then pre_call_no_cookie env s
    else if not s.checked
    then pre_call_unchecked env s
    else pre_call_decide env s
