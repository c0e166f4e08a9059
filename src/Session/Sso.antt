-- ===== src/Session/Sso.antt =====
-- Single sign-on by a proxy: `session_pre_call_sso_check` and `session_pre_call_sso` of
-- functions-session.c. Both run again as jobs; `ctx->count` tells the step.
use ezrpc.Base.{◌==◌, Bool, true, false, not, ◌||◌, none, some, if◌then◌else◌}
use ezrpc.Base.Int.{pos, ltb_ℤ}
use ezrpc.Rpc.Faults.{Fault, is_error}
use ezrpc.Rpc.State.{is_null, Str, CStr, Ctx, Fn, Value, Query, Effect, lit, incr, as_int, as_text}
use ezrpc.Rpc.Macros.{
  ctx_value_job, ctx_int_job, ctx_bool_job, drop_param, ctx_return, resume, rewind, emit,
}
use ezrpc.Rpc.Database.{db_call}
use ezrpc.Rpc.Env.{Env, contains}
use ezrpc.Session.Check.{get_config, set_session, set_last_login}

-- The `error:` label of `session_pre_call_sso`.
unfoldable pub sso_abandon : Ctx → Ctx
unfolding rewind resume
sso_abandon s = resume (rewind (record s { sso = false }))

abbrev pub sso_refuse : Ctx → Ctx
sso_refuse s = sso_abandon (record s { error = Fault.not_authorized })

-- What the trusted host is found in: one of the two headers, or neither, or `strstr` reads the NULL
-- of a header that is not there.
pub data HostCheck : Type 0 where
  trusted untrusted unreadable : HostCheck

-- `(!strstr(fwded_server, str)) && (!strstr(fwded_host, str))`, from left to right.
unfoldable pub check_host : CStr → CStr → Str → HostCheck
check_host none host str = HostCheck.unreadable
check_host (some server) none str =
    if contains server str then HostCheck.trusted else HostCheck.unreadable
check_host (some server) (some host) str =
    if contains server str || contains host str then HostCheck.trusted else HostCheck.untrusted

abbrev pub forwarded_host : Env → CStr
forwarded_host env = env.header (lit "X-Forwarded-Host")

abbrev pub forwarded_server : Env → CStr
forwarded_server env = env.header (lit "X-Forwarded-Server")

-- The step for a trusted host that is an address, with at least one of the headers there.
unfoldable pub sso_host : Env → Str → Ctx → Ctx
sso_host env str s = elim (check_host (forwarded_server env) (forwarded_host env) str) [
  | HostCheck.trusted ↦
      ctx_value_job Fn.session_pre_call_sso (get_config env s (some (lit "SSOheader"))).0
  | HostCheck.untrusted ↦ sso_refuse s
  | HostCheck.unreadable ↦ emit Effect.undefined s
]

abbrev pub no_header : CStr → CStr → Bool
no_header none none = true
no_header _ _ = false

-- `case 2`. A value that is no text fails `zshare_validate_ip(NULL)` or is passed on as it is.
unfoldable pub sso_step_host : Env → Ctx → Ctx
sso_step_host env s =
    let v = s.params Fn.session_pre_call_sso in
    let t = record (drop_param Fn.session_pre_call_sso s) { data_ptr = v } in
    if not (env.validate_ip (as_text v))
    then sso_abandon t
    else if no_header (forwarded_server env) (forwarded_host env)
    then sso_abandon t
    else elim v [ Value.text str ↦ sso_host env str t | _ ↦ emit Effect.undefined t ]

-- `case 3`.
unfoldable pub sso_step_user : Env → Ctx → Ctx
sso_step_user env s =
    let v = s.params Fn.session_pre_call_sso in
    let t = record (drop_param Fn.session_pre_call_sso s) { data_ptr = v } in
    if is_null v
    then sso_refuse t
    else ctx_int_job Fn.session_pre_call_sso
        (ctx_return (db_call env.sent (Query.get_user_uid (as_text v)) t)).0

-- `case 5`.
unfoldable pub sso_step_login : Env → Ctx → Ctx
sso_step_login env s =
    if is_error s.error then sso_abandon s else (set_last_login env s.session.uid s).0

-- The new session id of `case 4`.
unfoldable pub sso_fresh_id : Env → Ctx → Ctx
sso_fresh_id env s =
    if env.validate_uuid s.session.session_id
    then s
    else emit (Effect.cookie_set (some env.new_uuid)) (record s {
      session = record (s.session) { session_id = some env.new_uuid };
      cookie = some env.new_uuid;
    })

-- `case 4` for a user that there is: the session is authenticated and stored, and `case 5` follows,
-- as no `break` stands between them.
unfoldable pub sso_admit : Env → Ctx → Ctx
sso_admit env s =
    let u = sso_fresh_id env s in
    let u = record u { session = record (u.session) { authenticated = true } } in
    sso_step_login env (ctx_bool_job Fn.session_pre_call_sso (set_session env u).0)

-- `case 4`.
unfoldable pub sso_step_session : Env → Ctx → Ctx
sso_step_session env s =
    let uid = as_int (s.params Fn.session_pre_call_sso) in
    let t = drop_param Fn.session_pre_call_sso s in
    let t = record t { session = record (t.session) { uid = uid } } in
    if ltb_ℤ uid (pos 0) then sso_refuse t else sso_admit env t

-- `session_pre_call_sso`.
unfoldable pub session_pre_call_sso : Env → Ctx → Ctx
session_pre_call_sso env s =
    if not s.sso
    then s
    else if s.count == 1
    then ctx_value_job Fn.session_pre_call_sso (get_config env s (some (lit "SSOtrustedhost"))).0
    else if s.count == 2
    then sso_step_host env s
    else if s.count == 3
    then sso_step_user env s
    else if s.count == 4
    then sso_step_session env s
    else if s.count == 5
    then sso_step_login env s
    else s

-- `case 1` of `session_pre_call_sso_check`: the configuration says whether SSO is on.
abbrev pub sso_enable : Env → Ctx → Ctx
sso_enable env s =
    let v = s.params Fn.session_pre_call_sso_check in
    let t = drop_param Fn.session_pre_call_sso_check s in
    record t {
      sso = t.sso || env.same_nocase (as_text v) (some (lit "yes"));
      error = Fault.no_error;
    }

-- `session_pre_call_sso_check`.
unfoldable pub session_pre_call_sso_check : Env → Ctx → Ctx
session_pre_call_sso_check env s =
    if s.count == 0
    then ctx_value_job Fn.session_pre_call_sso_check (get_config env s (some (lit "SSOenabled"))).0
    else if s.count == 1
    then (let t = sso_enable env s in
        if t.sso
        then session_pre_call_sso env t
        else session_pre_call_sso env (resume (rewind (record t { count = incr t.count }))))
    else session_pre_call_sso env s
