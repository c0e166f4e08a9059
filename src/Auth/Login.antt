-- ===== src/Auth/Login.antt =====
-- `_login` of src/servlets/servlet-functions.c and the callback that takes the user's id.
use ezrpc.Base.{◌+◌, ℕ, ◌==◌, ltb, Bool, true, false, not, ◌&&◌, some, if◌then◌else◌}
use ezrpc.Base.Int.{ℤ, pos, negsuc, ◌+ℤ◌, ◌-ℤ◌, ◌*ℤ◌, ltb_ℤ}
use ezrpc.Rpc.Faults.{Fault, fault_eq, is_error}
use ezrpc.Rpc.State.{Str, Ctx, Fn, Value, Query, Effect, Session, as_int}
use ezrpc.Rpc.Macros.{ctx_cb_add, mark_cb, ctx_return, resume, rewind, azy_retval, emit}
use ezrpc.Rpc.Database.{db_call}
use ezrpc.Rpc.Env.{Env}
use ezrpc.Session.Check.{set_session, set_last_login}
use ezrpc.Auth.Check.{auth}

-- The fields of `zentific_config` that the login reads.
pub record LoginConf : Type 0 where
  pub max_login_failures : ℤ
  pub retry_timeout : ℤ

abbrev pub max_username_length : ℕ
max_username_length = 255

-- `login_cb_uid`.
unfoldable pub login_cb_uid : Env → Value → Ctx → Ctx
login_cb_uid env ret s =
    let s = mark_cb s in
    if ltb_ℤ (as_int ret) (pos 0)
    then (if is_error s.error && not (fault_eq s.error Fault.unknown_resource)
        then resume s
        else (set_session env (azy_retval Value.null (record s { error = Fault.no_error }))).0)
    else resume (rewind (record s { session = record (s.session) { uid = as_int ret } }))

-- Too many failures, and the last of them not long ago.
unfoldable pub locked_out : Env → LoginConf → Session → Bool
locked_out env conf session =
    not (ltb_ℤ session.failures conf.max_login_failures)
    && ltb_ℤ (env.now -ℤ session.timestamp) (conf.retry_timeout *ℤ pos 60)

-- The failures after the check: the counter is reset once the timeout has passed.
abbrev pub passed_failures : LoginConf → Session → ℤ
passed_failures conf session =
    if ltb_ℤ session.failures conf.max_login_failures then session.failures else pos 0

-- Run #1 of `_login`: the name is looked up.
unfoldable pub login_lookup : Env → LoginConf → Str → Ctx → Ctx × Bool
login_lookup env conf user s =
    let s = record s { session = record (s.session) { username = some user } } in
    if locked_out env conf s.session
    then ctx_return (record s { error = Fault.max_login_failures })
    else (let s = record s {
      session = record (s.session) { failures = passed_failures conf s.session };
    } in
        if ltb max_username_length (env.strlen_bounded user (max_username_length + 1))
        then ctx_return (record s { error = Fault.invalid_parameter })
        else ctx_return (
            ctx_cb_add Fn.login_cb_uid
              (ctx_return (db_call env.sent (Query.get_active_user_uid (some user)) s)).0))

-- The end of `_login` for an authenticated session.
unfoldable pub admit_login : Env → Ctx → Ctx
admit_login env s =
    let t =
      (set_last_login env s.session.uid
        (record s { session = record (s.session) { failures = pos 0 } })).0 in
    let u = ctx_cb_add Fn.no_fn t in
    let v = record u {
      session = record (u.session) { session_id = some env.new_uuid };
      cookie = some env.new_uuid;
    } in
    (set_session env (emit (Effect.cookie_set (some env.new_uuid)) v)).0

-- The end of `_login` for another.
unfoldable pub refuse_login : Env → Ctx → Ctx
refuse_login env s =
    (set_session env (record s {
      session = record (s.session) { failures = s.session.failures +ℤ pos 1 };
      content_fault =
          if is_error s.content_fault && not (fault_eq s.content_fault Fault.db_fail)
          then Fault.no_error
          else s.content_fault;
    })).0

-- The end of `_login`: the session records the outcome and is stored.
unfoldable pub login_finish : Env → Ctx → Ctx × Bool
login_finish env s =
    if s.session.authenticated then (admit_login env s, true) else (refuse_login env s, false)

-- Run #2 of `_login` after the password check: what it returned decides.
unfoldable pub login_decide : Env → Bool → Ctx → Ctx × Bool
login_decide env false t =
    ctx_return (if is_error t.content_fault then t else record t { error = Fault.server_failure })
login_decide env true t = if not t.auth then ctx_return t else login_finish env t

-- Run #2 of `_login`: the password is checked first.
unfoldable pub login_check : Env → Str → Ctx → Ctx × Bool
login_check env pass s =
    if s.auth then login_finish env s else (let (t, ok) = auth env pass s in login_decide env ok t)

abbrev pub is_unset : ℤ → Bool
is_unset (negsuc n) = n == 0
is_unset (pos n) = false

-- `_login`.
unfoldable pub login : Env → LoginConf → Str → Str → Ctx → Ctx × Bool
login env conf user pass s =
    if is_unset s.session.uid then login_lookup env conf user s else login_check env pass s
