-- ===== src/Auth/Check.antt =====
-- `_auth` and `_auth_db` of functions-auth.c: the steps that check a password. `ctx->count` is the
-- step, and each step that waits for the database ends the run.
use ezrpc.Base.{◌==◌, Bool, true, false, ◌&&◌, ◌||◌, Option, none, some, [], ◌∷◌, if◌then◌else◌}
use ezrpc.Rpc.Faults.{Fault, fault_eq, is_error}
use ezrpc.Rpc.State.{Str, CStr, Ctx, Fn, Value, Query, lit, incr, as_text}
use ezrpc.Rpc.Macros.{ctx_value_return, drop_param, ctx_return}
use ezrpc.Rpc.Database.{db_call}
use ezrpc.Rpc.Env.{Env}
use ezrpc.Session.Check.{get_config}
use ezrpc.Session.ClientIp.{is_true}
use ezrpc.Hash.Wrap.{sha1_buffer}

-- `_auth_pam`: all of libpam's answers are PAM_SUCCESS.
unfoldable pub auth_pam : Env → CStr → Str → Bool
auth_pam env user pass =
    env.pam_start user
    && (env.pam_authenticate user (some pass) && env.pam_acct_mgmt user (some pass))

-- `auth->data` and `auth->next->data` of a list of two.
abbrev pub salt_and_hash : Value → Option (Str × Str)
salt_and_hash (Value.texts (salt ∷ hash ∷ [])) = some (salt, hash)
salt_and_hash _ = none

-- The password hashes to the stored hash.
unfoldable pub hash_matches : Env → Str → Str → Str → Bool
hash_matches env salt hash pass = env.same (sha1_buffer salt pass) (some hash)

-- The end of `case 2` of `_auth_db`, once the hashes are compared.
unfoldable pub auth_db_verdict : Bool → Ctx → Ctx
auth_db_verdict true s =
    if s.session.authenticated then record s { auth = true; count = 1 } else record s {
      auth = true;
      session = record (s.session) { authenticated = true };
      count = incr s.count;
    }
auth_db_verdict false s = record s {
  auth = false;
  error = Fault.not_authorized;
  count = incr s.count;
}

-- The configuration key of the fallback is asked for, from either function.
unfoldable pub ask_fallback : Env → Ctx → Ctx
ask_fallback env s = ctx_value_return Fn.auth (get_config env s (some (lit "authfallback"))).0

-- `case 2` of `_auth_db`: the salt and the hash are there, or the fallback is looked up.
unfoldable pub auth_db_compare : Env → Str → Option (Str × Str) → Ctx → Ctx
auth_db_compare env pass none s = ask_fallback env (record s { count = 10; error = Fault.no_error })
auth_db_compare env pass (some (salt, hash)) s = auth_db_verdict (hash_matches env salt hash pass) s

unfoldable pub auth_db_answer : Env → Str → Ctx → Ctx
auth_db_answer env pass s =
    auth_db_compare env pass (salt_and_hash (s.params Fn.auth_db)) (drop_param Fn.auth_db s)

-- `case 1` of `_auth_db`.
unfoldable pub auth_db_ask : Env → Ctx → Ctx
auth_db_ask env s = ctx_value_return Fn.auth_db (db_call env.sent (Query.get_auth s.session.uid) s)

-- The switch of `_auth_db`, and the function.
unfoldable pub auth_db_step : Env → Str → Ctx → Ctx
auth_db_step env pass s =
    if s.count == 0
    then auth_db_ask env (record s { count = incr s.count })
    else if s.count == 1
    then auth_db_ask env s
    else if s.count == 2
    then auth_db_answer env pass s
    else s

unfoldable pub auth_db : Env → Str → Ctx → Ctx × Bool
auth_db env pass s = ctx_return (auth_db_step env pass s)

-- The branch of the `pam` type.
unfoldable pub auth_by_pam : Env → Str → Ctx → Ctx
auth_by_pam env pass s = record s {
  session = record (s.session) { authenticated = auth_pam env s.session.username pass };
}

-- `case 1` of `_auth`.
unfoldable pub auth_by_type : Env → Str → Ctx → Ctx
auth_by_type env pass s =
    let authtype = as_text (s.params Fn.auth) in
    let t = drop_param Fn.auth s in
    if fault_eq t.error Fault.unknown_resource || env.same authtype (some (lit "internal"))
    then (auth_db env pass (record t { error = Fault.no_error })).0
    else if env.same authtype (some (lit "pam"))
    then auth_by_pam env pass t
    else if is_error t.error
    then t
    else record (ask_fallback env t) { count = 10 }

-- `case 10` of `_auth`.
unfoldable pub auth_fallback : Env → Str → Ctx → Ctx
auth_fallback env pass s =
    let v = s.params Fn.auth in
    let t = drop_param Fn.auth s in
    let allowed = if is_true v then auth_pam env t.session.username pass else t.auth in
    let u =
      if t.session.authenticated
      then record t { auth = allowed; count = 0 }
      else record t { auth = allowed; session = record (t.session) { authenticated = allowed } } in
    if allowed then u else record u { error = Fault.not_authorized }

-- The switch of `_auth`, and the function.
unfoldable pub auth_step : Env → Str → Ctx → Ctx
auth_step env pass s =
    if s.count == 0
    then ctx_value_return Fn.auth (get_config env s (some (lit "authtype"))).0
    else if s.count == 1
    then auth_by_type env pass s
    else if s.count == 10
    then auth_fallback env pass s
    else (auth_db env pass s).0

unfoldable pub auth : Env → Str → Ctx → Ctx × Bool
auth env pass s = ctx_return (auth_step env pass s)
