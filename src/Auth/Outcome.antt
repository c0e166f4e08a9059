-- ===== src/Auth/Outcome.antt =====
-- What a run of `_auth` and of `_login` does to the session of the client.
use ezrpc.Base.{◌≡◌, refl, arith, Bool, true, false, Option, none, some, not, ◌&&◌}
use ezrpc.Rpc.Faults.{Fault}
use ezrpc.Rpc.State.{incr, Str, CStr, Ctx, Fn, Query, lit}
use ezrpc.Rpc.Macros.{ctx_return, ctx_value_return, drop_param}
use ezrpc.Rpc.Database.{db_call}
use ezrpc.Rpc.Env.{Env}
use ezrpc.Session.Check.{get_config}
use ezrpc.Auth.Check.{
  salt_and_hash, auth_db_verdict, auth_db_answer, auth_db_ask, auth_db, auth_by_type, auth_fallback,
  auth, auth_step, auth_db_step, auth_db_compare, ask_fallback, auth_by_pam,
}

-- A step keeps the failure counter, and whoever it admits is authenticated.
pub record IsCareful (s t : Ctx) : Type 0 where
  pub same_failures : t.session.failures ≡ s.session.failures
  pub admits : (t.auth && not t.session.authenticated) ≡ false

-- The parts of the state that a step hands to the session and the verdict unchanged.
pub record KeepsSession (s t : Ctx) : Type 0 where
  pub same_session : t.session ≡ s.session
  pub same_auth : t.auth ≡ s.auth

pub ctx_return-KeepsSession : (s : Ctx) → KeepsSession s (ctx_return s).0
unfolding ctx_return
ctx_return-KeepsSession s = ground arith

db_call-KeepsSession :
    (sent : Query → Bool) (q : Query) (s : Ctx) → KeepsSession s (db_call sent q s)
unfolding db_call
db_call-KeepsSession sent q s = ground arith

get_config-KeepsSession :
    (env : Env) (s : Ctx) (key : CStr) → KeepsSession s (get_config env s key).0
unfolding get_config
get_config-KeepsSession env s (some key) = ground arith
get_config-KeepsSession env s none = ground arith

ctx_value_return-KeepsSession : (f : Fn) (s : Ctx) → KeepsSession s (ctx_value_return f s)
unfolding ctx_value_return
ctx_value_return-KeepsSession f s = ground arith

auth_db_verdict-IsCareful :
    (ok : Bool) (s : Ctx) → s.auth ≡ false → IsCareful s (auth_db_verdict ok s)
unfolding auth_db_verdict
auth_db_verdict-IsCareful true s h = ground arith
auth_db_verdict-IsCareful false s h = ground arith

KeepsSession-IsCareful : {s t u : Ctx} → IsCareful s t → KeepsSession t u → IsCareful s u
KeepsSession-IsCareful c k = ground arith

auth_false-IsCareful : {s t : Ctx} → s.auth ≡ false → KeepsSession s t → IsCareful s t
auth_false-IsCareful h k = ground arith

KeepsSession-trans : {s t u : Ctx} → KeepsSession s t → KeepsSession t u → KeepsSession s u
KeepsSession-trans k l = ground arith

auth_db_ask-KeepsSession : (env : Env) (s : Ctx) → KeepsSession s (auth_db_ask env s)
unfolding auth_db_ask
auth_db_ask-KeepsSession env s =
    KeepsSession-trans (db_call-KeepsSession env.sent (Query.get_auth s.session.uid) s)
      (ctx_value_return-KeepsSession Fn.auth_db _)

pub drop_param-KeepsSession : (f : Fn) (s : Ctx) → KeepsSession s (drop_param f s)
unfolding drop_param
drop_param-KeepsSession f s = ground arith

pub ask_fallback-KeepsSession : (env : Env) (s : Ctx) → KeepsSession s (ask_fallback env s)
unfolding ask_fallback
ask_fallback-KeepsSession env s =
    KeepsSession-trans (get_config-KeepsSession env s _) (ctx_value_return-KeepsSession Fn.auth _)

auth_db_compare-IsCareful :
    (env : Env) (pass : Str) (o : Option (Str × Str)) (s : Ctx)
    → s.auth ≡ false
    → IsCareful s (auth_db_compare env pass o s)
unfolding auth_db_compare
auth_db_compare-IsCareful env pass none s h = auth_false-IsCareful h (
    KeepsSession-trans (record { same_session = refl; same_auth = refl })
      (ask_fallback-KeepsSession env _))
auth_db_compare-IsCareful env pass (some (salt, hash)) s h = auth_db_verdict-IsCareful _ s h

module _ (env : Env) (pass : Str) (s : Ctx) (unset : s.auth ≡ false) where
  auth_db_answer-IsCareful : IsCareful s (auth_db_answer env pass s)
  unfolding auth_db_answer
  auth_db_answer-IsCareful = ground (
    arith,
    drop_param-KeepsSession Fn.auth_db s,
    auth_db_compare-IsCareful env pass (salt_and_hash (s.params Fn.auth_db))
        (drop_param Fn.auth_db s),
  )

  auth_db_step-IsCareful : IsCareful s (auth_db_step env pass s)
  unfolding auth_db_step
  auth_db_step-IsCareful = ground (
    arith,
    auth_db_answer-IsCareful,
    auth_db_ask-KeepsSession env s,
    auth_db_ask-KeepsSession env (record s { count = incr s.count }),
  )

  auth_db-IsCareful : IsCareful s (auth_db env pass s).0
  unfolding auth_db
  auth_db-IsCareful = KeepsSession-IsCareful auth_db_step-IsCareful (ctx_return-KeepsSession _)

auth_by_type-IsCareful :
    (env : Env) (pass : Str) (s : Ctx) → s.auth ≡ false → IsCareful s (auth_by_type env pass s)
unfolding auth_by_type auth_by_pam
auth_by_type-IsCareful env pass s h = ground (
  arith,
  drop_param-KeepsSession Fn.auth s,
  auth_db-IsCareful env pass (record (drop_param Fn.auth s) { error = Fault.no_error }),
  ask_fallback-KeepsSession env (drop_param Fn.auth s),
)

auth_fallback-IsCareful :
    (env : Env) (pass : Str) (s : Ctx) → s.auth ≡ false → IsCareful s (auth_fallback env pass s)
unfolding auth_fallback
auth_fallback-IsCareful env pass s h = ground (arith, drop_param-KeepsSession Fn.auth s)

-- A run of the password check leaves the failure counter alone, and whoever it admits is
-- authenticated.
pub auth-IsCareful :
    (env : Env) (pass : Str) (s : Ctx) → s.auth ≡ false → IsCareful s (auth env pass s).0
unfolding auth auth_step
auth-IsCareful env pass s h = ground (
  arith,
  get_config-KeepsSession env s (some (lit "authtype")),
  ctx_value_return-KeepsSession Fn.auth (get_config env s (some (lit "authtype"))).0,
  auth_by_type-IsCareful env pass s,
  auth_fallback-IsCareful env pass s,
  auth_db-IsCareful env pass s,
  ctx_return-KeepsSession (auth_step env pass s),
)
