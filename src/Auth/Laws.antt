-- ===== src/Auth/Laws.antt =====
-- The guarantees of the password check and of the login, and where they end.
use ezrpc.Base.{◌≡◌, ap, ◌∙◌, arith, Bool, true, false, some, [], ◌∷◌, ◌||◌, ◌&&◌, if◌then◌else◌}
use ezrpc.Base.Int.{ℤ, pos}
use ezrpc.Rpc.Faults.{Fault}
use ezrpc.Rpc.State.{Str, Ctx, Fn, Value, Session, incr}
use ezrpc.Rpc.Macros.{ctx_return, ctx_cb_add, set_fault, set_param, drop_param, mark_cb, rewind}
use ezrpc.Rpc.Callbacks.{cb_pointer_return, set_named}
use ezrpc.Rpc.Env.{Env}
use ezrpc.Session.Check.{set_session, set_last_login}
use ezrpc.Auth.Check.{
  hash_matches, auth_db_verdict, auth_db_answer, auth_db_compare, auth_db_step, auth_db, auth_step,
  auth,
}
use ezrpc.Hash.Wrap.{sha1_buffer}
use ezrpc.Auth.Login.{
  LoginConf, is_unset, admit_login, login_finish, login_decide, login_check, login,
}
use ezrpc.Auth.Outcome.{auth-IsCareful, drop_param-KeepsSession}

ctx_cb_add-failures : (f : Fn) (s : Ctx) → (ctx_cb_add f s).session ≡ s.session
unfolding ctx_cb_add
ctx_cb_add-failures f s = ground arith

set_last_login-failures :
    (env : Env) (uid : ℤ) (s : Ctx) → (set_last_login env uid s).0.session ≡ s.session
unfolding set_last_login
set_last_login-failures env uid s = ground arith

set_session-failures :
    (env : Env) (s : Ctx) → (set_session env s).0.session.failures ≡ s.session.failures
unfolding set_session
set_session-failures env s = ground arith

admit_login-failures : (env : Env) (s : Ctx) → (admit_login env s).session.failures ≡ pos 0
unfolding admit_login
admit_login-failures env s =
    set_session-failures env _
    ∙ ap (λ (x : Session). x.failures)
        (ctx_cb_add-failures Fn.no_fn _ ∙ set_last_login-failures env s.session.uid _)

-- An authenticated session that ends its login has no failures.
login_finish-failures :
    (env : Env) (s : Ctx)
    → s.session.authenticated ≡ true
    → (login_finish env s).0.session.failures ≡ pos 0
unfolding login_finish
login_finish-failures env s h = ground (arith, admit_login-failures env s)

-- Only an accepted password resets the counter.
login_decide-failures :
    (env : Env) (ok : Bool) (t : Ctx)
    → (t.auth ≡ true → t.session.authenticated ≡ true)
    → (login_decide env ok t).0.session.failures
      ≡ (if ok && t.auth then pos 0 else t.session.failures)
unfolding login_decide ctx_return set_fault
login_decide-failures env false t h = ground arith
login_decide-failures env true t h = ground (arith, login_finish-failures env t)

login_check-failures :
    (env : Env) (pass : Str) (s : Ctx)
    → s.auth ≡ false
    → (login_check env pass s).0.session.failures
      ≡ (if (auth env pass s).1 && (auth env pass s).0.auth then pos 0 else s.session.failures)
unfolding login_check
login_check-failures env pass s h = ground (
  arith,
  auth-IsCareful env pass s h,
  login_decide-failures env (auth env pass s).1 (auth env pass s).0,
)

-- Once the user's id is known and no password has been accepted yet, a run of `_login` sets the
-- failure counter to 0 if the password check returns true with the client admitted, and leaves the
-- counter as it is in every other case: no run raises it.
pub login-failures :
    (env : Env) (conf : LoginConf) (user pass : Str) (s : Ctx)
    → is_unset s.session.uid ≡ false
    → s.auth ≡ false
    → (login env conf user pass s).0.session.failures
      ≡ (if (auth env pass s).1 && (auth env pass s).0.auth then pos 0 else s.session.failures)
unfolding login
login-failures env conf user pass s h k = ground (arith, login_check-failures env pass s k)

auth_db_verdict-auth :
    (ok : Bool) (s : Ctx)
    → ((auth_db_verdict ok s).auth ≡ ok)
      × ((auth_db_verdict ok s).session.authenticated ≡ (s.session.authenticated || ok))
unfolding auth_db_verdict
auth_db_verdict-auth true s = ground arith
auth_db_verdict-auth false s = ground arith

-- The answer with the salt and the hash admits the client exactly when the salted password hashes
-- to it, and marks the session authenticated exactly then if it was not before.
pub auth_db_answer-admits :
    (env : Env) (pass : Str) (s : Ctx) (salt hash : Str)
    → s.params Fn.auth_db ≡ Value.texts (salt ∷ hash ∷ [])
    → s.session.authenticated ≡ false
    → ((auth_db_answer env pass s).auth ≡ env.same (sha1_buffer salt pass) (some hash))
      × ((auth_db_answer env pass s).session.authenticated
          ≡ env.same (sha1_buffer salt pass) (some hash))
unfolding auth_db_answer auth_db_compare hash_matches
auth_db_answer-admits env pass s salt hash h k =
    rw h (verdict env (env.same (sha1_buffer salt pass) (some hash)) s k)
  where
    verdict :
        (env : Env) (ok : Bool) (s : Ctx)
        → s.session.authenticated ≡ false
        → ((auth_db_verdict ok (drop_param Fn.auth_db s)).auth ≡ ok)
          × ((auth_db_verdict ok (drop_param Fn.auth_db s)).session.authenticated ≡ ok)
    verdict env ok s k = ground (
      arith,
      auth_db_verdict-auth ok (drop_param Fn.auth_db s),
      drop_param-KeepsSession Fn.auth_db s,
    )

set_named-fields :
    (k v : Value) (s : Ctx)
    → ((set_named k v s).count ≡ s.count)
      × ((set_named k v s).error ≡ s.error)
      × ((set_named k v s).ret_set ≡ s.ret_set)
unfolding set_param
set_named-fields (Value.fn f) v s = ground arith
set_named-fields (Value.text f) v s = ground arith
set_named-fields (Value.texts f) v s = ground arith
set_named-fields (Value.int f) v s = ground arith
set_named-fields (Value.bool f) v s = ground arith
set_named-fields (Value.session f) v s = ground arith
set_named-fields (Value.group f) v s = ground arith
set_named-fields (Value.user f) v s = ground arith
set_named-fields (Value.job f) v s = ground arith
set_named-fields Value.null v s = ground arith
set_named-fields Value.process v s = ground arith
set_named-fields Value.stale v s = ground arith

cb_pointer_return-fields :
    (v : Value) (s : Ctx)
    → s.dead ≡ false
    → ((cb_pointer_return v s).count ≡ incr s.count)
      × ((cb_pointer_return v s).error ≡ s.error)
      × ((cb_pointer_return v s).ret_set ≡ s.ret_set)
unfolding cb_pointer_return mark_cb rewind
cb_pointer_return-fields v s h = ground (
  arith,
  set_named-fields (s.params Fn.cb_pointer_return) v (record (mark_cb s) { count = incr s.count }),
)

-- A state that no step of the check knows passes it as it stands.
auth-passes :
    (env : Env) (pass : Str) (s : Ctx)
    → s.count ≡ 11
    → s.error ≡ Fault.no_error
    → s.ret_set ≡ false
    → auth env pass s ≡ (s, true)
unfolding auth auth_step auth_db auth_db_step ctx_return
auth-passes env pass s h1 h2 h3 = ground arith

-- The fallback step is never reached: after the answer to the fallback's configuration key, a live
-- client with `count` 10 passes the check as it stands, neither admitted nor refused.
pub fallback_unreached :
    (env : Env) (pass : Str) (v : Value) (s : Ctx)
    → s.count ≡ 10
    → s.dead ≡ false
    → s.error ≡ Fault.no_error
    → s.ret_set ≡ false
    → auth env pass (cb_pointer_return v s) ≡ (cb_pointer_return v s, true)
fallback_unreached env pass v s h1 h2 h3 h4 =
    let f = cb_pointer_return-fields v s h2 in
    auth-passes env pass (cb_pointer_return v s) (f.0 ∙ ap incr h1) (f.1 ∙ h3) (f.2 ∙ h4)
