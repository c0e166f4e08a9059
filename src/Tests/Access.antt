-- ===== src/Tests/Access.antt =====
-- Requests that are checked, refused and admitted.
use ezrpc.Base.{
  ◌↔◌, ◌≡◌, ◌+◌, refl, arith, true, false, none, some, [], ◌∷◌, length, ◌&&◌, if◌then◌else◌,
}
use ezrpc.Base.Int.{◌-ℤ◌, ◌≤ℤ◌, pos, ltb_ℤ}
use ezrpc.Rpc.Faults.{Fault}
use ezrpc.Rpc.State.{Ctx, Fn, Value, Query, Effect, Session, lit, as_int}
use ezrpc.Rpc.Macros.{emit, ctx_bool_job, drop_param, ctx_return, ctx_cb_add, set_param}
use ezrpc.Rpc.Database.{db_call}
use ezrpc.Rpc.Privileges.{check_vm}
use ezrpc.Rpc.Handlers.{error_handler}
use ezrpc.Rpc.Delivery.{IsFinal, error_handler-IsFinal}
use ezrpc.Session.Check.{session_checker, set_last_login, set_session}
use ezrpc.Session.PreCall.{session_pre_call}
use ezrpc.Session.Status.{IsTimeout, session_checker_status, session_pre_call_refuses}
use ezrpc.Session.Sso.{
  sso_step_session, sso_admit, sso_fresh_id, sso_step_login, session_pre_call_sso,
}
use ezrpc.Session.SsoLaws.{session_pre_call_sso-admits}
use ezrpc.Auth.Check.{auth, auth_db_answer}
use ezrpc.Auth.Outcome.{IsCareful, auth-IsCareful}
use ezrpc.Auth.Login.{LoginConf, login}
use ezrpc.Auth.Laws.{login-failures, auth_db_answer-admits}
use ezrpc.Hash.Wrap.{sha1_buffer}
use ezrpc.Dispatch.Chain.{run_chain, deliver}
use ezrpc.Dispatch.Ownership.{check_vm-runs}
use ezrpc.Dispatch.Ends.{Runs, run_chain-ends}
use ezrpc.Tests.{test_env, test_uuid, test_session, test_ctx, one_row}

-- The method of the example.
abbrev start : Ctx → Ctx
start s = record s { count = 9 }

abbrev looked : Ctx
looked =
    deliver test_env (Query.is_vm (some test_uuid)) one_row
      (check_vm test_env (some test_uuid) start test_ctx)

abbrev owned : Ctx
owned =
    deliver test_env (Query.is_vm_owner (some test_uuid) looked.session.uid) one_row
      (check_vm test_env (some test_uuid) start looked)

-- An owner starts the machine.
check_vm-runs_example :
    ((check_vm test_env (some test_uuid) start test_ctx).log
      ≡ Effect.query (Query.is_vm (some test_uuid)) ∷ test_ctx.log)
    × ((check_vm test_env (some test_uuid) start looked).log
        ≡ Effect.query (Query.is_vm_owner (some test_uuid) test_ctx.session.uid) ∷ looked.log)
    × (check_vm test_env (some test_uuid) start owned ≡ start owned)
check_vm-runs_example =
    check_vm-runs test_env (λ q. refl) (some test_uuid) refl start test_ctx
      (record {
        alive = refl;
        no_fault = refl;
        no_result = refl;
        no_chain = refl;
        no_check = refl;
        no_auth = refl;
        first = refl;
        no_super = refl;
      })
      one_row one_row refl (omega arith) refl (omega arith)

abbrev expired : Ctx
expired = record test_ctx {
  checked = true;
  session = record test_session { status = Fault.expired_session };
}

-- A session that has expired.
session_pre_call_refuses_example : session_pre_call test_env expired ≡ (
  emit
      (Effect.resume false)
      (record expired { error = Fault.expired_session; content_fault = Fault.expired_session }),
  false,
)
session_pre_call_refuses_example =
    session_pre_call_refuses test_env expired
      (record {
        has_host = refl;
        has_cookie = refl;
        was_checked = refl;
        no_login = refl;
        no_logout = refl;
        no_get = refl;
        content = refl;
      })
      refl

abbrev checking : Ctx
checking = record test_ctx { count = 1 }

-- The first step with the answer to the type of the check.
auth-IsCareful_example : IsCareful checking (auth test_env (lit "secret") checking).0
auth-IsCareful_example = auth-IsCareful test_env (lit "secret") checking refl

abbrev test_conf : LoginConf
test_conf = record { max_login_failures = pos 3; retry_timeout = pos 5 }

abbrev answered : Ctx
answered = record test_ctx { count = 2; params = λ k. Value.texts (lit "salt" ∷ lit "hash" ∷ []) }

abbrev logged_in : Ctx
logged_in = (login test_env test_conf (lit "ann") (lit "wrong") answered).0

-- A wrong password.
login-failures_example : logged_in.session.failures ≡ (
    if (auth test_env (lit "wrong") answered).1 && (auth test_env (lit "wrong") answered).0.auth
    then pos 0
    else answered.session.failures)
login-failures_example =
    login-failures test_env test_conf (lit "ann") (lit "wrong") answered refl refl

auth_db_answer-admits_example :
    ((auth_db_answer test_env (lit "pass") answered).auth
      ≡ test_env.same (sha1_buffer (lit "salt") (lit "pass")) (some (lit "hash")))
    × ((auth_db_answer test_env (lit "pass") answered).session.authenticated
        ≡ test_env.same (sha1_buffer (lit "salt") (lit "pass")) (some (lit "hash")))
auth_db_answer-admits_example =
    auth_db_answer-admits test_env (lit "pass") answered (lit "salt") (lit "hash") refl refl

abbrev at_fallback : Ctx
at_fallback = record test_ctx {
  count = 10;
  cbs = Fn.cb_pointer_return ∷ [];
  params = λ k. Value.fn Fn.auth;
}

abbrev signing_on : Ctx
signing_on = record test_ctx { count = 4; sso = true; params = λ k. Value.int (pos 7) }

admitted : (session_pre_call_sso test_env signing_on).session.authenticated ≡ true
unfolding session_pre_call_sso sso_step_session sso_admit sso_fresh_id sso_step_login set_last_login
    set_session ctx_bool_job drop_param ctx_return db_call ctx_cb_add set_param
admitted = refl

-- The fourth step with the id 7.
session_pre_call_sso-admits_example :
    (signing_on.sso ≡ true)
    × (signing_on.count ≡ 4)
    × (ltb_ℤ (as_int (signing_on.params Fn.session_pre_call_sso)) (pos 0) ≡ false)
    × ((session_pre_call_sso test_env signing_on).session.uid
        ≡ as_int (signing_on.params Fn.session_pre_call_sso))
session_pre_call_sso-admits_example = session_pre_call_sso-admits test_env signing_on refl admitted

abbrev not_enabled : Ctx
not_enabled = record test_ctx { count = 1; params = λ k. Value.text (lit "no") }

abbrev waiting : Ctx
waiting = record test_ctx { cbs = Fn.session_get_cb ∷ Fn.cb_int_rewind ∷ [] }

-- A chain of two callbacks.
run_chain-ends_example : Runs test_env Fn.session_get_cb (Value.session test_session) waiting (
    run_chain
      (length waiting.cbs + 1)
      test_env
      Fn.session_get_cb
      (Value.session test_session)
      waiting)
run_chain-ends_example =
    run_chain-ends test_env Fn.session_get_cb (Value.session test_session) waiting

abbrev failed : Ctx
failed = record waiting { error = Fault.db_query }

error_handler-IsFinal_example :
    ((error_handler failed).log ≡ Effect.resume false ∷ [])
    × ((error_handler failed).cbs ≡ [])
    × ((k : Fn) → (error_handler failed).params k ≡ Value.null)
    × IsFinal (error_handler failed)
error_handler-IsFinal_example = error_handler-IsFinal failed refl

abbrev finished : Ctx
finished = record test_ctx { retval = Value.int (pos 7) }

abbrev old : Session
old = record test_session { authenticated = true; timestamp = pos 10 }

-- A session that is 990 seconds old, with the default timeout of 900.
session_checker_status_example :
    let status = (session_checker test_env none old test_ctx).1.status in
    ((status ≡ Fault.valid_session) ↔ ((true ≡ true) × (pos 1000 -ℤ pos 10 ≤ℤ pos 900)))
    × ((status ≡ Fault.not_authorized) ↔ (true ≡ false))
    × ((status ≡ Fault.expired_session) ↔ ((true ≡ true) × (¬ (pos 1000 -ℤ pos 10 ≤ℤ pos 900))))
session_checker_status_example =
    session_checker_status test_env none old test_ctx (pos 900) IsTimeout.unset

abbrev valid : Ctx
valid = record test_ctx {
  checked = true;
  session = record test_session { status = Fault.valid_session };
}
