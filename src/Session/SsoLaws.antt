-- ===== src/Session/SsoLaws.antt =====
-- When single sign-on admits a client, and whom.
use ezrpc.Base.{◌≡◌, refl, ◌∙◌, arith, true, false, some}
use ezrpc.Base.Int.{ℤ, pos, ltb_ℤ}
use ezrpc.Rpc.Faults.{Fault}
use ezrpc.Rpc.State.{Str, Ctx, Fn, Value, Query, Effect, as_int, as_text, lit}
use ezrpc.Rpc.Macros.{
  ctx_value_job, ctx_int_job, ctx_bool_job, drop_param, ctx_return, resume, rewind, emit,
}
use ezrpc.Rpc.Database.{db_call}
use ezrpc.Rpc.Env.{Env}
use ezrpc.Session.Check.{get_config, set_session, set_last_login}
use ezrpc.Session.Sso.{
  sso_abandon, sso_host, sso_step_host, sso_step_user, sso_step_login, sso_fresh_id, sso_admit,
  sso_step_session, session_pre_call_sso, session_pre_call_sso_check,
}

-- The parts of the state that tell who the client is.
pub record SameLogin (s t : Ctx) : Type 0 where
  pub same_authenticated : t.session.authenticated ≡ s.session.authenticated
  pub same_uid : t.session.uid ≡ s.session.uid

SameLogin-trans : {s t u : Ctx} → SameLogin s t → SameLogin t u → SameLogin s u
SameLogin-trans k l = ground arith

module _ (env : Env) where
  set_last_login-SameLogin : (uid : ℤ) (s : Ctx) → SameLogin s (set_last_login env uid s).0
  unfolding set_last_login
  set_last_login-SameLogin uid s = ground arith

  sso_abandon-SameLogin : (s : Ctx) → SameLogin s (sso_abandon s)
  unfolding sso_abandon
  sso_abandon-SameLogin s = ground arith

  get_config-SameLogin : (s : Ctx) (key : Str) → SameLogin s (get_config env s (some key)).0
  unfolding get_config
  get_config-SameLogin s key = ground arith

  ctx_value_job-SameLogin : (f : Fn) (s : Ctx) → SameLogin s (ctx_value_job f s)
  unfolding ctx_value_job
  ctx_value_job-SameLogin f s = ground arith

  ctx_int_job-SameLogin : (f : Fn) (s : Ctx) → SameLogin s (ctx_int_job f s)
  unfolding ctx_int_job
  ctx_int_job-SameLogin f s = ground arith

  ctx_bool_job-SameLogin : (f : Fn) (s : Ctx) → SameLogin s (ctx_bool_job f s)
  unfolding ctx_bool_job
  ctx_bool_job-SameLogin f s = ground arith

  drop_param-SameLogin : (f : Fn) (s : Ctx) → SameLogin s (drop_param f s)
  unfolding drop_param
  drop_param-SameLogin f s = ground arith

  set_session-SameLogin : (s : Ctx) → SameLogin s (set_session env s).0
  unfolding set_session
  set_session-SameLogin s = ground arith

  ask-SameLogin : (q : Query) (s : Ctx) → SameLogin s (ctx_return (db_call env.sent q s)).0
  unfolding db_call ctx_return
  ask-SameLogin q s = ground arith

  sso_host-SameLogin : (str : Str) (s : Ctx) → SameLogin s (sso_host env str s)
  unfolding sso_host
  sso_host-SameLogin str s = ground (
    arith,
    get_config-SameLogin s (lit "SSOheader"),
    ctx_value_job-SameLogin Fn.session_pre_call_sso (get_config env s (some (lit "SSOheader"))).0,
    sso_abandon-SameLogin (record s { error = Fault.not_authorized }),
  )

  sso_user-SameLogin :
      (q : Query) (s : Ctx)
      → SameLogin s (ctx_int_job Fn.session_pre_call_sso (ctx_return (db_call env.sent q s)).0)
  sso_user-SameLogin q s =
      SameLogin-trans (ask-SameLogin q s) (ctx_int_job-SameLogin Fn.session_pre_call_sso _)

  sso_step_user-SameLogin : (s : Ctx) → SameLogin s (sso_step_user env s)
  unfolding sso_step_user
  sso_step_user-SameLogin s =
      let k = Fn.session_pre_call_sso in
      let t = record (drop_param k s) { data_ptr = s.params k } in
      ground (
        arith,
        drop_param-SameLogin k s,
        sso_abandon-SameLogin (record t { error = Fault.not_authorized }),
        sso_user-SameLogin (Query.get_user_uid (as_text (s.params k))) t,
      )

  sso_read_host-SameLogin :
      (v : Value) (s t : Ctx)
      → SameLogin s t
      → SameLogin s (elim v [ Value.text str ↦ sso_host env str t | _ ↦ emit Effect.undefined t ])
  sso_read_host-SameLogin (Value.text str) s t h = SameLogin-trans h (sso_host-SameLogin str t)
  sso_read_host-SameLogin _ s t h = record {
    same_authenticated = h.same_authenticated;
    same_uid = h.same_uid;
  }

  sso_step_host-SameLogin : (s : Ctx) → SameLogin s (sso_step_host env s)
  unfolding sso_step_host
  sso_step_host-SameLogin s =
      let k = Fn.session_pre_call_sso in
      let t = record (drop_param k s) { data_ptr = s.params k } in
      ground (
        arith,
        drop_param-SameLogin k s,
        sso_abandon-SameLogin t,
        sso_read_host-SameLogin (s.params k) t t
            (record { same_authenticated = refl; same_uid = refl }),
      )

  sso_step_login-SameLogin : (s : Ctx) → SameLogin s (sso_step_login env s)
  unfolding sso_step_login
  sso_step_login-SameLogin s =
      ground (arith, sso_abandon-SameLogin s, set_last_login-SameLogin s.session.uid s)

  sso_fresh_id-SameLogin : (s : Ctx) → SameLogin s (sso_fresh_id env s)
  unfolding sso_fresh_id
  sso_fresh_id-SameLogin s = ground arith

  sso_store-SameLogin :
      (s : Ctx)
      → SameLogin s
          (sso_step_login env (ctx_bool_job Fn.session_pre_call_sso (set_session env s).0))
  sso_store-SameLogin s = SameLogin-trans (set_session-SameLogin s) (
      SameLogin-trans (ctx_bool_job-SameLogin Fn.session_pre_call_sso _)
        (sso_step_login-SameLogin _))

  sso_admit-uid : (s : Ctx) → (sso_admit env s).session.uid ≡ s.session.uid
  unfolding sso_admit
  sso_admit-uid s = (sso_store-SameLogin _).same_uid ∙ (sso_fresh_id-SameLogin s).same_uid

  -- `case 4` admits the client exactly as the user whose id it was given.
  sso_step_session-admits :
      (s : Ctx)
      → s.session.authenticated ≡ false
      → (sso_step_session env s).session.authenticated ≡ true
      → (ltb_ℤ (as_int (s.params Fn.session_pre_call_sso)) (pos 0) ≡ false)
        × ((sso_step_session env s).session.uid ≡ as_int (s.params Fn.session_pre_call_sso))
  unfolding sso_step_session
  sso_step_session-admits s h k =
      let p = Fn.session_pre_call_sso in
      let t = drop_param p s in
      let u = record t { session = record (t.session) { uid = as_int (s.params p) } } in
      ground (
        arith,
        drop_param-SameLogin p s,
        sso_abandon-SameLogin (record u { error = Fault.not_authorized }),
        sso_admit-uid u,
      )

  sso_start-SameLogin :
      (f : Fn) (s : Ctx) (key : Str) → SameLogin s (ctx_value_job f (get_config env s (some key)).0)
  sso_start-SameLogin f s key =
      SameLogin-trans (get_config-SameLogin s key) (ctx_value_job-SameLogin f _)

-- Single sign-on makes a session authenticated only in its fourth step, while it is enabled, and
-- then for the user whose id the database has answered, which is not negative.
pub session_pre_call_sso-admits :
    (env : Env) (s : Ctx)
    → s.session.authenticated ≡ false
    → (session_pre_call_sso env s).session.authenticated ≡ true
    → (s.sso ≡ true)
      × (s.count ≡ 4)
      × (ltb_ℤ (as_int (s.params Fn.session_pre_call_sso)) (pos 0) ≡ false)
      × ((session_pre_call_sso env s).session.uid ≡ as_int (s.params Fn.session_pre_call_sso))
unfolding session_pre_call_sso
session_pre_call_sso-admits env s h k = ground (
  arith,
  sso_start-SameLogin env Fn.session_pre_call_sso s (lit "SSOtrustedhost"),
  sso_step_host-SameLogin env s,
  sso_step_user-SameLogin env s,
  sso_step_session-admits env s h,
  sso_step_login-SameLogin env s,
)

-- Where single sign-on is switched off, the check of it leaves the session as it is.
pub sso_off :
    (env : Env) (s : Ctx)
    → s.count ≡ 1
    → s.sso ≡ false
    → env.same_nocase (as_text (s.params Fn.session_pre_call_sso_check)) (some (lit "yes")) ≡ false
    → (session_pre_call_sso_check env s).session ≡ s.session
unfolding session_pre_call_sso_check session_pre_call_sso resume rewind drop_param
sso_off env s h k l = ground arith
