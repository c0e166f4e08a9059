-- ===== src/Dispatch/Ends.antt =====
-- The chain always ends: each callback that hands on has taken itself off the chain.
use ezrpc.Base.{
  ℕ, zero, suc, ◌+◌, ◌<◌, ◌≡◌, refl, ap, arith, Bool, true, false, List, [], ◌∷◌, length,
  if◌then◌else◌,
}
use ezrpc.Rpc.State.{Ctx, Fn, Value}
use ezrpc.Rpc.Macros.{
  Handoff, next_cb_empty, tail, mark_cb, set_param, drop_param, azy_retval, azy_ret,
}
use ezrpc.Rpc.Env.{Env}
use ezrpc.Session.Check.{session_checkuuid_cb, session_get_cb, session_checker}
use ezrpc.Session.ClientIp.{session_get_client_ip_cb}
use ezrpc.User.Callbacks.{user_cb_logout_deauth, user_cb_superuser, user_cb_generatepw}
use ezrpc.Dispatch.Chain.{call_fn, go_next, go_on, run_chain}

-- A callback that hands a value on has left the chain by itself, and nothing else.
abbrev pub HandsOn : Ctx → Ctx × Handoff → Type 0
HandsOn s r = (w : Value) → r.1 ≡ Handoff.next_cb w → r.0.cbs ≡ tail s.cbs

session_get_client_ip_cb-HandsOn :
    (env : Env) (v : Value) (s : Ctx) → HandsOn s (session_get_client_ip_cb env v s)
unfolding session_get_client_ip_cb mark_cb azy_retval azy_ret drop_param set_param session_checker
session_get_client_ip_cb-HandsOn env v s w h = ground arith

session_checkuuid_cb-HandsOn :
    (env : Env) (v : Value) (s : Ctx) → HandsOn s (session_checkuuid_cb env v s)
unfolding session_checkuuid_cb mark_cb azy_retval azy_ret drop_param set_param session_checker
session_checkuuid_cb-HandsOn env v s w h = ground arith

session_get_cb-HandsOn : (v : Value) (s : Ctx) → HandsOn s (session_get_cb v s)
unfolding session_get_cb mark_cb azy_retval azy_ret drop_param set_param session_checker
session_get_cb-HandsOn v s w h = ground arith

user_cb_logout_deauth-HandsOn : (v : Value) (s : Ctx) → HandsOn s (user_cb_logout_deauth v s)
unfolding user_cb_logout_deauth mark_cb azy_retval azy_ret drop_param set_param session_checker
user_cb_logout_deauth-HandsOn v s w h = ground arith

user_cb_superuser-HandsOn : (v : Value) (s : Ctx) → HandsOn s (user_cb_superuser v s)
unfolding user_cb_superuser mark_cb azy_retval azy_ret drop_param set_param session_checker
user_cb_superuser-HandsOn v s w h = ground arith

user_cb_generatepw-HandsOn : (v : Value) (s : Ctx) → HandsOn s (user_cb_generatepw v s)
unfolding user_cb_generatepw mark_cb azy_retval azy_ret drop_param set_param session_checker
user_cb_generatepw-HandsOn v s w h = ground arith

stopped : {w : Value} (xs ys : List Fn) → Handoff.stop ≡ Handoff.next_cb w → xs ≡ ys
stopped xs ys h = ground arith

call_fn-HandsOn : (env : Env) (f : Fn) (v : Value) (s : Ctx) → HandsOn s (call_fn env f v s)
unfolding call_fn
call_fn-HandsOn env Fn.no_fn v s w h = stopped _ _ h
call_fn-HandsOn env Fn.cb_bool_job v s w h = stopped _ _ h
call_fn-HandsOn env Fn.cb_int_job v s w h = stopped _ _ h
call_fn-HandsOn env Fn.cb_pointer_job v s w h = stopped _ _ h
call_fn-HandsOn env Fn.cb_int_rewind v s w h = stopped _ _ h
call_fn-HandsOn env Fn.cb_bool_rewind v s w h = stopped _ _ h
call_fn-HandsOn env Fn.cb_auth_rewind v s w h = stopped _ _ h
call_fn-HandsOn env Fn.cb_pointer_return v s w h = stopped _ _ h
call_fn-HandsOn env Fn.cb_int_return v s w h = stopped _ _ h
call_fn-HandsOn env Fn.cb_job_target_node_addr v s w h = stopped _ _ h
call_fn-HandsOn env Fn.cb_job_target_host v s w h = stopped _ _ h
call_fn-HandsOn env Fn.cb_job_module_name v s w h = stopped _ _ h
call_fn-HandsOn env Fn.session_cb_error_clear v s w h = stopped _ _ h
call_fn-HandsOn env Fn.session_get_client_ip_cb v s w h =
    session_get_client_ip_cb-HandsOn env v s w h
call_fn-HandsOn env Fn.session_checkuuid_cb v s w h = session_checkuuid_cb-HandsOn env v s w h
call_fn-HandsOn env Fn.session_checkuuid_get_cb v s w h = stopped _ _ h
call_fn-HandsOn env Fn.session_check_cb v s w h = stopped _ _ h
call_fn-HandsOn env Fn.session_get_cb v s w h = session_get_cb-HandsOn v s w h
call_fn-HandsOn env Fn.session_pre_call_cb_super v s w h = stopped _ _ h
call_fn-HandsOn env Fn.session_pre_call_cb_get_session v s w h = stopped _ _ h
call_fn-HandsOn env Fn.session_pre_call_cb_ip v s w h = stopped _ _ h
call_fn-HandsOn env Fn.session_pre_call_sso v s w h = stopped _ _ h
call_fn-HandsOn env Fn.session_pre_call_sso_check v s w h = stopped _ _ h
call_fn-HandsOn env Fn.auth v s w h = stopped _ _ h
call_fn-HandsOn env Fn.auth_db v s w h = stopped _ _ h
call_fn-HandsOn env Fn.login_cb_uid v s w h = stopped _ _ h
call_fn-HandsOn env Fn.user_cb_name v s w h = stopped _ _ h
call_fn-HandsOn env Fn.user_cb_lang v s w h = stopped _ _ h
call_fn-HandsOn env Fn.user_cb_logout_deauth v s w h = user_cb_logout_deauth-HandsOn v s w h
call_fn-HandsOn env Fn.user_cb_logoutsessions v s w h = stopped _ _ h
call_fn-HandsOn env Fn.user_cb_superuser v s w h = user_cb_superuser-HandsOn v s w h
call_fn-HandsOn env Fn.user_cb_generatepw v s w h = user_cb_generatepw-HandsOn v s w h
call_fn-HandsOn env Fn.group_cb_modify v s w h = stopped _ _ h
call_fn-HandsOn env Fn.group_cb_add v s w h = stopped _ _ h
call_fn-HandsOn env Fn.jobs_cb_address v s w h = stopped _ _ h
call_fn-HandsOn env Fn.jobs_cb_add v s w h = stopped _ _ h
call_fn-HandsOn env Fn.jobs_cb_get v s w h = stopped _ _ h
call_fn-HandsOn env Fn.jobs_cb_resource v s w h = stopped _ _ h
call_fn-HandsOn env Fn.jobs_fill v s w h = stopped _ _ h
call_fn-HandsOn env Fn.jobs_cancel v s w h = stopped _ _ h
call_fn-HandsOn env Fn.ptr_job_cb v s w h = stopped _ _ h
call_fn-HandsOn env Fn.ptr_int_cb v s w h = stopped _ _ h
call_fn-HandsOn env Fn.jobs_cb_connect v s w h = stopped _ _ h
call_fn-HandsOn env Fn.jobs_cb_disconnect v s w h = stopped _ _ h
call_fn-HandsOn env Fn.connect_text_console v s w h = stopped _ _ h
call_fn-HandsOn env Fn.connect_graphical_console v s w h = stopped _ _ h
call_fn-HandsOn env Fn.acquire_console_lock v s w h = stopped _ _ h
call_fn-HandsOn env Fn.get_console_lock_user v s w h = stopped _ _ h
call_fn-HandsOn env Fn.get_supported_consoles v s w h = stopped _ _ h
call_fn-HandsOn env Fn.update_vms v s w h = stopped _ _ h
call_fn-HandsOn env Fn.vm_cb_update v s w h = stopped _ _ h

-- A run of a chain, step by step and without fuel: a callback that hands nothing on ends it, and so
-- does one that hands on for a dead client or with an empty chain; otherwise the head of the chain
-- is called with the value.
pub data Runs (env : Env) : Fn → Value → Ctx → Ctx → Type 0 where
  stops :
      {f : Fn} {v : Value} {s t : Ctx} → call_fn env f v s ≡ (t, Handoff.stop) → Runs env f v s t
  dies :
      {f : Fn} {v w : Value} {s t : Ctx}
      → call_fn env f v s ≡ (t, Handoff.next_cb w)
      → t.dead ≡ true
      → Runs env f v s t
  last :
      {f : Fn} {v w : Value} {s t : Ctx}
      → call_fn env f v s ≡ (t, Handoff.next_cb w)
      → t.dead ≡ false
      → t.cbs ≡ []
      → Runs env f v s (next_cb_empty t)
  next :
      {f g : Fn} {fs : List Fn} {v w : Value} {s t u : Ctx}
      → call_fn env f v s ≡ (t, Handoff.next_cb w)
      → t.dead ≡ false
      → t.cbs ≡ g ∷ fs
      → Runs env g w t u
      → Runs env f v s u

module _ (env : Env) (f : Fn) (v : Value) (s : Ctx) (run : Fn → Value → Ctx → Ctx) where
  go_next-Runs :
      (w : Value) (gs : List Fn) (t : Ctx)
      → call_fn env f v s ≡ (t, Handoff.next_cb w)
      → t.dead ≡ false
      → t.cbs ≡ gs
      → (0 < length gs → (g : Fn) → Runs env g w t (run g w t))
      → Runs env f v s (go_next run w gs t)
  unfolding go_next
  go_next-Runs w [] t e d c h = Runs.last e d c
  go_next-Runs w (g ∷ gs) t e d c h = Runs.next e d c (h (omega arith) g)

  dead_or_next :
      (w : Value) (dead : Bool) (t : Ctx)
      → call_fn env f v s ≡ (t, Handoff.next_cb w)
      → t.dead ≡ dead
      → (0 < length t.cbs → (g : Fn) → Runs env g w t (run g w t))
      → Runs env f v s (if dead then t else go_next run w t.cbs t)
  dead_or_next w true t e d h = Runs.dies e d
  dead_or_next w false t e d h = go_next-Runs w t.cbs t e d refl h

  go_on-Runs :
      (r : Ctx × Handoff)
      → call_fn env f v s ≡ r
      → ((g : Fn) (w : Value)
          → r.1 ≡ Handoff.next_cb w
          → 0 < length r.0.cbs
          → Runs env g w r.0 (run g w r.0))
      → Runs env f v s (go_on run r)
  unfolding go_on
  go_on-Runs (t, Handoff.stop) e h = Runs.stops e
  go_on-Runs (t, Handoff.next_cb w) e h = dead_or_next w t.dead t e refl (λ l g. h g w refl l)

length-tail : (fs : List Fn) → 0 < length (tail fs) → length (tail fs) + 1 ≡ length fs
length-tail [] h = ground arith
length-tail (f ∷ fs) h = omega arith

run_chain-Runs :
    (n : ℕ) (env : Env) (f : Fn) (v : Value) (s : Ctx)
    → length s.cbs < n
    → Runs env f v s (run_chain n env f v s)
unfolding run_chain
run_chain-Runs zero env f v s h = ground arith
run_chain-Runs (suc n) env f v s h =
    go_on-Runs env f v s (run_chain n env) (call_fn env f v s) refl (λ g w e l.
      let shorter = ap length (call_fn-HandsOn env f v s w e) in
      run_chain-Runs n env g w (call_fn env f v s).0 (omega (arith, shorter, length-tail s.cbs)))

-- Every chain of callbacks ends by itself: from any callback, value and state, its calls one after
-- the other come to an end, and with one unit of fuel for each function on the chain and one more
-- the state at the end is the result. A callback of a component that is not modelled counts as one
-- that hands nothing on.
pub run_chain-ends :
    (env : Env) (f : Fn) (v : Value) (s : Ctx)
    → Runs env f v s (run_chain (length s.cbs + 1) env f v s)
run_chain-ends env f v s = run_chain-Runs _ env f v s (omega arith)
