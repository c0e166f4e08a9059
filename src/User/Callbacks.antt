-- ===== src/User/Callbacks.antt =====
-- The callbacks of functions-user.c.
use ezrpc.Base.{◌==◌, ◌%◌, ◌^◌, length, Bool, false, not, some, List, [], ◌∷◌, if◌then◌else◌}
use ezrpc.Base.Int.{pos, negsuc}
use ezrpc.Rpc.Faults.{Fault, is_error}
use ezrpc.Rpc.State.{Str, Ctx, Fn, Value, incr, decr, as_bool, as_int}
use ezrpc.Rpc.Macros.{
  ctx_cb_add, mark_cb, drop_param, resume, rewind, azy_ret, azy_retval, Handoff, stop, next_cb,
}
use ezrpc.Rpc.Env.{Env}
use ezrpc.Session.Check.{deauth_session}

-- The shape of `user_cb_name` and `user_cb_lang`: false lets the call go on, true is an error.
abbrev pub free_or_fault : Fault → Value → Ctx → Ctx
free_or_fault e ret s =
    if not (as_bool ret)
    then resume (rewind (record s { error = Fault.no_error; count = incr s.count }))
    else resume (record s { error = e })

-- `user_cb_name`.
unfoldable pub user_cb_name : Value → Ctx → Ctx
unfolding mark_cb resume rewind
user_cb_name ret s = free_or_fault Fault.entity_already_exists ret (mark_cb s)

-- `user_cb_lang`.
unfoldable pub user_cb_lang : Value → Ctx → Ctx
unfolding mark_cb resume rewind
user_cb_lang ret s = free_or_fault Fault.invalid_parameter ret (mark_cb s)

-- `user_cb_logout_deauth`. `NEXT_CB()` passes nothing on.
unfoldable pub user_cb_logout_deauth : Value → Ctx → Ctx × Handoff
unfolding mark_cb azy_retval
user_cb_logout_deauth ret s =
    let s = mark_cb s in
    let t = record s { count = decr s.count } in
    if not (t.count == 0) then (t, stop) else (
      elim t.cbs [ [] ↦ azy_retval (Value.bool (not (is_error t.content_fault))) t | _ ↦ t ],
      next_cb Value.null,
    )

-- The loop of `user_cb_logoutsessions` over the session ids.
unfoldable pub deauth_all : Env → List Str → Ctx → Ctx
unfolding deauth_session ctx_cb_add
deauth_all env [] s = s
deauth_all env (id ∷ ids) s =
    deauth_all env ids (ctx_cb_add Fn.user_cb_logout_deauth (deauth_session env (some id) s).0)

abbrev pub as_texts : Value → List Str
as_texts (Value.texts ids) = ids
as_texts _ = []

-- `user_cb_logoutsessions`. An empty list is NULL.
unfoldable pub user_cb_logoutsessions : Env → Value → Ctx → Ctx
unfolding mark_cb resume deauth_all
user_cb_logoutsessions env ret s =
    let ids = as_texts ret in
    let s = mark_cb s in
    let t : Ctx = elim ids [ [] ↦ resume s | _ ↦ s ] in
    deauth_all env ids (record t { count = length ids % 2 ^ 32 })

abbrev pub is_super : Value → Bool
is_super v = elim (as_int v) [ pos n ↦ n == 0 | negsuc n ↦ false ]

-- `user_cb_superuser`.
unfoldable pub user_cb_superuser : Value → Ctx → Ctx × Handoff
unfolding mark_cb azy_ret
user_cb_superuser ret s =
    let s = mark_cb s in
    (elim s.cbs [ [] ↦ azy_ret (is_super ret) s | _ ↦ s ], next_cb (Value.bool (is_super ret)))

-- `user_cb_generatepw`.
unfoldable pub user_cb_generatepw : Value → Ctx → Ctx × Handoff
unfolding mark_cb drop_param azy_retval
user_cb_generatepw ret s =
    let s = mark_cb s in
    let p = s.params Fn.user_cb_generatepw in
    let t = drop_param Fn.user_cb_generatepw s in
    (elim t.cbs [ [] ↦ azy_retval p t | _ ↦ t ], next_cb p)
