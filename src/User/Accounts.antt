-- ===== src/User/Accounts.antt =====
-- The account calls of functions-user.c that check little and ask the database, by id and by name.
use ezrpc.Base.{Bool, true, false, ◌||◌, some, [], if◌then◌else◌}
use ezrpc.Base.Int.{ℤ, pos, ltb_ℤ}
use ezrpc.Rpc.Faults.{Fault, is_error}
use ezrpc.Rpc.State.{Str, CStr, Ctx, Fn, Query, User}
use ezrpc.Rpc.Macros.{ctx_cb_add, ctx_return}
use ezrpc.Rpc.Database.{db_call}
use ezrpc.Rpc.Env.{Env}
use ezrpc.User.Fields.{is_long_name, user_setattr_check}

-- `db->…(db, ctx, …); CTX_RETURN;`, the whole body of many calls.
unfoldable pub ask : Env → Query → Ctx → Ctx × Bool
unfolding db_call ctx_return
ask env q s = ctx_return (db_call env.sent q s)

abbrev pub is_empty : Str → Bool
is_empty [] = true
is_empty _ = false

-- `ctx->error = AZY_ERR(INVALID_PARAMETER); CTX_RETURN;`, also where the content has no error yet.
abbrev pub refuse : Ctx → Ctx × Bool
refuse s = ctx_return (record s { error = Fault.invalid_parameter })

abbrev pub refuse_once : Ctx → Ctx × Bool
refuse_once s =
    ctx_return
      (if is_error s.content_fault then s else record s { error = Fault.invalid_parameter })

-- `_isUserUID`.
unfoldable pub is_user_uid : Env → ℤ → Ctx → Ctx × Bool
unfolding ask ctx_return
is_user_uid env uid s = if ltb_ℤ uid (pos 0) then refuse s else ask env (Query.is_user_uid uid) s

-- `_modifyUser`.
unfoldable pub modify_user : Env → ℤ → User → Ctx → Ctx × Bool
unfolding ask ctx_return
modify_user env uid u s =
    if is_empty u.username || is_long_name env u.username
    then refuse s
    else ask env (Query.modify_user uid u) s

-- `_isSuperUser`.
unfoldable pub is_super_user : Env → ℤ → Ctx → Ctx × Bool
unfolding ask ctx_cb_add ctx_return
is_super_user env uid s =
    ctx_return (ctx_cb_add Fn.user_cb_superuser (ask env (Query.get_user_type uid) s).0)

-- The end of the calls that set an attribute: the query is sent if the check returned true.
unfoldable pub send_if : Env → Query → Ctx × Bool → Ctx × Bool
send_if env q (s, true) = ctx_return (db_call env.sent q s)
send_if env q (s, false) = ctx_return s

-- `_setUserAttribute`.
unfoldable pub set_user_attribute : Env → ℤ → CStr → Str → Ctx → Ctx × Bool
set_user_attribute env uid attribute value s =
    send_if env (Query.set_user_attribute uid attribute (some value))
      (user_setattr_check env attribute value s)

-- `_logoutByUID`.
unfoldable pub logout_by_uid : Env → ℤ → Ctx → Ctx × Bool
unfolding db_call ctx_cb_add ctx_return
logout_by_uid env uid s =
    ctx_return
      (ctx_cb_add Fn.user_cb_logoutsessions (db_call env.sent (Query.get_sessions_by_uid uid) s))

-- `_isUserName`.
unfoldable pub is_user_name : Env → Str → Ctx → Ctx × Bool
unfolding ask ctx_return
is_user_name env name s =
    if is_long_name env name then refuse_once s else ask env (Query.is_user_name (some name)) s

-- `_modifyUserByName`.
unfoldable pub modify_user_by_name : Env → CStr → User → Ctx → Ctx × Bool
unfolding ask ctx_return
modify_user_by_name env name u s =
    if is_long_name env u.username || is_empty u.username
    then refuse_once s
    else ask env (Query.modify_user_by_name name u) s

-- `_removeUserByName`.
unfoldable pub remove_user_by_name : Env → Str → Ctx → Ctx × Bool
unfolding ask ctx_return
remove_user_by_name env name s =
    if is_long_name env name || is_empty name
    then refuse_once s
    else ask env (Query.remove_user_by_name (some name)) s

-- `_setUserAttributeByName`.
unfoldable pub set_user_attribute_by_name : Env → CStr → CStr → Str → Ctx → Ctx × Bool
set_user_attribute_by_name env name attribute value s =
    send_if env (Query.set_user_attribute_by_name name attribute (some value))
      (user_setattr_check env attribute value s)

-- `_logoutByName`.
unfoldable pub logout_by_name : Env → CStr → Ctx → Ctx × Bool
unfolding db_call ctx_cb_add ctx_return
logout_by_name env name s =
    ctx_return
      (ctx_cb_add Fn.user_cb_logoutsessions (db_call env.sent (Query.get_sessions_by_name name) s))

-- `_isSuperUserByName`.
unfoldable pub is_super_user_by_name : Env → CStr → Ctx → Ctx × Bool
unfolding ask ctx_cb_add ctx_return
is_super_user_by_name env name s =
    ctx_return (ctx_cb_add Fn.user_cb_superuser (ask env (Query.get_user_type_by_name name) s).0)
