-- ===== src/Group/Calls.antt =====
-- The calls of functions-group.c that change groups, and their callbacks.
use ezrpc.Base.{◌==◌, Bool, false, not, ◌&&◌, some, if◌then◌else◌}
use ezrpc.Base.Int.{ℤ, pos, negsuc, ltb_ℤ}
use ezrpc.Rpc.Faults.{Fault, fault_eq, is_error}
use ezrpc.Rpc.State.{CStr, Ctx, Fn, Value, Query, Effect, UserGroup, as_bool, as_int}
use ezrpc.Rpc.Macros.{ctx_cb_add, mark_cb, set_param, drop_param, ctx_return, resume, emit}
use ezrpc.Rpc.Database.{db_call}
use ezrpc.Rpc.Env.{Env}
use ezrpc.User.Accounts.{ask, refuse, is_user_uid}

abbrev pub is_minus_one : ℤ → Bool
is_minus_one (negsuc n) = n == 0
is_minus_one (pos n) = false

-- `if (!ctx->error) ctx->error = AZY_ERR(ENTITY_ALREADY_EXISTS); RESUME;`.
abbrev pub taken : Ctx → Ctx
taken s = resume (if is_error s.error then s else record s { error = Fault.entity_already_exists })

-- `group_cb_modify`. A parameter that is no group is a NULL whose `gid` is read.
unfoldable pub group_cb_modify : Env → Value → Ctx → Ctx
unfolding mark_cb drop_param db_call resume
group_cb_modify env ret s =
    let s = mark_cb s in
    let t = drop_param Fn.group_cb_modify s in
    if is_minus_one (as_int ret) && is_error t.error
    then elim (s.params Fn.group_cb_modify) [
      | Value.group ug ↦
          db_call env.sent (Query.modify_user_group ug.gid ug) (record t { error = Fault.no_error })
      | _ ↦ emit Effect.undefined t
    ]
    else taken t

-- `group_cb_add`.
unfoldable pub group_cb_add : Env → Value → Ctx → Ctx
unfolding mark_cb drop_param db_call resume
group_cb_add env ret s =
    let s = mark_cb s in
    let t = drop_param Fn.group_cb_add s in
    if not (as_bool ret)
    then elim (s.params Fn.group_cb_add) [
      | Value.group ug ↦
          db_call env.sent (Query.add_user_group ug) (record t { error = Fault.no_error })
      | _ ↦ emit Effect.undefined t
    ]
    else taken t

-- `_isUserGroup`.
unfoldable pub is_user_group : Env → ℤ → Ctx → Ctx × Bool
unfolding ask ctx_return
is_user_group env gid s =
    if ltb_ℤ gid (pos 0) then refuse s else ask env (Query.is_user_group gid) s

-- `_modifyUserGroup`.
unfoldable pub modify_user_group : Env → ℤ → UserGroup → Ctx → Ctx × Bool
unfolding ask ctx_cb_add set_param ctx_return
modify_user_group env gid ug s = ctx_return (
    set_param Fn.group_cb_modify (Value.group (record ug { gid = gid }))
      (ctx_cb_add Fn.group_cb_modify (ask env (Query.get_user_group_id (some ug.name)) s).0))

-- `_addToUserGroup`.
unfoldable pub add_to_user_group : Env → ℤ → ℤ → Ctx → Ctx × Bool
unfolding is_user_uid ctx_cb_add db_call ctx_return
add_to_user_group env uid gid s = ctx_return (
    if s.count == 0
    then ctx_cb_add Fn.cb_bool_rewind (is_user_uid env uid s).0
    else if is_error s.error
    then s
    else db_call env.sent (Query.add_to_user_group uid gid) s)

-- The shape of the three calls that give a group a new name: ask for the name, then send `q` if the
-- answer was that there is no such group.
unfoldable pub if_name_free : Env → CStr → Query → Ctx → Ctx × Bool
unfolding ask ctx_cb_add db_call ctx_return
if_name_free env new_name q s = ctx_return (
    if s.count == 0
    then ctx_cb_add Fn.cb_bool_rewind (ask env (Query.is_user_group_by_name new_name) s).0
    else if is_error s.error
    then (if fault_eq s.error Fault.unknown_resource
        then db_call env.sent q (record s { error = Fault.no_error })
        else s)
    else record s { error = Fault.entity_already_exists })

-- `_renameUserGroup`.
unfoldable pub rename_user_group : Env → ℤ → CStr → Ctx → Ctx × Bool
unfolding if_name_free
rename_user_group env gid new_name =
    if_name_free env new_name (Query.rename_user_group gid new_name)

-- `_modifyUserGroupByName`.
unfoldable pub modify_user_group_by_name : Env → CStr → UserGroup → Ctx → Ctx × Bool
unfolding if_name_free
modify_user_group_by_name env groupname ug =
    if_name_free env (some ug.name) (Query.modify_user_group_by_name groupname ug)

-- `_renameUserGroupByName`.
unfoldable pub rename_user_group_by_name : Env → CStr → CStr → Ctx → Ctx × Bool
unfolding if_name_free
rename_user_group_by_name env groupname new_name =
    if_name_free env new_name (Query.rename_user_group_by_name groupname new_name)

-- `_addUserGroup`.
unfoldable pub add_user_group : Env → UserGroup → Ctx → Ctx × Bool
unfolding ask ctx_cb_add set_param ctx_return
add_user_group env ug s = ctx_return (
    set_param Fn.group_cb_add (Value.group ug)
      (ctx_cb_add Fn.group_cb_add (ask env (Query.is_user_group_by_name (some ug.name)) s).0))
