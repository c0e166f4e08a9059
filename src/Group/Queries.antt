-- ===== src/Group/Queries.antt =====
-- The calls of functions-group.c that pass one query on.
use ezrpc.Base.{Bool, true, false, none, some, [], ◌∷◌, if◌then◌else◌}
use ezrpc.Base.Int.{ℤ}
use ezrpc.Rpc.State.{CStr, Ctx, Query}
use ezrpc.Rpc.Env.{Env}
use ezrpc.User.Accounts.{ask}

-- `!(sortfield && sortfield[0])`.
abbrev pub is_empty_cstr : CStr → Bool
is_empty_cstr none = true
is_empty_cstr (some []) = true
is_empty_cstr (some (c ∷ cs)) = false

-- `_removeUserGroup`.
unfoldable pub remove_user_group : Env → (gid : ℤ) → Ctx → Ctx × Bool
remove_user_group env gid = ask env (Query.remove_user_group gid)

-- `_removeFromUserGroup`.
unfoldable pub remove_from_user_group : Env → (uid : ℤ) (gid : ℤ) → Ctx → Ctx × Bool
remove_from_user_group env uid gid = ask env (Query.remove_from_user_group uid gid)

-- `_isUserGroupMember`.
unfoldable pub is_user_group_member : Env → (uid : ℤ) (gid : ℤ) → Ctx → Ctx × Bool
is_user_group_member env uid gid = ask env (Query.is_user_group_member uid gid)

-- `_getUserGroup`.
unfoldable pub get_user_group : Env → (gid : ℤ) → Ctx → Ctx × Bool
get_user_group env gid = ask env (Query.get_user_group gid)

-- `_getUserGroupMembers`.
unfoldable pub get_user_group_members : Env → (gid : ℤ) → Ctx → Ctx × Bool
get_user_group_members env gid = ask env (Query.get_user_group_members gid)

-- `_isUserGroupByName`.
unfoldable pub is_user_group_by_name : Env → (name : CStr) → Ctx → Ctx × Bool
is_user_group_by_name env name = ask env (Query.is_user_group_by_name name)

-- `_removeUserGroupByName`.
unfoldable pub remove_user_group_by_name : Env → (groupname : CStr) → Ctx → Ctx × Bool
remove_user_group_by_name env groupname = ask env (Query.remove_user_group_by_name groupname)

-- `_getUserGroupByName`.
unfoldable pub get_user_group_by_name : Env → (groupname : CStr) → Ctx → Ctx × Bool
get_user_group_by_name env groupname = ask env (Query.get_user_group_by_name groupname)

-- `_getUserGroupMembersByName`.
unfoldable pub get_user_group_members_by_name : Env → (groupname : CStr) → Ctx → Ctx × Bool
get_user_group_members_by_name env groupname =
    ask env (Query.get_user_group_members_by_name groupname)

-- `_isUserGroupMemberByName`.
unfoldable pub is_user_group_member_by_name : Env → (uid : ℤ) (groupname : CStr) → Ctx → Ctx × Bool
is_user_group_member_by_name env uid groupname =
    ask env (Query.is_user_group_member_by_name uid groupname)

-- `_addToUserGroupByName`.
unfoldable pub add_to_user_group_by_name : Env → (uid : ℤ) (groupname : CStr) → Ctx → Ctx × Bool
add_to_user_group_by_name env uid groupname =
    ask env (Query.add_to_user_group_by_name uid groupname)

-- `_removeFromUserGroupByName`.
unfoldable pub remove_from_user_group_by_name :
    Env → (uid : ℤ) (groupname : CStr) → Ctx → Ctx × Bool
remove_from_user_group_by_name env uid groupname =
    ask env (Query.remove_from_user_group_by_name uid groupname)

-- `_isUserGroupMemberByNameAndUsername`.
unfoldable pub is_user_group_member_by_name_and_username :
    Env → (username : CStr) (groupname : CStr) → Ctx → Ctx × Bool
is_user_group_member_by_name_and_username env username groupname =
    ask env (Query.is_user_group_member_by_name_and_username username groupname)

-- `_addToUserGroupByNameAndUsername`.
unfoldable pub add_to_user_group_by_name_and_username :
    Env → (username : CStr) (groupname : CStr) → Ctx → Ctx × Bool
add_to_user_group_by_name_and_username env username groupname =
    ask env (Query.add_to_user_group_by_name_and_username username groupname)

-- `_removeFromUserGroupByNameAndUsername`.
unfoldable pub remove_from_user_group_by_name_and_username :
    Env → (username : CStr) (groupname : CStr) → Ctx → Ctx × Bool
remove_from_user_group_by_name_and_username env username groupname =
    ask env (Query.remove_from_user_group_by_name_and_username username groupname)

-- `_getAllUserGroups`.
unfoldable pub get_all_user_groups :
    Env → (sortfield : CStr) (desc : Bool) (offset : ℤ) (recordcount : ℤ) → Ctx → Ctx × Bool
get_all_user_groups env sortfield desc offset recordcount =
    if is_empty_cstr sortfield
    then ask env (Query.get_all_user_groups offset recordcount)
    else ask env (Query.get_all_user_groups_sorted sortfield desc offset recordcount)

-- `_getAllUserGroupNames`.
unfoldable pub get_all_user_group_names : Env → (offset : ℤ) (recordcount : ℤ) → Ctx → Ctx × Bool
get_all_user_group_names env offset recordcount =
    ask env (Query.get_all_user_group_names offset recordcount)

-- `_getAllUserGroupsFull`.
unfoldable pub get_all_user_groups_full :
    Env → (sortfield : CStr) (desc : Bool) (offset : ℤ) (recordcount : ℤ) → Ctx → Ctx × Bool
get_all_user_groups_full env sortfield desc offset recordcount =
    if is_empty_cstr sortfield
    then ask env (Query.get_all_user_groups_full offset recordcount)
    else ask env (Query.get_all_user_groups_full_sorted sortfield desc offset recordcount)

-- `_getUserGroupsByUID`.
unfoldable pub get_user_groups_by_uid : Env → (uid : ℤ) → Ctx → Ctx × Bool
get_user_groups_by_uid env uid = ask env (Query.get_user_groups_by_uid uid)

-- `_getUserGroupsByName`.
unfoldable pub get_user_groups_by_name : Env → (username : CStr) → Ctx → Ctx × Bool
get_user_groups_by_name env username = ask env (Query.get_user_groups_by_name username)

-- `_getUserGroupNamesByUID`.
unfoldable pub get_user_group_names_by_uid : Env → (uid : ℤ) → Ctx → Ctx × Bool
get_user_group_names_by_uid env uid = ask env (Query.get_user_group_names_by_uid uid)

-- `_getUserGroupNamesByName`.
unfoldable pub get_user_group_names_by_name : Env → (username : CStr) → Ctx → Ctx × Bool
get_user_group_names_by_name env username = ask env (Query.get_user_group_names_by_name username)

-- `_getUserGroupName`.
unfoldable pub get_user_group_name : Env → (gid : ℤ) → Ctx → Ctx × Bool
get_user_group_name env gid = ask env (Query.get_user_group_name gid)

-- `_getUserGroupId`.
unfoldable pub get_user_group_id : Env → (groupname : CStr) → Ctx → Ctx × Bool
get_user_group_id env groupname = ask env (Query.get_user_group_id groupname)

-- `_getUserGroupCount`.
unfoldable pub get_user_group_count : Env → Ctx → Ctx × Bool
get_user_group_count env = ask env Query.get_user_group_count
