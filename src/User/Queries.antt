-- ===== src/User/Queries.antt =====
-- The calls of functions-user.c that pass one query on.
use ezrpc.Base.{Bool}
use ezrpc.Base.Int.{ℤ}
use ezrpc.Rpc.State.{CStr, Ctx, Query}
use ezrpc.Rpc.Env.{Env}
use ezrpc.User.Accounts.{ask}

-- `_isActive`.
unfoldable pub is_active : Env → (uid : ℤ) → Ctx → Ctx × Bool
is_active env uid = ask env (Query.is_active uid)

-- `_getUserType`.
unfoldable pub get_user_type : Env → (uid : ℤ) → Ctx → Ctx × Bool
get_user_type env uid = ask env (Query.get_user_type uid)

-- `_removeUser`.
unfoldable pub remove_user : Env → (uid : ℤ) → Ctx → Ctx × Bool
remove_user env uid = ask env (Query.remove_user uid)

-- `_isActiveByName`.
unfoldable pub is_active_by_name : Env → (name : CStr) → Ctx → Ctx × Bool
is_active_by_name env name = ask env (Query.is_active_by_name name)

-- `_getUserTypeByName`.
unfoldable pub get_user_type_by_name : Env → (name : CStr) → Ctx → Ctx × Bool
get_user_type_by_name env name = ask env (Query.get_user_type_by_name name)

-- `_getLoggedInUsers`.
unfoldable pub get_logged_in_users : Env → Ctx → Ctx × Bool
get_logged_in_users env = ask env Query.get_logged_in_users

-- `_getLoggedInUsernames`.
unfoldable pub get_logged_in_usernames : Env → Ctx → Ctx × Bool
get_logged_in_usernames env = ask env Query.get_logged_in_usernames

-- `_getUserCount`.
unfoldable pub get_user_count : Env → Ctx → Ctx × Bool
get_user_count env = ask env Query.get_user_count

-- `_getUser`.
unfoldable pub get_user : Env → (uid : ℤ) → Ctx → Ctx × Bool
get_user env uid = ask env (Query.get_user uid)

-- `_getUserByName`.
unfoldable pub get_user_by_name : Env → (name : CStr) → Ctx → Ctx × Bool
get_user_by_name env name = ask env (Query.get_user_by_name name)

-- `_getActiveUserUID`.
unfoldable pub get_active_user_uid : Env → (name : CStr) → Ctx → Ctx × Bool
get_active_user_uid env name = ask env (Query.get_active_user_uid name)

-- `_getUserUID`.
unfoldable pub get_user_uid : Env → (name : CStr) → Ctx → Ctx × Bool
get_user_uid env name = ask env (Query.get_user_uid name)

-- `_getLanguageCode`.
unfoldable pub get_language_code : Env → (id : ℤ) → Ctx → Ctx × Bool
get_language_code env id = ask env (Query.get_language_code id)
