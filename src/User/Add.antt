-- ===== src/User/Add.antt =====
-- `_addUser` of functions-user.c: the fields are checked, then the name, then the language, each by
-- a rewind, and the user is stored.
use ezrpc.Base.{◌==◌, ltb, Bool, true, ◌||◌, some, if◌then◌else◌}
use ezrpc.Base.Int.{ℤ, pos, negsuc}
use ezrpc.Rpc.State.{Ctx, Fn, Query, User}
use ezrpc.Rpc.Macros.{ctx_cb_add, ctx_return}
use ezrpc.Rpc.Database.{db_call}
use ezrpc.Rpc.Env.{Env}
use ezrpc.User.Fields.{is_long_name, bad_email, bad_type}
use ezrpc.User.Accounts.{is_empty, refuse}

abbrev pub bad_active : ℤ → Bool
bad_active (pos n) = ltb 1 n
bad_active (negsuc n) = true

-- The tests of `_addUser` that go to its `error:` label.
unfoldable pub bad_user : Env → User → Bool
unfolding bad_email
bad_user env u =
    is_empty u.username
    || is_long_name env u.username
    || bad_email u.email
    || bad_active u.active
    || bad_type u.type

-- `_addUser`.
unfoldable pub add_user : Env → User → Ctx → Ctx × Bool
unfolding bad_user ctx_return ctx_cb_add db_call
add_user env u s =
    if bad_user env u
    then refuse s
    else if s.count == 0
    then ctx_return
        (ctx_cb_add Fn.user_cb_name (db_call env.sent (Query.is_user_name (some u.username)) s))
    else if ltb s.count 2
    then ctx_return (
        ctx_cb_add Fn.user_cb_lang
          (db_call env.sent (Query.get_language_code (env.strtol u.language)) s))
    else ctx_return (db_call env.sent (Query.add_user u) s)
