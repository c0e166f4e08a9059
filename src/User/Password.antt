-- ===== src/User/Password.antt =====
-- Setting and generating passwords (functions-user.c).
use ezrpc.Base.{ℕ, ◌+◌, ltb, Bool, ◌||◌, none, some, if◌then◌else◌}
use ezrpc.Base.Int.{ℤ}
use ezrpc.Rpc.Faults.{Fault, is_error}
use ezrpc.Rpc.State.{Str, Ctx, Fn, Value, Query}
use ezrpc.Rpc.Macros.{ctx_cb_add, set_param, ctx_return, set_fault}
use ezrpc.Rpc.Database.{db_call}
use ezrpc.Rpc.Env.{Env}
use ezrpc.Hash.Wrap.{sha1_buffer}
use ezrpc.Auth.Salt.{generate_random_salt, generate_passwd, min_passwd_len}
use ezrpc.User.Fields.{is_long_name}
use ezrpc.User.Accounts.{is_empty, refuse_once}

abbrev pub default_salt_length : ℕ
default_salt_length = 4

abbrev pub is_short_password : Env → Str → Bool
is_short_password env pass = ltb (env.strlen_bounded pass min_passwd_len) min_passwd_len

-- The common part of `_setPassword` and `_setPasswordByName`; `q hash salt` is the query.
unfoldable pub store_password : Env → (Str → Str → Query) → Str → Ctx → Ctx × Bool
unfolding set_fault db_call ctx_return
store_password env q pass s =
    if is_short_password env pass
    then ctx_return (if is_error s.content_fault then s else set_fault Fault.user_password s)
    else elim (generate_random_salt env default_salt_length) [
      | none ↦ ctx_return s
      | some salt ↦ elim (sha1_buffer salt pass) [
        | none ↦ ctx_return s
        | some hash ↦ ctx_return (db_call env.sent (q hash salt) s)
      ]
    ]

-- `_setPassword`.
unfoldable pub set_password : Env → ℤ → Str → Ctx → Ctx × Bool
unfolding store_password
set_password env uid pass s =
    store_password env (λ hash salt. Query.set_password uid hash salt) pass s

-- `_setPasswordByName`.
unfoldable pub set_password_by_name : Env → Str → Str → Ctx → Ctx × Bool
unfolding store_password ctx_return
set_password_by_name env name pass s =
    if is_long_name env name || is_empty name
    then refuse_once s
    else store_password env (λ hash salt. Query.set_password_by_name (some name) hash salt) pass s

-- The end of `_generatePassword` and `_generatePasswordByName`.
abbrev pub remember_password : Str → Ctx → Ctx × Bool
remember_password pass s =
    ctx_return
      (set_param Fn.user_cb_generatepw (Value.text pass) (ctx_cb_add Fn.user_cb_generatepw s))

-- `_generatePassword`.
unfoldable pub generate_password : Env → ℤ → Ctx → Ctx × Bool
unfolding set_password ctx_cb_add set_param ctx_return
generate_password env uid s = elim (generate_passwd env (min_passwd_len + 2)) [
  | none ↦ ctx_return (record s { error = Fault.server_failure })
  | some pass ↦ remember_password pass (set_password env uid pass s).0
]

-- `_generatePasswordByName`.
unfoldable pub generate_password_by_name : Env → Str → Ctx → Ctx × Bool
unfolding set_password_by_name ctx_cb_add set_param ctx_return
generate_password_by_name env name s = elim (generate_passwd env (min_passwd_len + 2)) [
  | none ↦ ctx_return (record s { error = Fault.server_failure })
  | some pass ↦ remember_password pass (set_password_by_name env name pass s).0
]
