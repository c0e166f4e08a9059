-- ===== src/User/Fields.antt =====
-- The checks on the fields of a user: `user_setattr_check` of functions-user.c, and the tests that
-- `_addUser` repeats.
use ezrpc.Base.{
  ℕ, ◌+◌, ◌==◌, ltb, length, Bool, true, false, not, ◌||◌, some, [], ◌∷◌, if◌then◌else◌,
}
use ezrpc.Base.Int.{ℤ, pos, ltb_ℤ}
use ezrpc.Rpc.Faults.{Fault}
use ezrpc.Rpc.State.{Str, CStr, Ctx, Fn, Query, Effect, lit}
use ezrpc.Rpc.Macros.{ctx_cb_add, ctx_return, emit}
use ezrpc.Rpc.Database.{db_call}
use ezrpc.Rpc.Env.{Env, strrchr}

abbrev pub max_username_length : ℕ
max_username_length = 255

-- `eina_strlen_bounded(name, MAX_USERNAME_LENGTH + 1) > MAX_USERNAME_LENGTH`.
abbrev pub is_long_name : Env → Str → Bool
is_long_name env name = ltb max_username_length (env.strlen_bounded name (max_username_length + 1))

-- `dot - at < 0` on what `strrchr` found: the pointer with the longer rest stands first.
abbrev pub dot_before_at : CStr → CStr → Bool
dot_before_at (some at) (some dot) = ltb (length at) (length dot)
dot_before_at _ _ = true

-- The e-mail test: an `@`, a `.`, and the last `.` not before the last `@`.
unfoldable pub bad_email : Str → Bool
bad_email value = dot_before_at (strrchr b'@' value) (strrchr b'.' value)

abbrev pub bad_type : ℤ → Bool
bad_type t = ltb_ℤ t (pos 0) || ltb_ℤ (pos 5) t

-- What the branch of an attribute decides: the value is refused, accepted, `value[1]` stands past
-- the end of the string, or the database is asked first.
pub data FieldCheck : Type 0 where
  refused accepted unreadable : FieldCheck
  ask : Query → Fn → FieldCheck

abbrev pub check_name : Env → ℕ → Str → FieldCheck
check_name env count value =
    if is_long_name env value
    then FieldCheck.refused
    else if count == 0
    then FieldCheck.ask (Query.is_user_name (some value)) Fn.user_cb_name
    else FieldCheck.accepted

abbrev pub check_active : Env → Str → FieldCheck
check_active env value =
    if not (env.same (some value) (some (lit "0"))) || not (env.same (some value) (some (lit "1")))
    then FieldCheck.refused
    else FieldCheck.accepted

abbrev pub check_type : Env → Str → FieldCheck
check_type env [] = FieldCheck.unreadable
check_type env (c ∷ d ∷ cs) = FieldCheck.refused
check_type env (c ∷ []) =
    if env.strtol_failed (c ∷ [])
    then FieldCheck.refused
    else if bad_type (env.strtol (c ∷ []))
    then FieldCheck.refused
    else FieldCheck.accepted

abbrev pub check_language : Env → ℕ → Str → FieldCheck
check_language env count value =
    if ltb count 2
    then FieldCheck.ask (Query.get_language_code (env.strtol value)) Fn.user_cb_lang
    else FieldCheck.accepted

-- The ladder of `user_setattr_check`.
unfoldable pub check_field : Env → ℕ → CStr → Str → FieldCheck
unfolding bad_email
check_field env count attribute value =
    if env.same attribute (some (lit "name"))
    then check_name env count value
    else if env.same attribute (some (lit "email"))
    then (if bad_email value then FieldCheck.refused else FieldCheck.accepted)
    else if env.same attribute (some (lit "active"))
    then check_active env value
    else if env.same attribute (some (lit "type"))
    then check_type env value
    else if env.same attribute (some (lit "language"))
    then check_language env count value
    else FieldCheck.refused

-- What `user_setattr_check` does on each decision.
unfoldable pub apply_check : Env → FieldCheck → Ctx → Ctx × Bool
apply_check env FieldCheck.refused s = ctx_return (record s { error = Fault.invalid_parameter })
apply_check env FieldCheck.accepted s = ctx_return s
apply_check env FieldCheck.unreadable s = (emit Effect.undefined s, false)
apply_check env (FieldCheck.ask q f) s = ctx_return (ctx_cb_add f (db_call env.sent q s))

-- `user_setattr_check`.
unfoldable pub user_setattr_check : Env → CStr → Str → Ctx → Ctx × Bool
user_setattr_check env attribute value s =
    apply_check env (check_field env s.count attribute value) s
