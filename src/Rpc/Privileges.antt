-- ===== src/Rpc/Privileges.antt =====
-- The privilege macros of include/servlets.h, and the calls of functions-vm.c and functions-node.c
-- that they make. Each method of the generated servlet stands in one of these macros.
use ezrpc.Base.{ℕ, ◌==◌, Bool, true, false, not, ◌&&◌, ◌||◌, if◌then◌else◌}
use ezrpc.Base.Int.{ℤ, pos, negsuc}
use ezrpc.Rpc.Faults.{Fault, is_error}
use ezrpc.Rpc.State.{CStr, Ctx, Fn, Query, Effect}
use ezrpc.Rpc.Macros.{ctx_cb_add, set_fault, ctx_return, emit}
use ezrpc.Rpc.Database.{db_call}
use ezrpc.Rpc.Env.{Env}

abbrev pub is_user_type : ℕ → ℤ → Bool
is_user_type k (pos n) = n == k
is_user_type k (negsuc n) = false

-- Every macro refuses with the same fault, to leak nothing.
unfoldable pub deny : Ctx → Ctx
unfolding set_fault
deny s = emit (Effect.resume false) (set_fault Fault.not_authorized s)

-- `CHECK_SUPER_PRIV` before the rest of the method. USER_TYPE_SUPER_USER is 0.
unfoldable pub check_super_priv : (Ctx → Ctx) → Ctx → Ctx
unfolding deny
check_super_priv func s = if not (is_user_type 0 s.user_type) then deny s else func s

-- `CHECK_ZPOLL_PRIV`. USER_TYPE_NODE is 5.
unfoldable pub check_zpoll_priv : (Ctx → Ctx) → Ctx → Ctx
unfolding deny
check_zpoll_priv func s =
    if not (is_user_type 0 s.user_type) && not (is_user_type 5 s.user_type) then deny s else func s

-- The last `if` of `CHECK_EXIST_AND_PRIVS`.
abbrev pub run_if_auth : (Ctx → Ctx) → Ctx → Ctx
run_if_auth func s = if s.checked || s.auth then (if not s.auth then deny s else func s) else s

-- `CHECK_EXIST_AND_PRIVS(TYPE, FUNC)`: `is_type` and `is_owner` are `_isTYPE` and `_isTYPEowner`.
unfoldable pub check_exist_and_privs : (Ctx → Ctx) → (Ctx → Ctx) → (Ctx → Ctx) → Ctx → Ctx
check_exist_and_privs is_type is_owner func s =
    if not s.checked && not s.auth
    then (if is_error s.error
        then deny s
        else if is_user_type 0 s.user_type
        then run_if_auth func (record s { auth = true; checked = true })
        else if s.count == 0
        then ctx_cb_add Fn.cb_bool_rewind (is_type s)
        else record (ctx_cb_add Fn.cb_auth_rewind (is_owner s)) { checked = true })
    else run_if_auth func s

-- `_isVM`.
unfoldable pub is_vm : Env → CStr → Ctx → Ctx
is_vm env uuid s =
    (ctx_return (
      if not (env.validate_uuid uuid)
      then record s { error = Fault.invalid_parameter }
      else db_call env.sent (Query.is_vm uuid) s)).0

-- `_isVMowner`.
unfoldable pub is_vm_owner : Env → CStr → ℤ → Ctx → Ctx
is_vm_owner env uuid uid s = (ctx_return (db_call env.sent (Query.is_vm_owner uuid uid) s)).0

-- `_isNODE`.
unfoldable pub is_node : Env → CStr → Ctx → Ctx
is_node env uuid s =
    (ctx_return (
      if not (env.validate_uuid uuid)
      then record s { error = Fault.invalid_parameter }
      else db_call env.sent (Query.is_node uuid) s)).0

-- `_isNODEowner`.
unfoldable pub is_node_owner : Env → CStr → ℤ → Ctx → Ctx
is_node_owner env uuid uid s =
    (ctx_return (
      db_call env.sent
        (if is_user_type 0 s.user_type then Query.is_node uuid else Query.is_node_owner uuid uid)
        s)).0

-- `CHECK_EXIST_AND_PRIVS_VM(FUNC)` and `CHECK_EXIST_AND_PRIVS_NODE(FUNC)`.
unfoldable pub check_vm : Env → CStr → (Ctx → Ctx) → Ctx → Ctx
check_vm env uuid func s =
    check_exist_and_privs (is_vm env uuid) (is_vm_owner env uuid s.session.uid) func s

unfoldable pub check_node : Env → CStr → (Ctx → Ctx) → Ctx → Ctx
check_node env uuid func s =
    check_exist_and_privs (is_node env uuid) (is_node_owner env uuid s.session.uid) func s
