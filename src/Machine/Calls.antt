-- ===== src/Machine/Calls.antt =====
-- `_updateVMs` and calls about one machine (functions-vm.c).
use ezrpc.Base.{◌+◌, ◌%◌, ◌^◌, ◌==◌, Bool, true, false, List, [], ◌∷◌, length, if◌then◌else◌}
use ezrpc.Base.Int.{ℤ, pos, ltb_ℤ}
use ezrpc.Rpc.Faults.{Fault, is_error}
use ezrpc.Rpc.State.{CStr, Ctx, Fn, Value, Query, Effect, decr}
use ezrpc.Rpc.Macros.{ctx_return, ctx_value_return, drop_param, azy_retval, resume, rewind, emit}
use ezrpc.Rpc.Database.{db_call}
use ezrpc.Rpc.Env.{Env}
use ezrpc.User.Accounts.{ask, refuse}
use ezrpc.Machine.Vm.{Vm}

-- `_removeVm`.
unfoldable pub remove_vm : Env → CStr → (set_inactive : Bool) → Ctx → Ctx × Bool
remove_vm env uuid set_inactive =
    if set_inactive then ask env (Query.ignore_vm uuid) else ask env (Query.remove_vm uuid)

-- `_getVmByRev`.
unfoldable pub get_vm_by_rev : Env → CStr → ℤ → Ctx → Ctx × Bool
get_vm_by_rev env uuid revision s =
    if ltb_ℤ revision (pos 0) then refuse s else ask env (Query.get_vm_by_rev uuid revision) s

-- `_configPush`.
unfoldable pub config_push : Ctx → Ctx × Bool
config_push s = ctx_return (record s { error = Fault.not_implemented })

-- The module that controls a node: NULL and the empty string are none.
abbrev pub has_module : Value → Bool
has_module (Value.text []) = false
has_module (Value.text (c ∷ cs)) = true
has_module _ = false

-- The loop over the machines: a job for each.
unfoldable pub add_updates : List Vm → Ctx → Ctx
add_updates [] s = s
add_updates (vm ∷ vms) s = add_updates vms (emit (Effect.job Fn.vm_cb_update) s)

-- Case 1 of `_updateVMs`.
unfoldable pub update_each : List Vm → Ctx → Ctx
update_each vms s =
    if is_error s.error
    then s
    else if has_module (s.params Fn.update_vms)
    then record (add_updates vms (drop_param Fn.update_vms s)) {
      count = (s.count + (length vms + 4)) % 2 ^ 32;
    }
    else record (drop_param Fn.update_vms s) { error = Fault.node_unconfigured }

-- `_updateVMs`.
unfoldable pub update_vms : Env → CStr → List Vm → Ctx → Ctx × Bool
update_vms env uuid vms s = ctx_return (
    if s.count == 0
    then ctx_value_return Fn.update_vms (db_call env.sent (Query.get_node_control_module uuid) s)
    else if s.count == 1
    then update_each vms s
    else resume (azy_retval (Value.bool true) s))

-- What the end of `vm_cb_update` does to the call.
unfoldable pub vm_left : Ctx → Ctx
vm_left s =
    let t : Ctx = record s { count = decr s.count } in
    if t.count == 5 then emit (Effect.resume true) (rewind t) else t
