-- ===== src/Network/Calls.antt =====
-- The calls of functions-network.c that ask the database and set nothing up for a job.
use ezrpc.Base.{◌==◌, Bool, none, some, if◌then◌else◌}
use ezrpc.Base.Int.{ℤ, pos, negsuc, ltb_ℤ}
use ezrpc.Rpc.Faults.{Fault, fault_eq, is_error}
use ezrpc.Rpc.State.{CStr, Ctx, Fn, Query, Network}
use ezrpc.Rpc.Macros.{ctx_cb_add, ctx_return}
use ezrpc.Rpc.Database.{db_call}
use ezrpc.Rpc.Env.{Env}
use ezrpc.User.Accounts.{ask, refuse}

-- `_isNetwork`.
unfoldable pub is_network : Env → Network → Ctx → Ctx × Bool
is_network env net = ask env (Query.is_network net)

-- `_isNetworkId`.
unfoldable pub is_network_id : Env → ℤ → Ctx → Ctx × Bool
is_network_id env id s = if ltb_ℤ id (pos 0) then refuse s else ask env (Query.is_network_id id) s

-- `_getNetwork`.
unfoldable pub get_network : Env → ℤ → Ctx → Ctx × Bool
get_network env id = ask env (Query.get_network id)

-- `_getAllNetworksByType`.
unfoldable pub get_all_networks_by_type : Env → CStr → (offset recordcount : ℤ) → Ctx → Ctx × Bool
get_all_networks_by_type env type offset recordcount =
    ask env (Query.get_all_networks_by_type type offset recordcount)

-- `_getAllNetworks`.
unfoldable pub get_all_networks :
    Env → CStr → (desc : Bool) (offset recordcount : ℤ) → Ctx → Ctx × Bool
get_all_networks env (some sortfield) desc offset recordcount =
    ask env (Query.get_all_networks_sorted (some sortfield) desc offset recordcount)
get_all_networks env none desc offset recordcount =
    ask env (Query.get_all_networks offset recordcount)

-- `_getAllNetworksFull`.
unfoldable pub get_all_networks_full :
    Env → CStr → (desc : Bool) (offset recordcount : ℤ) → Ctx → Ctx × Bool
get_all_networks_full env (some sortfield) desc offset recordcount =
    ask env (Query.get_all_networks_full_sorted (some sortfield) desc offset recordcount)
get_all_networks_full env none desc offset recordcount =
    ask env (Query.get_all_networks_full offset recordcount)

-- `_defineNetwork`. The control module that was passed is dropped.
unfoldable pub define_network : Env → Network → Ctx → Ctx × Bool
define_network env net = ask env (Query.define_network (record net { mid = negsuc 0 }))

-- `_getNetworksByNode`.
unfoldable pub get_networks_by_node : Env → CStr → Ctx → Ctx × Bool
get_networks_by_node env uuid = ask env (Query.get_networks_by_node uuid)

-- `_removeNetwork`.
unfoldable pub remove_network : Env → ℤ → Ctx → Ctx × Bool
remove_network env id s = ctx_return (
    if s.count == 0
    then ctx_cb_add Fn.cb_bool_rewind (is_network_id env id s).0
    else if s.count == 1
    then (if is_error s.error
        then s
        else ctx_cb_add Fn.cb_int_rewind (db_call env.sent (Query.is_network_in_use id) s))
    else if s.count == 2
    then (if is_error s.error
        then (if fault_eq s.error Fault.unknown_resource
            then record s { error = Fault.resource_in_use }
            else s)
        else db_call env.sent (Query.remove_network id) s)
    else record s { error = Fault.server_failure })

-- `_setNetworkControlModule`.
unfoldable pub set_network_control_module : Env → (nwid mid : ℤ) → Ctx → Ctx × Bool
set_network_control_module env nwid mid = ask env (Query.set_network_control_module nwid mid)

-- `_getNetworkControlModule`.
unfoldable pub get_network_control_module : Env → ℤ → Ctx → Ctx × Bool
get_network_control_module env nwid = ask env (Query.get_network_control_module nwid)

-- `_getNetworkControlModules`.
unfoldable pub get_network_control_modules : Env → Ctx → Ctx × Bool
get_network_control_modules env = ask env Query.get_network_control_modules

-- `_getNetworkControlModulesFull`.
unfoldable pub get_network_control_modules_full : Env → Ctx → Ctx × Bool
get_network_control_modules_full env = ask env Query.get_network_control_modules_full

-- `_getNodesByNetwork`.
unfoldable pub get_nodes_by_network : Env → ℤ → Ctx → Ctx × Bool
get_nodes_by_network env nwid = ask env (Query.get_nodes_by_network nwid)

-- `_getNodesByNetworkFull`.
unfoldable pub get_nodes_by_network_full : Env → ℤ → Ctx → Ctx × Bool
get_nodes_by_network_full env nwid s = ctx_return (get_nodes_by_network env nwid s).0

-- `_getNetworkIdByName`.
unfoldable pub get_network_id_by_name : Env → CStr → Ctx → Ctx × Bool
get_network_id_by_name env name = ask env (Query.get_network_id_by_name name)

-- `_getNetworkCount`.
unfoldable pub get_network_count : Env → Ctx → Ctx × Bool
get_network_count env = ask env Query.get_network_count
