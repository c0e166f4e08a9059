-- ===== src/Console/Calls.antt =====
-- The calls of functions-console.c that ask the database, those of functions-vm.c that they use,
-- and the locks.
use ezrpc.Base.{◌==◌, ◌&&◌, not, Bool, List, [], ◌∷◌, ◌++◌, if◌then◌else◌}
use ezrpc.Base.Int.{ℤ, pos, ltb_ℤ}
use ezrpc.Rpc.Faults.{is_error}
use ezrpc.Rpc.State.{Str, CStr, Ctx, Fn, Value, Query, Session, lit, as_text, is_null}
use ezrpc.Rpc.Macros.{ctx_return, ctx_value_return, ctx_int_return, drop_param, azy_retval}
use ezrpc.Rpc.Database.{db_call}
use ezrpc.Rpc.Env.{Env}
use ezrpc.User.Accounts.{ask}

-- `_getVMparentAddress`, `_getVMstat` and `_getVMattribute` of functions-vm.c.
unfoldable pub get_vm_parent_address : Env → CStr → Ctx → Ctx × Bool
get_vm_parent_address env uuid = ask env (Query.get_vm_parent_address uuid)

unfoldable pub get_vm_stat : Env → CStr → Str → Ctx → Ctx × Bool
get_vm_stat env uuid stat = ask env (Query.get_vm_stat uuid stat)

unfoldable pub get_vm_attribute : Env → CStr → Str → Ctx → Ctx × Bool
get_vm_attribute env uuid attribute = ask env (Query.get_vm_attribute uuid attribute)

-- `_saveGraphicalConsolePort`.
unfoldable pub save_graphical_console_port :
    Env → (uuid : CStr) (tunnelport externalport : ℤ) → Ctx → Ctx × Bool
save_graphical_console_port env uuid tunnelport externalport =
    ask env (Query.save_graphical_console_port uuid tunnelport externalport)

-- `_getGraphicalConsoleTunnelPort`.
unfoldable pub get_graphical_console_tunnel_port : Env → CStr → Ctx → Ctx × Bool
get_graphical_console_tunnel_port env uuid = ask env (Query.get_graphical_console_tunnel_port uuid)

-- `_getGraphicalConsolePort`.
unfoldable pub get_graphical_console_port : Env → CStr → Ctx → Ctx × Bool
get_graphical_console_port env uuid = ask env (Query.get_graphical_console_port uuid)

-- `_saveTextConsolePort`.
unfoldable pub save_text_console_port : Env → CStr → ℤ → Ctx → Ctx × Bool
save_text_console_port env uuid port = ask env (Query.save_text_console_port uuid port)

-- `_getTextConsolePort`.
unfoldable pub get_text_console_port : Env → CStr → Ctx → Ctx × Bool
get_text_console_port env uuid = ask env (Query.get_text_console_port uuid)

-- `_getConsoleLockSession`.
unfoldable pub get_console_lock_session : Env → (uuid type : CStr) → Ctx → Ctx × Bool
get_console_lock_session env uuid type = ask env (Query.get_console_lock_session uuid type)

-- `_getConsoleClientHost`.
unfoldable pub get_console_client_host : Env → (uuid type : CStr) → Ctx → Ctx × Bool
get_console_client_host env uuid type = ask env (Query.get_console_client_host uuid type)

-- `_getConsoleNodeHost`.
unfoldable pub get_console_node_host : Env → (uuid type : CStr) → Ctx → Ctx × Bool
get_console_node_host env uuid type = ask env (Query.get_console_node_host uuid type)

-- `_hasConsoleLock`.
unfoldable pub has_console_lock : Env → (uuid type : CStr) → Ctx → Ctx × Bool
has_console_lock env uuid type = ask env (Query.has_console_lock uuid type)

-- `_releaseConsoleLock`.
unfoldable pub release_console_lock : Env → (uuid sessionid type : CStr) → Ctx → Ctx × Bool
release_console_lock env uuid sessionid type =
    ask env (Query.release_console_lock uuid sessionid type)

-- `_getConsoleLockVmsBySession`.
unfoldable pub get_console_lock_vms_by_session : Env → CStr → Ctx → Ctx × Bool
get_console_lock_vms_by_session env session_id =
    ask env (Query.get_console_lock_vms_by_session session_id)

-- `_getConsoleType`.
unfoldable pub get_console_type : Env → (uuid session_id : CStr) → Ctx → Ctx × Bool
get_console_type env uuid session_id = ask env (Query.get_console_type uuid session_id)

-- `_acquireConsoleLock`. It is called in the middle of another call, and reads that call's count.
unfoldable pub acquire_console_lock :
    Env → (uuid : CStr) (session : Session) (type : CStr) → Ctx → Ctx × Bool
unfolding get_vm_parent_address
acquire_console_lock env uuid session type s = ctx_return (
    if s.count == 0
    then ctx_value_return Fn.acquire_console_lock (get_vm_parent_address env uuid s).0
    else if s.count == 1
    then (let t = drop_param Fn.acquire_console_lock s in
        if is_error t.error
        then t
        else db_call env.sent
            (Query.acquire_console_lock uuid session type
              (as_text (s.params Fn.acquire_console_lock)))
            t)
    else s)

-- `_getConsoleLockUser`.
unfoldable pub get_console_lock_user : Env → (uuid type : CStr) → Ctx → Ctx × Bool
get_console_lock_user env uuid type s = ctx_return (
    if s.count == 0
    then ctx_value_return Fn.get_console_lock_user
        (db_call env.sent (Query.get_console_lock_session uuid type) s)
    else if s.count == 1
    then (let t = drop_param Fn.get_console_lock_user s in
        if is_error t.error
        then t
        else db_call env.sent
            (Query.get_user_name_by_session (as_text (s.params Fn.get_console_lock_user))) t)
    else s)

-- The list that `_getSupportedConsoles` builds. The port is the address of a string: it is only
-- compared with NULL here, and `*port` is the number that is read there.
abbrev pub supported : Bool → List Str
supported graphical = (if graphical then lit "graphical" ∷ [] else []) ++ lit "text" ∷ []

-- `_getSupportedConsoles`; `at_port` is what stands at the address that the database layer passes.
unfoldable pub get_supported_consoles : Env → (at_port : Value → ℤ) (uuid : CStr) → Ctx → Ctx × Bool
unfolding get_vm_attribute
get_supported_consoles env at_port uuid s = ctx_return (
    if s.count == 0
    then ctx_int_return Fn.get_supported_consoles (get_vm_attribute env uuid (lit "vncport") s).0
    else if s.count == 1
    then (if is_error s.error
        then s
        else (let port = s.params Fn.get_supported_consoles in
            azy_retval
              (Value.texts (supported (not (is_null port) && ltb_ℤ (pos 0) (at_port port))))
              (drop_param Fn.get_supported_consoles s)))
    else s)
