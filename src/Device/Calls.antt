-- ===== src/Device/Calls.antt =====
-- The calls of functions-disk.c and functions-vif.c that pass a query on.
use ezrpc.Base.{Bool}
use ezrpc.Base.Int.{ℤ}
use ezrpc.Rpc.State.{CStr, Ctx, Query}
use ezrpc.Rpc.Env.{Env}
use ezrpc.User.Accounts.{ask}

-- `_isDisk`.
unfoldable pub is_disk : Env → (uuid ext_dev : CStr) → Ctx → Ctx × Bool
is_disk env uuid ext_dev = ask env (Query.is_disk uuid ext_dev)

-- `_createDisk`.
unfoldable pub create_disk : Env → (uuid path : CStr) → (storid : ℤ) → Ctx → Ctx × Bool
create_disk env uuid path storid = ask env (Query.create_disk uuid path storid)

-- `_getVmDisk`.
unfoldable pub get_vm_disk : Env → (uuid path : CStr) → Ctx → Ctx × Bool
get_vm_disk env uuid path = ask env (Query.get_vm_disk uuid path)

-- `_getVMdisks`.
unfoldable pub get_vm_disks : Env → CStr → Ctx → Ctx × Bool
get_vm_disks env uuid = ask env (Query.get_vm_disks uuid)

-- `_getNumVMdisks`.
unfoldable pub get_num_vm_disks : Env → CStr → Ctx → Ctx × Bool
get_num_vm_disks env uuid = ask env (Query.get_num_vm_disks uuid)

-- `_isNetIf`.
unfoldable pub is_net_if : Env → (uuid mac : CStr) → Ctx → Ctx × Bool
is_net_if env uuid mac = ask env (Query.is_net_if uuid mac)

-- `_createNetIf`.
unfoldable pub create_net_if : Env → (uuid mac : CStr) → Ctx → Ctx × Bool
create_net_if env uuid mac = ask env (Query.create_net_if uuid mac)

-- `_getNumVMvifs`.
unfoldable pub get_num_vm_vifs : Env → CStr → Ctx → Ctx × Bool
get_num_vm_vifs env uuid = ask env (Query.get_num_vm_vifs uuid)

-- `_getNetIfByMAC`.
unfoldable pub get_net_if_by_mac : Env → (uuid mac : CStr) → Ctx → Ctx × Bool
get_net_if_by_mac env uuid mac = ask env (Query.get_vm_vif_by_mac uuid mac)

-- `_getVMvifs`.
unfoldable pub get_vm_vifs : Env → CStr → Ctx → Ctx × Bool
get_vm_vifs env uuid = ask env (Query.get_vm_vifs uuid)
