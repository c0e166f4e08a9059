-- ===== src/Device/Vif.antt =====
-- functions-vif.c: the comparison of network interfaces, and the update of a VM's interfaces.
use ezrpc.Base.{ℕ, ◌==◌, Bool, true, false, not, Option, some, List, if◌then◌else◌}
use ezrpc.Rpc.State.{CStr}
use ezrpc.Device.Update.{DevCtx, same_string, updateconfig, cb_updateconfig}

-- The fields of `NETIF` that are compared or sent with a job.
pub record NetIf : Type 0 where
  pub label : CStr
  pub name : CStr
  pub netmask : CStr
  pub ip : CStr
  pub type : CStr
  pub script : CStr
  pub bridge : CStr
  pub mac : CStr
  pub gateway : CStr
  pub broadcast : CStr
  pub mtu : ℕ

unfoldable pub netif_mac_cmp : NetIf → NetIf → ℕ
netif_mac_cmp a b = if same_string a.mac b.mac then 0 else 1

-- `same` tells whether the two pointers are equal. The tests of the strings are `==` in the source.
unfoldable pub netif_config_cmp : (same : Bool) → Option NetIf → Option NetIf → ℕ
netif_config_cmp true a b = 0
netif_config_cmp false (some a) (some b) =
    if same_string a.name b.name
    then 1
    else if same_string a.netmask b.netmask
    then 1
    else if same_string a.ip b.ip
    then 1
    else if same_string a.type b.type
    then 1
    else if same_string a.script b.script
    then 1
    else if same_string a.bridge b.bridge
    then 1
    else if same_string a.mac b.mac
    then 1
    else if same_string a.gateway b.gateway
    then 1
    else if same_string a.broadcast b.broadcast
    then 1
    else if not (a.mtu == b.mtu)
    then 1
    else 0
netif_config_cmp false _ _ = 1

abbrev pub netif_differs : NetIf → NetIf → ℕ
netif_differs a b = netif_config_cmp false (some a) (some b)

unfoldable pub vifs_updateconfig : DevCtx NetIf → DevCtx NetIf
vifs_updateconfig s = updateconfig 3 s

unfoldable pub vif_cb_updateconfig : List NetIf → DevCtx NetIf → DevCtx NetIf
vif_cb_updateconfig stored s = cb_updateconfig netif_mac_cmp netif_differs 3 stored s
