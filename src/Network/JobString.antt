-- ===== src/Network/JobString.antt =====
-- `network_job_string`: the arguments that a network's job is created with. `show` is the decimal
-- text that `printf` gives an integer; "%s" of NULL is "(null)".
use ezrpc.Base.{
  ◌==◌, Bool, true, false, not, ◌||◌, Option, none, some, List, [], ◌∷◌, ◌++◌, drop, if◌then◌else◌,
}
use ezrpc.Base.Int.{ℤ, pos, negsuc}
use ezrpc.Rpc.State.{Str, CStr, Network, lit}
use ezrpc.Rpc.Env.{Env, contains}
use ezrpc.Device.Vif.{NetIf}

-- `info`: NULL, the MAC address of an interface, or an interface.
pub data Info : Type 0 where
  no_info : Info
  mac : Str → Info
  iface : NetIf → Info

-- The string, or a pointer that has never been set, or a read through NULL.
pub data JobString : Type 0 where
  text : Str → JobString
  unset null_read : JobString

abbrev pub shown : CStr → Str
shown none = lit "(null)"
shown (some s) = s

abbrev pub is_vlan : ℤ → Bool
is_vlan (pos n) = true
is_vlan (negsuc n) = n == 0

abbrev pub comma : List ℤ → Str
comma [] = []
comma (v ∷ vs) = lit ","

abbrev pub vlan_list : (ℤ → Str) → List ℤ → Str
vlan_list show [] = []
vlan_list show (v ∷ vs) = (if is_vlan v then show v ++ comma vs else []) ++ vlan_list show vs

abbrev pub starts_with_m : Str → Bool
starts_with_m [] = false
starts_with_m (c ∷ cs) = c == 109

-- The branch of the functions on networks.
unfoldable pub network_text : (ℤ → Str) → Str → Option Network → JobString
network_text show function none = JobString.null_read
network_text show function (some net) = JobString.text (
    if starts_with_m function
    then lit "host="
      ++ shown net.host
      ++ lit "::name="
      ++ shown net.name
      ++ lit "::type="
      ++ shown net.type
      ++ lit "::network="
      ++ shown net.network
      ++ lit "::netmask="
      ++ shown net.netmask
      ++ lit "::gateway="
      ++ shown net.gateway
      ++ lit "::mac="
      ++ shown net.mac
      ++ lit "::interface="
      ++ shown net.interface
      ++ lit "::vlans='"
      ++ vlan_list show net.vlans
      ++ lit "'"
    else lit "iface="
      ++ shown net.interface
      ++ lit "::mac="
      ++ shown net.mac
      ++ lit "::vlans="
      ++ vlan_list show net.vlans)

abbrev pub mac_text : Info → Str
mac_text Info.no_info = lit "(null)"
mac_text (Info.mac m) = m
mac_text (Info.iface i) = []

unfoldable pub attach_text : Info → Option Network → JobString
attach_text info none = JobString.null_read
attach_text info (some net) = JobString.text (
    lit "vifmac="
    ++ mac_text info
    ++ lit "::nwiface="
    ++ shown net.interface
    ++ lit "::nwmac="
    ++ shown net.mac)

unfoldable pub add_text : (ℤ → Str) → Info → JobString
add_text show (Info.iface i) = JobString.text (
    lit "mac="
    ++ shown i.mac
    ++ lit "::ip="
    ++ shown i.ip
    ++ lit "::netmask="
    ++ shown i.netmask
    ++ lit "::broadcast="
    ++ shown i.broadcast
    ++ lit "::bridge="
    ++ shown i.bridge
    ++ lit "::type="
    ++ shown i.type
    ++ lit "::gateway="
    ++ shown i.gateway
    ++ lit "::script="
    ++ shown i.script
    ++ lit "::name="
    ++ shown i.name
    ++ lit "::mtu="
    ++ show (pos i.mtu))
add_text show _ = JobString.null_read

-- `stored` is the interface in the slot of `ctx->params` that `_modifyNetIf` sets.
unfoldable pub modify_text : (ℤ → Str) → Info → Option NetIf → JobString
modify_text show info none = JobString.null_read
modify_text show info (some i) = JobString.text (
    lit "mac="
    ++ mac_text info
    ++ lit "::newmac="
    ++ shown i.mac
    ++ lit "::label="
    ++ shown i.label
    ++ lit "::name="
    ++ shown i.name
    ++ lit "::bridge="
    ++ shown i.bridge
    ++ lit "::script="
    ++ shown i.script
    ++ lit "::type="
    ++ shown i.type
    ++ lit "::ip="
    ++ shown i.ip
    ++ lit "::netmask="
    ++ shown i.netmask
    ++ lit "::gateway="
    ++ shown i.gateway
    ++ lit "::broadcast="
    ++ shown i.broadcast
    ++ lit "::mtu="
    ++ show (pos i.mtu))

-- `function` has at least six characters, as every caller's has.
unfoldable pub network_job_string :
    Env → (ℤ → Str) → (stored : Option NetIf) → Str → Info → Option Network → JobString
network_job_string env show stored function info net =
    let is = λ (name : Str). env.same (some function) (some name) in
    if not (contains (drop 6 function) (lit "Network"))
    then network_text show function net
    else if is (lit "attachNetIf") || is (lit "detachNetIf")
    then attach_text info net
    else if is (lit "addNetIf")
    then add_text show info
    else if is (lit "removeNetIf")
    then JobString.text (lit "mac=" ++ mac_text info)
    else if is (lit "modifyNetIf")
    then modify_text show info stored
    else JobString.unset
