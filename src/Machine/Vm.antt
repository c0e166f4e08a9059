-- ===== src/Machine/Vm.antt =====
-- `VM` and its comparison (functions-vm.c). Numbers are only compared. A NULL pointer is `none`.
use ezrpc.Base.{ℕ, ◌==◌, Bool, not, Option, none, some, if◌then◌else◌}
use ezrpc.Rpc.State.{Str, CStr}
use ezrpc.Device.Update.{same_string}

-- The fields of `VM` that its update reads; of the lists of devices, whether they are NULL.
pub record Vm : Type 0 where
  pub uuid : CStr
  pub puuid : CStr
  pub name : Str
  pub type : CStr
  pub os : CStr
  pub kernel : CStr
  pub ramdisk : CStr
  pub cmdline : CStr
  pub on_reboot : CStr
  pub on_poweroff : CStr
  pub on_crash : CStr
  pub mem : ℕ
  pub maxmem : ℕ
  pub vcpus : ℕ
  pub vncport : ℕ
  pub vncpasswd : CStr
  pub state : CStr
  pub has_disks : Bool
  pub has_vifs : Bool

-- The strings of `VM_config_cmp`, as far as `on_crash`.
unfoldable pub vm_strings_cmp : Vm → Vm → ℕ
vm_strings_cmp a b =
    if not (same_string (some a.name) (some b.name))
    then 1
    else if not (same_string a.puuid b.puuid)
    then 1
    else if not (same_string a.type b.type)
    then 1
    else if not (same_string a.os b.os)
    then 1
    else if not (same_string a.kernel b.kernel)
    then 1
    else if not (same_string a.ramdisk b.ramdisk)
    then 1
    else if not (same_string a.cmdline b.cmdline)
    then 1
    else if not (same_string a.on_reboot b.on_reboot)
    then 1
    else if not (same_string a.on_poweroff b.on_poweroff)
    then 1
    else if not (same_string a.on_crash b.on_crash)
    then 1
    else 0

-- The rest of `VM_config_cmp`.
unfoldable pub vm_numbers_cmp : Vm → Vm → ℕ
vm_numbers_cmp a b =
    if not (a.mem == b.mem)
    then 1
    else if not (a.maxmem == b.maxmem)
    then 1
    else if not (a.vcpus == b.vcpus)
    then 1
    else if not (a.vncport == b.vncport)
    then 1
    else if not (same_string a.vncpasswd b.vncpasswd)
    then 1
    else 0

-- `VM_config_cmp` of a machine that was sent and the stored one, which are different objects.
unfoldable pub vm_config_cmp : Vm → Option Vm → ℕ
vm_config_cmp a none = 1
vm_config_cmp a (some b) = if vm_strings_cmp a b == 1 then 1 else vm_numbers_cmp a b
