-- ===== src/Device/Disk.antt =====
-- functions-disk.c: the comparison of disks, and the update of a VM's disks. A `double` is a
-- natural number here, since it is only compared: NaN, which equals nothing, and the two zeros, which
-- are equal, are left out. A NULL pointer is `none`.
use ezrpc.Base.{ℕ, ◌==◌, Bool, true, false, not, Option, some, List, if◌then◌else◌}
use ezrpc.Rpc.State.{CStr}
use ezrpc.Device.Update.{DevCtx, same_string, updateconfig, cb_updateconfig}

-- The fields of `DISK` that are compared or stored in its configuration.
pub record Disk : Type 0 where
  pub int_dev : CStr
  pub ext_dev : CStr
  pub mode : CStr
  pub type : CStr
  pub partition_type : CStr
  pub mapped_dev : CStr
  pub num_sectors : ℕ
  pub size_sector : ℕ
  pub start_sector : ℕ
  pub capacity : ℕ
  pub block_size : ℕ

-- `same` tells whether the two pointers are equal.
unfoldable pub disk_config_cmp : (same : Bool) → Option Disk → Option Disk → ℕ
disk_config_cmp true a b = 0
disk_config_cmp false (some a) (some b) =
    if not (same_string a.int_dev b.int_dev)
    then 1
    else if not (same_string a.ext_dev b.ext_dev)
    then 1
    else if not (same_string a.mode b.mode)
    then 1
    else if not (same_string a.type b.type)
    then 1
    else if not (same_string a.partition_type b.partition_type)
    then 1
    else if not (same_string a.mapped_dev b.mapped_dev)
    then 1
    else if not (a.num_sectors == b.num_sectors)
    then 1
    else if not (a.size_sector == b.size_sector)
    then 1
    else if not (a.start_sector == b.start_sector)
    then 1
    else if not (a.capacity == b.capacity)
    then 1
    else if not (a.block_size == b.block_size)
    then 1
    else 0
disk_config_cmp false _ _ = 1

unfoldable pub disk_path_cmp : Disk → Disk → ℕ
disk_path_cmp a b = if same_string a.ext_dev b.ext_dev then 0 else 1

-- A stored disk and a disk of the VM are different objects.
abbrev pub disk_differs : Disk → Disk → ℕ
disk_differs a b = disk_config_cmp false (some a) (some b)

unfoldable pub disks_updateconfig : DevCtx Disk → DevCtx Disk
disks_updateconfig s = updateconfig 2 s

unfoldable pub disk_cb_updateconfig : List Disk → DevCtx Disk → DevCtx Disk
disk_cb_updateconfig stored s = cb_updateconfig disk_path_cmp disk_differs 2 stored s
