-- ===== src/Tests/Devices.antt =====
-- The disks and interfaces of a VM.
use ezrpc.Base.{◌≡◌, ◌↔◌, refl, arith, true, false, none, some, [], ◌∷◌}
use ezrpc.Rpc.State.{lit}
use ezrpc.Device.Update.{Request, DevCtx, new_ones}
use ezrpc.Device.Disk.{Disk, disk_config_cmp, disk_path_cmp, disk_cb_updateconfig}
use ezrpc.Device.Vif.{NetIf, netif_mac_cmp, vif_cb_updateconfig}
use ezrpc.Device.Stalls.{IsIdle, disk_cb_updateconfig-inverted, vif_cb_updateconfig-IsIdle}
use ezrpc.Device.Compare.{disk_config_cmp-zero}

abbrev root_disk : Disk
root_disk = record {
  int_dev = some (lit "sda");
  ext_dev = some (lit "/dev/vg/root");
  mode = some (lit "w");
  type = none;
  partition_type = none;
  mapped_dev = none;
  num_sectors = 2048;
  size_sector = 512;
  start_sector = 0;
  capacity = 1048576;
  block_size = 4096;
}

disk_config_cmp-zero_example :
    (disk_config_cmp false (some root_disk) (some (record root_disk { mode = none })) ≡ 0)
    ↔ (root_disk ≡ record root_disk { mode = none })
disk_config_cmp-zero_example = disk_config_cmp-zero root_disk (record root_disk { mode = none })

abbrev new_ctx : DevCtx Disk
new_ctx = record {
  devices = root_disk ∷ [];
  count = 0;
  auth = false;
  checked = false;
  error = false;
  requests = [];
  freed = 0;
  p_auth = false;
  p_checked = true;
  p_ret = false;
  p_count = 8;
  p_jobs = 0;
}

no_new_disk : new_ones disk_path_cmp (root_disk ∷ []) (root_disk ∷ []) ≡ []
unfolding disk_path_cmp
no_new_disk = refl

-- Nothing is different, and the update begins.
disk_cb_updateconfig-inverted_example :
    (disk_cb_updateconfig (root_disk ∷ []) new_ctx).requests ≡ Request.get_latest_revision 2 ∷ []
unfolding disk_path_cmp disk_config_cmp
disk_cb_updateconfig-inverted_example =
    disk_cb_updateconfig-inverted (root_disk ∷ []) new_ctx (refl, refl, refl, refl) (omega arith)
      refl no_new_disk

abbrev eth0 : NetIf
eth0 = record {
  label = none;
  name = some (lit "eth0");
  netmask = none;
  ip = some (lit "10.0.0.5");
  type = none;
  script = none;
  bridge = some (lit "br0");
  mac = some (lit "00:16:3e:00:00:01");
  gateway = none;
  broadcast = none;
  mtu = 1500;
}

abbrev vif_ctx : DevCtx NetIf
vif_ctx = record {
  devices = eth0 ∷ [];
  count = 0;
  auth = false;
  checked = false;
  error = false;
  requests = [];
  freed = 0;
  p_auth = false;
  p_checked = true;
  p_ret = false;
  p_count = 8;
  p_jobs = 0;
}

no_new_vif : new_ones netif_mac_cmp (eth0 ∷ []) (eth0 ∷ []) ≡ []
unfolding netif_mac_cmp
no_new_vif = refl

vif_cb_updateconfig-IsIdle_example : IsIdle vif_ctx (vif_cb_updateconfig (eth0 ∷ []) vif_ctx)
vif_cb_updateconfig-IsIdle_example =
    vif_cb_updateconfig-IsIdle (eth0 ∷ []) vif_ctx (refl, refl, refl, refl) (omega arith) refl
      no_new_vif
