-- ===== src/Tests/Machines.antt =====
-- The machines of a node.
use ezrpc.Base.{◌≡◌, true, false, refl, arith, none, some, [], ◌∷◌}
use ezrpc.Rpc.Faults.{Fault}
use ezrpc.Rpc.State.{Ctx, Fn, Value, lit}
use ezrpc.Rpc.Macros.{set_param}
use ezrpc.Machine.Vm.{Vm}
use ezrpc.Machine.Update.{VmCtx, Request, vm_cb_update}
use ezrpc.Machine.Stalls.{IsStuck, vm_cb_update-IsStuck}
use ezrpc.Machine.Calls.{update_vms}
use ezrpc.Machine.Join.{IsReady, all_leave, spread, woken, update_vms-joins}
use ezrpc.Tests.{test_env, test_ctx}

abbrev test_vm : Vm
test_vm = record {
  uuid = some (lit "6f1c");
  puuid = some (lit "77aa");
  name = lit "web";
  type = some (lit "xen");
  os = none;
  kernel = none;
  ramdisk = none;
  cmdline = none;
  on_reboot = some (lit "restart");
  on_poweroff = none;
  on_crash = none;
  mem = 512;
  maxmem = 1024;
  vcpus = 2;
  vncport = 5900;
  vncpasswd = none;
  state = some (lit "r");
  has_disks = false;
  has_vifs = false;
}

abbrev ready : Ctx
ready = set_param Fn.update_vms (Value.text (lit "xen")) (record test_ctx { count = 1 })

ready-IsReady : IsReady ready
unfolding set_param
ready-IsReady = record { second = refl; no_fault = refl; no_result = refl; module_known = refl }

update_vms-joins_example :
    all_leave 2 (update_vms test_env (some (lit "77aa")) (test_vm ∷ test_vm ∷ []) ready).0
    ≡ woken (spread (test_vm ∷ test_vm ∷ []) ready)
update_vms-joins_example =
    update_vms-joins test_env (some (lit "77aa")) test_vm (test_vm ∷ []) ready ready-IsReady
      (omega arith)

-- A machine with disks and interfaces whose statistics are written.
abbrev equipped : VmCtx
equipped = record {
  vm = record test_vm { has_disks = true; has_vifs = true };
  count = 6;
  error = Fault.no_error;
  checked = true;
  auth = true;
  ret = false;
  stored = none;
  requests = Request.update_vm_stats ∷ [];
  children = [];
  freed = 0;
  p_count = 6;
  p_woken = 0;
}

vm_cb_update-IsStuck_example : IsStuck equipped (vm_cb_update true equipped)
vm_cb_update-IsStuck_example = vm_cb_update-IsStuck true equipped refl refl refl
