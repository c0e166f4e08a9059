-- ===== src/Machine/Update.antt =====
-- `vm_cb_update` of functions-vm.c: the update of one machine, in a context of its own below that of
-- `_updateVMs`, whose fields stand here with a `p_`. The pool is taken to take every query.
use ezrpc.Base.{ℕ, ◌+◌, ◌==◌, Bool, true, Option, none, List, [], ◌∷◌, ◌++◌, if◌then◌else◌}
use ezrpc.Rpc.Faults.{Fault, fault_eq, is_error}
use ezrpc.Rpc.State.{lit, incr, decr}
use ezrpc.Rpc.Env.{contains}
use ezrpc.Machine.Vm.{Vm, vm_config_cmp}

-- The calls of the database object about the machine.
pub data Request : Type 0 where
  create_vm set_vm_state update_vm_timestamp update_vm_parent_node is_vm_ignored : Request
  get_vm update_vm_config prune_vm_stats update_vm_stats : Request
  save_vm_revision : (by_user : Bool) → Request
  get_vm_disks get_vm_vifs : Request

pub data Devices : Type 0 where
  disks vifs : Devices

-- A context that case 6 makes for the devices of a kind. `cb_pointer_job` adds the job of the
-- context; case 6 sets none, and puts the function that was meant for it under the parameter's key.
pub record Child : Type 0 where
  pub job : Option Devices  -- zctx->job, by whose update it is
  pub param : Devices  -- the function under "cb_pointer_job"

-- What `cb_pointer_job` runs once the answer has arrived in such a context: `ecore_job_add` of NULL
-- adds no job.
unfoldable pub runs_after_answer : Child → Option Devices
runs_after_answer c = c.job

pub record VmCtx : Type 0 where
  pub vm : Vm
  pub count : ℕ
  pub error : Fault
  pub checked : Bool
  pub auth : Bool
  pub ret : Bool
  pub stored : Option Vm  -- the parameter of `vm_cb_update`
  pub requests : List Request  -- the newest first
  pub children : List Child
  pub freed : ℕ
  pub p_count : ℕ
  pub p_woken : ℕ  -- how often the parent has been rewound and resumed

-- The label `out`.
unfoldable pub out : VmCtx → VmCtx
out s = record s {
  freed = s.freed + 1;
  p_count = decr s.p_count;
  p_woken = if decr s.p_count == 5 then s.p_woken + 1 else s.p_woken;
}

-- `if (!ctx->error) return;` before `out`.
unfoldable pub unless_error : VmCtx → VmCtx
unless_error s = if is_error s.error then out s else s

abbrev pub ask : Request → VmCtx → VmCtx
ask q s = record s { requests = q ∷ s.requests }

-- Case 0; `valid` is what `zshare_validate_uuid` answers.
unfoldable pub update_create : Bool → VmCtx → VmCtx
update_create valid s = if valid then unless_error (ask Request.create_vm s) else out s

-- `_handleVmStateChange`, whose result is not used.
unfoldable pub handle_vm_state_change : VmCtx → VmCtx
handle_vm_state_change s = ask Request.update_vm_timestamp (ask Request.set_vm_state s)

-- Case 1.
unfoldable pub update_parent : VmCtx → VmCtx
update_parent s =
    if fault_eq s.error Fault.entity_already_exists
    then handle_vm_state_change
        (record s { count = decr s.count; error = Fault.no_error; checked = true })
    else if contains s.vm.name (lit "-migrating")
    then out s
    else unless_error (ask Request.update_vm_parent_node s)

-- Case 7, and what follows it.
unfoldable pub update_revision : VmCtx → VmCtx
update_revision s =
    if s.auth
    then ask (Request.save_vm_revision s.ret) (record s { error = Fault.no_error })
    else out (record s { error = Fault.no_error })

-- One context for the devices of a kind. Its job stays NULL.
abbrev pub add_child : Bool → Devices → Request → VmCtx → VmCtx
add_child has devices query s =
    if has
    then record s {
      children = s.children ++ record { job = none; param = devices } ∷ [];
      requests = if s.checked then query ∷ s.requests else s.requests;
      count = incr s.count;
    }
    else s

-- Case 6, which goes on with case 7 where there is no device.
unfoldable pub update_devices : VmCtx → VmCtx
update_devices s =
    let t =
      add_child s.vm.has_disks Devices.disks Request.get_vm_disks
        (record s { error = Fault.no_error }) in
    let u = add_child s.vm.has_vifs Devices.vifs Request.get_vm_vifs t in
    let v : VmCtx = record u { count = incr u.count } in
    if v.count == 7 then update_revision v else v

-- Case 5, which goes on with case 6 where `ctx->ret` is set.
unfoldable pub update_stats : VmCtx → VmCtx
update_stats s = if s.ret then update_devices (record s { error = Fault.no_error }) else record s {
  error = Fault.no_error;
  requests =
      Request.update_vm_stats
      ∷ (if s.checked then Request.prune_vm_stats ∷ s.requests else s.requests);
}

-- Case 4, which goes on with case 5 where the count has reached 5.
unfoldable pub update_config : VmCtx → VmCtx
update_config s =
    let t : VmCtx = record s { stored = if s.checked then none else s.stored } in
    if vm_config_cmp s.vm (if s.checked then s.stored else none) == 0
    then (let u : VmCtx = record t { count = incr t.count } in
        if u.count == 5 then update_stats u else unless_error u)
    else unless_error (ask Request.update_vm_config (record t { auth = true }))

-- Case 3. `CTX_BOOL_JOB` keeps no value, so `CTX_PARAM_GET` gives NULL for the answer to
-- `isVmIgnored`.
unfoldable pub update_stored : VmCtx → VmCtx
update_stored s =
    if s.checked
    then unless_error (ask Request.get_vm s)
    else update_config (record s { count = incr s.count })

-- Case 2, which goes on with case 3 for a machine that has just been created.
unfoldable pub update_ignored : VmCtx → VmCtx
update_ignored s =
    let t : VmCtx = record s { error = Fault.no_error } in
    if s.checked then ask Request.is_vm_ignored t else update_stored t

-- `vm_cb_update`.
unfoldable pub vm_cb_update : Bool → VmCtx → VmCtx
vm_cb_update valid s =
    if s.count == 0
    then update_create valid s
    else if s.count == 1
    then update_parent s
    else if s.count == 2
    then update_ignored s
    else if s.count == 3
    then update_stored s
    else if s.count == 4
    then update_config s
    else if s.count == 5
    then update_stats s
    else if s.count == 6
    then update_devices s
    else if s.count == 7
    then update_revision s
    else out s
