-- ===== src/Machine/Join.antt =====
-- The call that updates the machines of a node goes on when the last of them has been updated.
use ezrpc.Base.{
  ℕ, zero, suc, ◌+◌, ◌%◌, ◌^◌, ◌<◌, ◌≡◌, refl, ap, ◌∙◌, Bool, true, false, List, [], ◌∷◌, length,
  arith,
}
use ezrpc.Rpc.Faults.{Fault, is_error}
use ezrpc.Rpc.State.{CStr, Ctx, Fn, Effect}
use ezrpc.Rpc.Macros.{ctx_return, drop_param, set_param, rewind}
use ezrpc.Rpc.Env.{Env}
use ezrpc.Dispatch.Steps.{ctx_return-passes}
use ezrpc.Machine.Vm.{Vm}
use ezrpc.Machine.Calls.{has_module, add_updates, update_each, update_vms, vm_left}

-- `n` machines leave.
abbrev pub all_leave : ℕ → Ctx → Ctx
all_leave zero s = s
all_leave (suc n) s = all_leave n (vm_left s)

one_leaves :
    (k : ℕ) (s : Ctx) → s.count ≡ 7 + k → 7 + k < 2 ^ 32 → vm_left s ≡ record s { count = 6 + k }
unfolding vm_left rewind
one_leaves k s h b = ground arith

last_leaves :
    (s : Ctx)
    → s.count ≡ 6
    → vm_left s ≡ record s { count = 5; log = Effect.resume true ∷ Effect.rewind ∷ s.log }
unfolding vm_left rewind
last_leaves s h = simp (h) refl

-- The call after the last machine has left.
abbrev pub woken : Ctx → Ctx
woken s = record s { count = 5; log = Effect.resume true ∷ Effect.rewind ∷ s.log }

all_leave-woken :
    (n : ℕ) (s : Ctx) → s.count ≡ 6 + n → 6 + n < 2 ^ 32 → all_leave (suc n) s ≡ woken s
all_leave-woken zero s h b = last_leaves s h
all_leave-woken (suc n) s h b =
    ap (all_leave (suc n)) (one_leaves n s (omega arith) (omega arith))
    ∙ all_leave-woken n (record s { count = 6 + n }) refl (omega arith)

-- One job for each machine.
abbrev pub updates : List Vm → List Effect → List Effect
updates [] l = l
updates (vm ∷ vms) l = updates vms (Effect.job Fn.vm_cb_update ∷ l)

add_updates-log :
    (vms : List Vm) (s : Ctx) → add_updates vms s ≡ record s { log = updates vms s.log }
unfolding add_updates
add_updates-log [] s = refl
add_updates-log (vm ∷ vms) s =
    add_updates-log vms (record s { log = Effect.job Fn.vm_cb_update ∷ s.log })

-- The call while its machines are updated.
abbrev pub spread : List Vm → Ctx → Ctx
spread vms s = record (drop_param Fn.update_vms s) {
  count = 5 + length vms;
  log = updates vms s.log;
}

abbrev pub counted : ℕ → Ctx → Ctx
counted n t = record t { count = n }

update_each-adds :
    (vms : List Vm) (s : Ctx)
    → is_error s.error ≡ false
    → has_module (s.params Fn.update_vms) ≡ true
    → update_each vms s
      ≡ counted
          ((s.count + (length vms + 4)) % 2 ^ 32)
          (add_updates vms (drop_param Fn.update_vms s))
unfolding update_each
update_each-adds vms s e m = rw (e, m) refl

five_more : (c n : ℕ) → c ≡ 1 → 5 + n < 2 ^ 32 → (c + (n + 4)) % 2 ^ 32 ≡ 5 + n
five_more c n h b = omega arith

update_each-spread :
    (vms : List Vm) (s : Ctx)
    → s.count ≡ 1
    → is_error s.error ≡ false
    → has_module (s.params Fn.update_vms) ≡ true
    → 5 + length vms < 2 ^ 32
    → update_each vms s ≡ spread vms s
unfolding drop_param set_param
update_each-spread vms s c e m b =
    update_each-adds vms s e m
    ∙ ap (counted _) (add_updates-log vms (drop_param Fn.update_vms s))
    ∙ ap (λ n. counted n (spread vms s)) (five_more s.count (length vms) c b)

update_vms-each :
    (env : Env) (uuid : CStr) (vms : List Vm) (s : Ctx)
    → s.count ≡ 1
    → update_vms env uuid vms s ≡ ctx_return (update_each vms s)
unfolding update_vms
update_vms-each env uuid vms s c = rw (c) refl

-- A call without a fault or a result whose node has a module.
pub record IsReady (s : Ctx) : Type 0 where
  pub second : s.count ≡ 1
  pub no_fault : s.error ≡ Fault.no_error
  pub no_result : s.ret_set ≡ false
  pub module_known : has_module (s.params Fn.update_vms) ≡ true

update_vms-spread :
    (env : Env) (uuid : CStr) (vms : List Vm) (s : Ctx)
    → IsReady s
    → 5 + length vms < 2 ^ 32
    → update_vms env uuid vms s ≡ (spread vms s, true)
unfolding drop_param set_param
update_vms-spread env uuid vms s r b =
    update_vms-each env uuid vms s r.second
    ∙ ap ctx_return (update_each-spread vms s r.second (ap is_error r.no_fault) r.module_known b)
    ∙ ctx_return-passes (spread vms s) r.no_fault r.no_result

-- A call with at least one machine starts a job for each and is woken, once, when as many machines
-- as there are have left.
pub update_vms-joins :
    (env : Env) (uuid : CStr) (vm : Vm) (vms : List Vm) (s : Ctx)
    → IsReady s
    → 6 + length vms < 2 ^ 32
    → all_leave (length (vm ∷ vms)) (update_vms env uuid (vm ∷ vms) s).0
      ≡ woken (spread (vm ∷ vms) s)
update_vms-joins env uuid vm vms s r b =
    ap (λ (x : Ctx × Bool). all_leave (length (vm ∷ vms)) x.0)
      (update_vms-spread env uuid (vm ∷ vms) s r (omega arith))
    ∙ all_leave-woken (length vms) (spread (vm ∷ vms) s) (omega arith) b
