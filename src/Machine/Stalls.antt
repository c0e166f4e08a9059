-- ===== src/Machine/Stalls.antt =====
-- The update of a machine that has devices stops at them (case 6 of `vm_cb_update`, functions-vm.c).
use ezrpc.Base.{◌<◌, ◌≡◌, refl, subst, sym, ◌||◌, Bool, true, false, none, List, [], ◌∷◌, arith}
use ezrpc.Machine.Update.{Child, VmCtx, runs_after_answer, update_devices, vm_cb_update}

-- No context of the list runs anything after its answer.
abbrev pub AllIdle : List Child → Type 0
AllIdle [] = Unit
AllIdle (c ∷ cs) = (runs_after_answer c ≡ none) × AllIdle cs

-- The context waits, as its parent does: it is not freed, the parent is not counted down, and no
-- context below it will count it down.
pub record IsStuck (s t : VmCtx) : Type 0 where
  pub waits : 7 < t.count
  pub not_freed : t.freed ≡ s.freed
  pub parent_waits : t.p_count ≡ s.p_count
  pub parent_sleeps : t.p_woken ≡ s.p_woken
  pub idle : AllIdle t.children

stuck :
    (a b : Bool) (s : VmCtx)
    → s.vm.has_disks ≡ a
    → s.vm.has_vifs ≡ b
    → s.count ≡ 6
    → s.children ≡ []
    → (a || b) ≡ true
    → IsStuck s (update_devices s)
unfolding update_devices runs_after_answer
stuck true true s e f h k o =
    rw (e, f, h, k)
      (record {
        waits = omega arith;
        not_freed = refl;
        parent_waits = refl;
        parent_sleeps = refl;
        idle = (refl, (refl, tt));
      })
stuck true false s e f h k o =
    rw (e, f, h, k)
      (record {
        waits = omega arith;
        not_freed = refl;
        parent_waits = refl;
        parent_sleeps = refl;
        idle = (refl, tt);
      })
stuck false true s e f h k o =
    rw (e, f, h, k)
      (record {
        waits = omega arith;
        not_freed = refl;
        parent_waits = refl;
        parent_sleeps = refl;
        idle = (refl, tt);
      })
stuck false false s e f h k o = ground arith

at_devices : (valid : Bool) (s : VmCtx) → s.count ≡ 6 → vm_cb_update valid s ≡ update_devices s
unfolding vm_cb_update
at_devices valid s h = simp h refl

-- The update of a machine that has disks, interfaces or both, and no contexts below it so far, gets
-- stuck at its devices: the run at count 6 ends with the count above 7, the context not freed and the call of
-- the node neither counted down nor woken, and none of the contexts made for the devices runs
-- anything once it has its answer, so that no update of devices ever counts the machine down.
pub vm_cb_update-IsStuck :
    (valid : Bool) (s : VmCtx)
    → s.count ≡ 6
    → s.children ≡ []
    → (s.vm.has_disks || s.vm.has_vifs) ≡ true
    → IsStuck s (vm_cb_update valid s)
vm_cb_update-IsStuck valid s h k o =
    subst (IsStuck s) (sym (at_devices valid s h))
      (stuck s.vm.has_disks s.vm.has_vifs s refl refl h k o)
