-- ===== src/Device/Progress.antt =====
-- The answer to the question for the revision, and what the update of the disks and of the interfaces
-- does with it.
use ezrpc.Base.{ℕ, ◌≡◌, refl, false, List, ◌∷◌}
use ezrpc.Device.Update.{
  Request, DevCtx, with_stats, write_all, unless_error, answered, updateconfig,
}
use ezrpc.Device.Disk.{Disk}
use ezrpc.Device.Vif.{NetIf, vifs_updateconfig}

module _ {A : Type 0} (kind : ℕ) where
  begun :
      (s : DevCtx A)
      → s.count ≡ 0
      → s.error ≡ false
      → updateconfig kind s ≡ record s { requests = Request.get_latest_revision kind ∷ s.requests }
  unfolding updateconfig unless_error
  begun s h e = simp (h, e) refl

  answered-first :
      (s : DevCtx A)
      → s.count ≡ 0
      → s.error ≡ false
      → updateconfig kind (answered s)
        ≡ record s { count = 1; requests = write_all s.p_ret s.p_checked s.devices s.requests }
  unfolding updateconfig unless_error answered
  answered-first s h e = simp (h, e) refl

  -- The requests of a begun update once the revision has arrived.
  revision_arrives :
      (x : A) (xs : List A) (s : DevCtx A)
      → s.count ≡ 0
      → s.error ≡ false
      → s.devices ≡ x ∷ xs
      → (updateconfig kind (answered (updateconfig kind s))).requests
        ≡ Request.undefined
          ∷ with_stats s.p_ret s.p_checked x (Request.get_latest_revision kind ∷ s.requests)
  revision_arrives x xs s h e d =
      let asked : DevCtx A = record s {
        requests = Request.get_latest_revision kind ∷ s.requests;
      } in
      rw (begun s h e, answered-first asked h e, d) refl

pub vifs_updateconfig-reads_through :
    (x : NetIf) (xs : List NetIf) (s : DevCtx NetIf)
    → s.count ≡ 0
    → s.error ≡ false
    → s.devices ≡ x ∷ xs
    → (vifs_updateconfig (answered (vifs_updateconfig s))).requests
      ≡ Request.undefined
        ∷ with_stats s.p_ret s.p_checked x (Request.get_latest_revision 3 ∷ s.requests)
unfolding vifs_updateconfig
vifs_updateconfig-reads_through x xs s h e d = revision_arrives 3 x xs s h e d
