-- ===== src/Device/Stalls.antt =====
-- What the first call of the two updates does with the stored devices.
use ezrpc.Base.{
  ℕ, ◌≡◌, refl, Bool-cases, inl, inr, ap, ◌∙◌, Bool, true, false, ◌||◌, List, [], ◌∷◌, length,
  arith, ◌==◌, ◌<◌, if◌then◌else◌,
}
use ezrpc.Device.Update.{
  Request, DevCtx, unless_error, updateconfig, has_gone, new_ones, keep_new, search, has_changed,
  differs_from, cb_default, cb_decide, cb_compared, cb_first, cb_updateconfig, same_string,
}
use ezrpc.Device.Disk.{Disk, disk_path_cmp, disk_differs, disk_cb_updateconfig}
use ezrpc.Device.Vif.{NetIf, netif_mac_cmp, netif_differs, netif_config_cmp, vif_cb_updateconfig}

-- A context that no call has been made with, and that has no error.
abbrev pub IsNew : {A : Type 0} → DevCtx A → Type 0
IsNew s = (s.count ≡ 0) × (s.error ≡ false) × (s.auth ≡ false) × (s.checked ≡ false)

-- Nothing is asked of the database, nothing is freed and the parent is not told: no answer will
-- come, and the update goes no further.
abbrev pub IsIdle : {A : Type 0} → DevCtx A → DevCtx A → Type 0
IsIdle s t = (t.requests ≡ s.requests) × (t.freed ≡ s.freed) × (t.p_jobs ≡ s.p_jobs)

module _ {A : Type 0} (key config : A → A → ℕ) (kind : ℕ) where
  decide-IsIdle :
      (gone changed : Bool) (news : List A) (s : DevCtx A)
      → s.error ≡ false
      → (gone || changed) ≡ true
      → news ≡ []
      → IsIdle s (cb_decide key config kind gone changed news s)
  unfolding cb_decide unless_error
  decide-IsIdle true changed [] s e c n = simp e (refl, refl, refl)
  decide-IsIdle false true [] s e c n = ground arith
  decide-IsIdle false false [] s e c n = ground arith
  decide-IsIdle gone changed (x ∷ xs) s e c n = ground arith

  decide_goes_on :
      (gone changed : Bool) (news : List A) (s : DevCtx A)
      → IsNew s
      → (gone || changed) ≡ false
      → news ≡ []
      → (cb_decide key config kind gone changed news s).requests
        ≡ Request.get_latest_revision kind ∷ s.requests
  unfolding cb_decide cb_default updateconfig unless_error
  decide_goes_on true changed news s h c n = ground arith
  decide_goes_on false true news s h c n = ground arith
  decide_goes_on false false [] s h c n = ground arith
  decide_goes_on false false (x ∷ xs) s h c n = ground arith

  decide_requests :
      (gone changed : Bool) (news : List A) (s : DevCtx A)
      → IsNew s
      → news ≡ []
      → (cb_decide key config kind gone changed news s).requests
        ≡ (if gone || changed then s.requests else Request.get_latest_revision kind ∷ s.requests)
  decide_requests true changed news s h n = (decide-IsIdle true changed news s h.1 refl n).0
  decide_requests false true news s h n = (decide-IsIdle false true news s h.1 refl n).0
  decide_requests false false news s h n = decide_goes_on false false news s h refl n

  first-compared :
      (stored : List A) (s : DevCtx A)
      → s.count ≡ 0
      → 0 < length stored
      → length stored ≡ length s.devices
      → cb_updateconfig key config kind stored s ≡ cb_compared key config kind stored s
  unfolding cb_updateconfig cb_first
  first-compared [] s h k e = ground arith
  first-compared (x ∷ xs) s h k e = ground arith

-- Where as many disks are stored as the VM has, at least one, and none of the VM's is new: the
-- update asks for nothing if a stored disk has gone or one has changed, and asks for the latest
-- revision, the first step of writing, if nothing is different.
pub disk_cb_updateconfig-inverted :
    (stored : List Disk) (s : DevCtx Disk)
    → IsNew s
    → 0 < length stored
    → length stored ≡ length s.devices
    → new_ones disk_path_cmp stored s.devices ≡ []
    → (disk_cb_updateconfig stored s).requests ≡ (
        if has_gone disk_path_cmp stored s.devices
          || has_changed disk_path_cmp disk_differs stored s.devices
        then s.requests
        else Request.get_latest_revision 2 ∷ s.requests)
unfolding disk_cb_updateconfig cb_compared
disk_cb_updateconfig-inverted stored s h k e n =
    ap (λ t. t.requests) (first-compared disk_path_cmp disk_differs 2 stored s h.0 k e)
    ∙ decide_requests disk_path_cmp disk_differs 2 (has_gone disk_path_cmp stored s.devices)
        (has_changed disk_path_cmp disk_differs stored s.devices)
        (new_ones disk_path_cmp stored s.devices) s h n

or_true : (b : Bool) → (b || true) ≡ true
or_true true = refl
or_true false = refl

or_one : (b : Bool) (n : ℕ) → (n == 0) ≡ false → ((if b then 1 else n) == 0) ≡ false
or_one true n h = refl
or_one false n h = h

one_if : (b : Bool) (n : ℕ) → b ≡ true → ((if b then 1 else n) == 0) ≡ false
one_if true n h = refl
one_if false n h = ground arith

zero_if : (b : Bool) → ((if b then 0 else 1) == 0) ≡ true → b ≡ true
zero_if true h = refl
zero_if false h = ground arith

same_mac : (a b : NetIf) → (netif_mac_cmp a b == 0) ≡ true → same_string a.mac b.mac ≡ true
unfolding netif_mac_cmp
same_mac a b h = zero_if (same_string a.mac b.mac) h

-- An interface with the same MAC address counts as different.
same_mac-differs :
    (a b : NetIf) → (netif_mac_cmp a b == 0) ≡ true → (netif_differs a b == 0) ≡ false
unfolding netif_config_cmp
same_mac-differs a b h = or_one (same_string a.name b.name) _ (
    or_one (same_string a.netmask b.netmask) _ (
      or_one (same_string a.ip b.ip) _ (
        or_one (same_string a.type b.type) _ (
          or_one (same_string a.script b.script) _ (
            or_one (same_string a.bridge b.bridge) _
              (one_if (same_string a.mac b.mac) _ (same_mac a b h)))))))

found-same_mac :
    (stored : List NetIf) (x : NetIf) (rest : List NetIf)
    → keep_new (search netif_mac_cmp stored x) x rest ≡ []
    → differs_from netif_differs (search netif_mac_cmp stored x) x ≡ true
found-same_mac [] x rest h = ground arith
found-same_mac (y ∷ ys) x rest h = elim (Bool-cases (netif_mac_cmp y x == 0)) [
  | inl c ↦ simp (c, same_mac-differs y x c) refl
  | inr c ↦ simp c (found-same_mac ys x rest (simp c at h))
]

vifs-changed :
    (stored devices : List NetIf)
    → 0 < length devices
    → new_ones netif_mac_cmp stored devices ≡ []
    → has_changed netif_mac_cmp netif_differs stored devices ≡ true
vifs-changed stored [] h n = ground arith
vifs-changed stored (x ∷ xs) h n =
    rw (found-same_mac stored x (new_ones netif_mac_cmp stored xs) n) refl

-- Where as many interfaces are stored as the VM has, at least one, and none of the VM's is new, the
-- update asks for nothing, frees nothing and does not tell its parent, whatever the interfaces are.
pub vif_cb_updateconfig-IsIdle :
    (stored : List NetIf) (s : DevCtx NetIf)
    → IsNew s
    → 0 < length stored
    → length stored ≡ length s.devices
    → new_ones netif_mac_cmp stored s.devices ≡ []
    → IsIdle s (vif_cb_updateconfig stored s)
unfolding vif_cb_updateconfig cb_compared
vif_cb_updateconfig-IsIdle stored s h k e n =
    rw (first-compared netif_mac_cmp netif_differs 3 stored s h.0 k e) (
      decide-IsIdle netif_mac_cmp netif_differs 3 (has_gone netif_mac_cmp stored s.devices)
        (has_changed netif_mac_cmp netif_differs stored s.devices)
        (new_ones netif_mac_cmp stored s.devices) s h.1
        (ap (λ b. has_gone netif_mac_cmp stored s.devices || b)
            (vifs-changed stored s.devices (omega arith) n)
          ∙ or_true (has_gone netif_mac_cmp stored s.devices))
        n)
