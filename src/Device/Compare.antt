-- ===== src/Device/Compare.antt =====
-- The comparison of two disks against equality of their fields.
use ezrpc.Base.{
  ℕ, ◌==◌, ◌≡◌, ◌↔◌, refl, ap, ap₂, subst, ==_iff, Bool, true, false, not, ◌&&◌, none, some, [],
  ◌∷◌, arith, if◌then◌else◌,
}
use ezrpc.Rpc.State.{Str, CStr}
use ezrpc.Rpc.Env.{bytes_eq}
use ezrpc.Device.Update.{same_string}
use ezrpc.Device.Disk.{Disk, disk_config_cmp}

and_true : (a b : Bool) → (a && b) ≡ true → (a ≡ true) × (b ≡ true)
and_true true b h = (refl, h)
and_true false b h = ground arith

same_number : (n : ℕ) → (n == n) ≡ true
same_number n = ground arith

pub bytes_eq-eq : (a b : Str) → bytes_eq a b ≡ true → a ≡ b
bytes_eq-eq [] [] h = refl
bytes_eq-eq [] (y ∷ ys) h = ground arith
bytes_eq-eq (x ∷ xs) [] h = ground arith
bytes_eq-eq (x ∷ xs) (y ∷ ys) h =
    let e = and_true (x == y) (bytes_eq xs ys) h in
    ap₂ (λ b l. b ∷ l) ((==_iff x y).0 e.0) (bytes_eq-eq xs ys e.1)

bytes_eq_refl : (a : Str) → bytes_eq a a ≡ true
bytes_eq_refl [] = refl
bytes_eq_refl (x ∷ xs) = simp (same_number x, bytes_eq_refl xs) refl

same_string-eq : (a b : CStr) → same_string a b ≡ true → a ≡ b
same_string-eq none none h = refl
same_string-eq none (some b) h = ground arith
same_string-eq (some a) none h = ground arith
same_string-eq (some a) (some b) h = ap (λ x. some x) (bytes_eq-eq a b h)

same_string_refl : (a : CStr) → same_string a a ≡ true
same_string_refl none = refl
same_string_refl (some a) = bytes_eq_refl a

step_zero : (b : Bool) (n : ℕ) → (if not b then 1 else n) ≡ 0 → (b ≡ true) × (n ≡ 0)
step_zero true n h = (refl, h)
step_zero false n h = ground arith

disk_config_cmp-equal : (a b : Disk) → disk_config_cmp false (some a) (some b) ≡ 0 → a ≡ b
unfolding disk_config_cmp
disk_config_cmp-equal a b h =
    let h0 = step_zero (same_string a.int_dev b.int_dev) _ h in
    let h1 = step_zero (same_string a.ext_dev b.ext_dev) _ h0.1 in
    let h2 = step_zero (same_string a.mode b.mode) _ h1.1 in
    let h3 = step_zero (same_string a.type b.type) _ h2.1 in
    let h4 = step_zero (same_string a.partition_type b.partition_type) _ h3.1 in
    let h5 = step_zero (same_string a.mapped_dev b.mapped_dev) _ h4.1 in
    let h6 = step_zero (a.num_sectors == b.num_sectors) _ h5.1 in
    let h7 = step_zero (a.size_sector == b.size_sector) _ h6.1 in
    let h8 = step_zero (a.start_sector == b.start_sector) _ h7.1 in
    let h9 = step_zero (a.capacity == b.capacity) _ h8.1 in
    let h10 = step_zero (a.block_size == b.block_size) _ h9.1 in
    let e0 = same_string-eq a.int_dev b.int_dev h0.0 in
    let e1 = same_string-eq a.ext_dev b.ext_dev h1.0 in
    let e2 = same_string-eq a.mode b.mode h2.0 in
    let e3 = same_string-eq a.type b.type h3.0 in
    let e4 = same_string-eq a.partition_type b.partition_type h4.0 in
    let e5 = same_string-eq a.mapped_dev b.mapped_dev h5.0 in
    let e6 = (==_iff a.num_sectors b.num_sectors).0 h6.0 in
    let e7 = (==_iff a.size_sector b.size_sector).0 h7.0 in
    let e8 = (==_iff a.start_sector b.start_sector).0 h8.0 in
    let e9 = (==_iff a.capacity b.capacity).0 h9.0 in
    let e10 = (==_iff a.block_size b.block_size).0 h10.0 in
    λ i. record {
      int_dev = e0 i;
      ext_dev = e1 i;
      mode = e2 i;
      type = e3 i;
      partition_type = e4 i;
      mapped_dev = e5 i;
      num_sectors = e6 i;
      size_sector = e7 i;
      start_sector = e8 i;
      capacity = e9 i;
      block_size = e10 i;
    }

disk_config_cmp-same : (a : Disk) → disk_config_cmp false (some a) (some a) ≡ 0
unfolding disk_config_cmp
disk_config_cmp-same a =
    simp
      (
        same_string_refl a.int_dev,
        same_string_refl a.ext_dev,
        same_string_refl a.mode,
        same_string_refl a.type,
        same_string_refl a.partition_type,
        same_string_refl a.mapped_dev,
        same_number a.num_sectors,
        same_number a.size_sector,
        same_number a.start_sector,
        same_number a.capacity,
        same_number a.block_size,
      )
      refl

-- Two different objects compare as 0 exactly where all the fields of the configuration are the same,
-- as far as the fields of type `double` are ordinary numbers.
pub disk_config_cmp-zero : (a b : Disk) → (disk_config_cmp false (some a) (some b) ≡ 0) ↔ (a ≡ b)
disk_config_cmp-zero a b = (
  disk_config_cmp-equal a b,
  λ e. subst (λ x. disk_config_cmp false (some a) (some x) ≡ 0) e (disk_config_cmp-same a),
)
