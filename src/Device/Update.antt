-- ===== src/Device/Update.antt =====
-- What functions-disk.c and functions-vif.c share: the context of one update of a VM's devices, and
-- how the stored devices are compared with those of the VM.
--
-- What stands here is what the functions do when they are called; `vm_cb_update` never sets them as
-- a job (Machine/Update). `ctx` is a child of the context of the VM's update, `pctx`; its fields stand here with a `p_`.
-- After each answer of the database the job set by `CTX_INT_JOB` or `CTX_BOOL_JOB` runs before the
-- next answer arrives. `eina_list_search_unsorted` returns the first element that compares as 0.
use ezrpc.Base.{
  ℕ, ◌+◌, ◌-◌, ◌%◌, ◌^◌, ◌==◌, Bool, true, false, not, ◌&&◌, ◌||◌, Option, none, some, List, [],
  ◌∷◌, length, if◌then◌else◌,
}
use ezrpc.Rpc.State.{CStr, incr, decr}
use ezrpc.Rpc.Env.{bytes_eq}

-- The calls of the database object, about the VM `vm->uuid`; `undefined` stands where the run reads
-- through a pointer that points to nothing, after which the model says nothing of the program.
pub data Request (A : Type 0) : Type 0 where
  get_latest_revision : ℕ → Request A  -- 2 is disk, 3 is vif
  create : A → Request A
  prune_stats : A → Request A
  update_stats : A → Request A
  update_config : ℕ → A → Request A
  undefined : Request A

pub record DevCtx (A : Type 0) : Type 0 where
  pub devices : List A  -- vm->disks or vm->vifs
  pub count : ℕ
  pub auth : Bool
  pub checked : Bool
  pub error : Bool
  pub requests : List (Request A)  -- the newest first
  pub freed : ℕ  -- how often `ctx` has been freed
  pub p_auth : Bool
  pub p_checked : Bool
  pub p_ret : Bool
  pub p_count : ℕ
  pub p_jobs : ℕ  -- how often the parent's job has been added

module _ {A : Type 0} where
  -- The label `out`.
  unfoldable pub finish : DevCtx A → DevCtx A
  finish s = record s {
    freed = s.freed + 1;
    p_count = decr s.p_count;
    p_jobs = if decr s.p_count == 7 then s.p_jobs + 1 else s.p_jobs;
  }

  -- `if (!ctx->error) return;` before `out`.
  unfoldable pub unless_error : DevCtx A → DevCtx A
  unless_error s = if s.error then finish s else s

  abbrev pub ask : Request A → DevCtx A → DevCtx A
  ask q s = record s { requests = q ∷ s.requests }

  -- An answer arrives, and its job is about to run.
  unfoldable pub answered : DevCtx A → DevCtx A
  answered s = record s { count = incr s.count }

  abbrev pub search : (A → A → ℕ) → List A → A → Option A
  search cmp [] key = none
  search cmp (x ∷ xs) key = if cmp x key == 0 then some x else search cmp xs key

  abbrev pub is_none : Option A → Bool
  is_none none = true
  is_none (some a) = false

  -- Whether a stored device is no longer among the VM's.
  abbrev pub has_gone : (A → A → ℕ) → (stored devices : List A) → Bool
  has_gone cmp [] devices = false
  has_gone cmp (x ∷ xs) devices = is_none (search cmp devices x) || has_gone cmp xs devices

  -- The VM's devices that are not stored, in order.
  abbrev pub keep_new : Option A → A → List A → List A
  keep_new none x rest = x ∷ rest
  keep_new (some y) x rest = rest

  abbrev pub new_ones : (A → A → ℕ) → (stored devices : List A) → List A
  new_ones cmp stored [] = []
  new_ones cmp stored (x ∷ xs) = keep_new (search cmp stored x) x (new_ones cmp stored xs)

  -- Whether a device differs from what is stored of it.
  abbrev pub differs_from : (A → A → ℕ) → Option A → A → Bool
  differs_from cmp none x = false
  differs_from cmp (some y) x = not (cmp y x == 0)

  abbrev pub has_changed : (cmp_key cmp_config : A → A → ℕ) → (stored devices : List A) → Bool
  has_changed key config stored [] = false
  has_changed key config stored (x ∷ xs) =
      differs_from config (search key stored x) x || has_changed key config stored xs

  abbrev pub ask_creates : List A → List (Request A) → List (Request A)
  ask_creates [] l = l
  ask_creates (x ∷ xs) l = ask_creates xs (Request.create x ∷ l)

-- `disks_updateconfig` and `vifs_updateconfig`, which differ in the number `kind`.
module _ {A : Type 0} where
  -- The calls for one device: those about statistics where the parent's `ret` is not set.
  abbrev pub with_stats : (p_ret p_checked : Bool) → A → List (Request A) → List (Request A)
  with_stats true p_checked x l = l
  with_stats false true x l = Request.update_stats x ∷ Request.prune_stats x ∷ l
  with_stats false false x l = Request.update_stats x ∷ l

  -- The loop of case 1. `*rev` reads through the revision's number, which is the parameter that was
  -- stored as a pointer, or through NULL where the number is 0, so the first device ends the run.
  abbrev pub write_all : (p_ret p_checked : Bool) → List A → List (Request A) → List (Request A)
  write_all p_ret p_checked [] l = l
  write_all p_ret p_checked (x ∷ xs) l = Request.undefined ∷ with_stats p_ret p_checked x l

  unfoldable pub updateconfig : (kind : ℕ) → DevCtx A → DevCtx A
  updateconfig kind s =
      if s.count == 0
      then unless_error (ask (Request.get_latest_revision kind) s)
      else if s.count == 1
      then unless_error (record s { requests = write_all s.p_ret s.p_checked s.devices s.requests })
      else if s.count == 1 + length s.devices
      then finish s
      else unless_error s

-- `disk_cb_updateconfig` and `vif_cb_updateconfig`, which differ in the comparisons.
module _ {A : Type 0} (key config : A → A → ℕ) (kind : ℕ) where
  -- The label `default`.
  unfoldable pub cb_default : DevCtx A → DevCtx A
  cb_default s =
      let t = if s.count == 1000 then record s { auth = true; count = 0 } else s in
      unless_error (if t.auth then updateconfig kind t else t)

  abbrev pub mark_all : DevCtx A → DevCtx A
  mark_all s = record s { auth = true; checked = true; p_auth = true }

  -- What follows the two loops of case 0: whether a stored device has gone, whether one has changed,
  -- and the new ones. `count` is an `unsigned int`.
  unfoldable pub cb_decide : (gone changed : Bool) → List A → DevCtx A → DevCtx A
  cb_decide gone changed news s =
      let t = if gone then mark_all s else s in
      let u = record t {
        requests = ask_creates news t.requests;
        checked = t.checked || changed;
        p_auth = t.p_auth || t.checked || changed;
      } in
      if u.checked && length news == 0
      then unless_error (record u { auth = true })
      else cb_default (record u { count = (2 ^ 32 + 1000 - length news) % 2 ^ 32 })

  unfoldable pub cb_compared : List A → DevCtx A → DevCtx A
  cb_compared stored s =
      cb_decide (has_gone key stored s.devices) (has_changed key config stored s.devices)
        (new_ones key stored s.devices) s

  unfoldable pub cb_first : List A → DevCtx A → DevCtx A
  cb_first [] s = if length s.devices == 0 then finish s else unless_error (mark_all s)
  cb_first (x ∷ xs) s =
      if not (length (x ∷ xs) == length s.devices)
      then cb_default (mark_all s)
      else cb_compared (x ∷ xs) s

  unfoldable pub cb_updateconfig : List A → DevCtx A → DevCtx A
  cb_updateconfig stored s = if s.count == 0 then cb_first stored s else cb_default s

-- Two strings of the string share are the same pointer where they have the same bytes.
abbrev pub same_string : CStr → CStr → Bool
same_string none none = true
same_string (some a) (some b) = bytes_eq a b
same_string _ _ = false
