-- ===== src/Hash/Feed.antt =====
-- How `SHA1_Update2` and `SHA1_Final2` of sha1.c take their input: the counters are right, and the padding ends.
use ezrpc.Base.{
  ℕ, zero, suc, ◌+◌, ◌-◌, ◌*◌, ◌%◌, ◌^◌, ◌≤◌, ◌<◌, ◌≡◌, refl, arith, ◌==◌, if◌then◌else◌, List, [],
  ◌∷◌, length,
}
use ezrpc.Hash.Sha1.{
  ShaCtx, sha1_init, sha_hash_block, store_byte, end_block, count_bits, update_byte, sha1_update,
  pad_zeros, pad_len, sha1_pad,
}

-- The counters of a context that has taken `n` bytes.
pub record HasTaken (n : ℕ) (ctx : ShaCtx) : Type 0 where
  pub position : ctx.len_w ≡ n % 64
  pub lo_bound : ctx.size_lo < 2 ^ 32
  pub total : ctx.size_hi * 2 ^ 32 + ctx.size_lo ≡ n * 8 % 2 ^ 64

sha_hash_block-sizes :
    (ctx : ShaCtx)
    → ((sha_hash_block ctx).size_hi ≡ ctx.size_hi) × ((sha_hash_block ctx).size_lo ≡ ctx.size_lo)
unfolding sha_hash_block
sha_hash_block-sizes ctx = (refl, refl)

-- What one byte does to the counters.
end_block-sizes :
    (ctx : ShaCtx)
    → ((end_block ctx).size_hi ≡ ctx.size_hi)
      × ((end_block ctx).size_lo ≡ ctx.size_lo)
      × ((end_block ctx).len_w ≡ (if ctx.len_w % 64 == 0 then 0 else ctx.len_w))
unfolding end_block
end_block-sizes ctx = ground (arith, sha_hash_block-sizes ctx)

store_byte-sizes :
    (ctx : ShaCtx) (x : ℕ)
    → ((store_byte ctx x).size_hi ≡ ctx.size_hi)
      × ((store_byte ctx x).size_lo ≡ ctx.size_lo)
      × ((store_byte ctx x).len_w ≡ ctx.len_w + 1)
unfolding store_byte
store_byte-sizes ctx x = (refl, refl, refl)

count_bits-sizes :
    (ctx : ShaCtx) (n : ℕ)
    → ctx.size_lo < 2 ^ 32
    → ctx.size_hi * 2 ^ 32 + ctx.size_lo ≡ n * 8 % 2 ^ 64
    → ((count_bits ctx).len_w ≡ ctx.len_w)
      × ((count_bits ctx).size_lo < 2 ^ 32)
      × ((count_bits ctx).size_hi * 2 ^ 32 + (count_bits ctx).size_lo ≡ (n + 1) * 8 % 2 ^ 64)
unfolding count_bits
count_bits-sizes ctx n h k = ground arith

update_byte-HasTaken :
    (n : ℕ) (ctx : ShaCtx) (x : ℕ) → HasTaken n ctx → HasTaken (n + 1) (update_byte ctx x)
unfolding update_byte
update_byte-HasTaken n ctx x h = ground (
  arith,
  store_byte-sizes ctx x,
  end_block-sizes (store_byte ctx x),
  count_bits-sizes (end_block (store_byte ctx x)) n,
)

sha1_update-HasTaken :
    (n : ℕ) (ctx : ShaCtx) (xs : List ℕ)
    → HasTaken n ctx
    → HasTaken (n + length xs) (sha1_update ctx xs)
unfolding sha1_update
sha1_update-HasTaken n ctx [] h = ground arith
sha1_update-HasTaken n ctx (x ∷ xs) h =
    ground
      (arith, sha1_update-HasTaken (n + 1) (update_byte ctx x) xs, update_byte-HasTaken n ctx x h)

-- After any input the context stands at the input's length modulo the block, and its two size words
-- hold the number of bits modulo 2^64.
pub sha1_init-HasTaken : (xs : List ℕ) → HasTaken (length xs) (sha1_update sha1_init xs)
unfolding sha1_init
sha1_init-HasTaken xs = ground (
  arith,
  sha1_update-HasTaken 0 sha1_init xs
      (record { position = refl; lo_bound = omega arith; total = refl }),
)

update_byte-len_w :
    (ctx : ShaCtx) (x : ℕ) → ctx.len_w < 64 → (update_byte ctx x).len_w ≡ (ctx.len_w + 1) % 64
unfolding update_byte count_bits
update_byte-len_w ctx x h =
    ground (arith, store_byte-sizes ctx x, end_block-sizes (store_byte ctx x))

sha1_update-len_w :
    (ctx : ShaCtx) (xs : List ℕ)
    → ctx.len_w < 64
    → (sha1_update ctx xs).len_w ≡ (ctx.len_w + length xs) % 64
unfolding sha1_update
sha1_update-len_w ctx [] h = ground arith
sha1_update-len_w ctx (x ∷ xs) h =
    ground (arith, sha1_update-len_w (update_byte ctx x) xs, update_byte-len_w ctx x h)

-- The bytes of padding that are still to be fed.
abbrev pub missing : ℕ → ℕ
missing len_w = (120 - len_w) % 64

pad_zeros-len_w :
    (f : ℕ) (ctx : ShaCtx) → ctx.len_w < 64 → missing ctx.len_w ≤ f → (pad_zeros f ctx).len_w ≡ 56
unfolding pad_zeros
pad_zeros-len_w zero ctx h k = ground arith
pad_zeros-len_w (suc f) ctx h k =
    ground (arith, update_byte-len_w ctx 0, pad_zeros-len_w f (update_byte ctx 0))

pad_zeros-fuel :
    (f g : ℕ) (ctx : ShaCtx)
    → ctx.len_w < 64
    → missing ctx.len_w ≤ f
    → missing ctx.len_w ≤ g
    → pad_zeros f ctx ≡ pad_zeros g ctx
unfolding pad_zeros
pad_zeros-fuel zero zero ctx h k l = refl
pad_zeros-fuel zero (suc g) ctx h k l = ground arith
pad_zeros-fuel (suc f) zero ctx h k l = ground arith
pad_zeros-fuel (suc f) (suc g) ctx h k l =
    ground (arith, update_byte-len_w ctx 0, pad_zeros-fuel f g (update_byte ctx 0))

le_trans : {a b c : ℕ} → a ≤ b → b ≤ c → a ≤ c
le_trans h k = omega arith

length-pad_len : (ctx : ShaCtx) → length (pad_len ctx) ≡ 8
unfolding pad_len
length-pad_len ctx = refl

short : (n : ℕ) → missing n ≤ 64
short n = omega arith

marked-len_w : (ctx : ShaCtx) → ctx.len_w < 64 → (sha1_update ctx (0x80 ∷ [])).len_w < 64
marked-len_w ctx h = ground (arith, sha1_update-len_w ctx (0x80 ∷ []) h)

padded-len_w :
    (ctx : ShaCtx) → ctx.len_w < 64 → (pad_zeros 64 (sha1_update ctx (0x80 ∷ []))).len_w ≡ 56
padded-len_w ctx h = pad_zeros-len_w 64 _ (marked-len_w ctx h) (short _)

sha1_pad-len_w : (ctx : ShaCtx) → ctx.len_w < 64 → (sha1_pad ctx).len_w ≡ 0
unfolding sha1_pad
sha1_pad-len_w ctx h = ground (
  arith,
  sha1_update-len_w (pad_zeros 64 (sha1_update ctx (0x80 ∷ []))) (pad_len ctx),
  length-pad_len ctx,
  padded-len_w ctx h,
)

-- The loop that pads ends for any position in the block: 64 steps reach byte 56, further fuel
-- changes nothing, and the length then fills the block, so that the context stands at a block's
-- start.
pub sha1_pad-ends :
    (ctx : ShaCtx) (f : ℕ)
    → ctx.len_w < 64
    → 64 ≤ f
    → let marked = sha1_update ctx (0x80 ∷ []) in
      ((pad_zeros 64 marked).len_w ≡ 56)
      × (pad_zeros f marked ≡ pad_zeros 64 marked)
      × ((sha1_pad ctx).len_w ≡ 0)
sha1_pad-ends ctx f h k = (
  padded-len_w ctx h,
  pad_zeros-fuel f 64 _ (marked-len_w ctx h) (le_trans (short _) k) (short _),
  sha1_pad-len_w ctx h,
)
