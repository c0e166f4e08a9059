-- ===== src/Hash/Sha1.antt =====
-- sha1.c: the hash context, its block function, and the calls that feed and close it. An
-- `unsigned int` is a number below 2^32; sums and left shifts are cut to 32 bits. `int` counters
-- (`lenW`, `len`) stay far below their limits and are plain numbers.
use ezrpc.Base.{
  ℕ, zero, suc, ◌+◌, ◌-◌, ◌*◌, ◌/◌, ◌%◌, ◌^◌, bit_and, bit_or, bit_xor, List, [], ◌∷◌, get_or, set,
  replicate, ltb, ◌==◌, if◌then◌else◌, true, false,
}

abbrev pub u32_mod : ℕ
u32_mod = 2 ^ 32

-- `SHA_CTX2`.
pub record ShaCtx : Type 0 where
  pub h : List ℕ  -- H[5]
  pub w : List ℕ  -- W[80]
  pub len_w : ℕ
  pub size_hi : ℕ
  pub size_lo : ℕ

abbrev pub h_init : List ℕ
h_init = 0x67452301 ∷ 0xefcdab89 ∷ 0x98badcfe ∷ 0x10325476 ∷ 0xc3d2e1f0 ∷ []

-- `SHA1_Init2`.
unfoldable pub sha1_init : ShaCtx
sha1_init = record { h = h_init; w = replicate 80 0; len_w = 0; size_hi = 0; size_lo = 0 }

-- `SHA_ROT`.
unfoldable pub sha_rot : ℕ → ℕ → ℕ
sha_rot x n = bit_or (x * 2 ^ n % u32_mod) (x / 2 ^ (32 - n))

-- The first loop of `shaHashBlock`: `n` rounds from index `t`.
unfoldable pub expand : ℕ → ℕ → List ℕ → List ℕ
expand zero t w = w
expand (suc n) t w =
    let x =
      bit_xor (bit_xor (bit_xor (get_or w (t - 3) 0) (get_or w (t - 8) 0)) (get_or w (t - 14) 0))
        (get_or w (t - 16) 0) in
    expand n (t + 1) (set w t (sha_rot x 1))

-- The five working variables.
pub record Five : Type 0 where
  pub a : ℕ
  pub b : ℕ
  pub c : ℕ
  pub d : ℕ
  pub e : ℕ

-- The function and the constant of round `t`, one for each of the four loops of twenty.
unfoldable pub round_fn : ℕ → Five → ℕ
round_fn t v =
    if ltb t 20
    then bit_xor (bit_and (bit_xor v.c v.d) v.b) v.d
    else if ltb t 40
    then bit_xor (bit_xor v.b v.c) v.d
    else if ltb t 60
    then bit_or (bit_and v.b v.c) (bit_and v.d (bit_or v.b v.c))
    else bit_xor (bit_xor v.b v.c) v.d

abbrev pub round_const : ℕ → ℕ
round_const t =
    if ltb t 20
    then 0x5a827999
    else if ltb t 40
    then 0x6ed9eba1
    else if ltb t 60
    then 0x8f1bbcdc
    else 0xca62c1d6

-- One round: `TEMP = …; E = D; D = C; C = SHA_ROT(B, 30); B = A; A = TEMP;`.
unfoldable pub round : ℕ → List ℕ → Five → Five
unfolding round_fn sha_rot
round t w v = record {
  a = (sha_rot v.a 5 + round_fn t v + v.e + get_or w t 0 + round_const t) % u32_mod;
  b = v.a;
  c = sha_rot v.b 30;
  d = v.c;
  e = v.d;
}

-- The four loops of rounds, as `n` rounds from round `t`.
unfoldable pub rounds : ℕ → ℕ → List ℕ → Five → Five
unfolding round
rounds zero t w v = v
rounds (suc n) t w v = rounds n (t + 1) w (round t w v)

unfoldable pub five_of : List ℕ → Five
five_of h = record {
  a = get_or h 0 0;
  b = get_or h 1 0;
  c = get_or h 2 0;
  d = get_or h 3 0;
  e = get_or h 4 0;
}

-- `ctx->H[i] += …`.
unfoldable pub add_five : List ℕ → Five → List ℕ
add_five h v =
    (get_or h 0 0 + v.a) % u32_mod
    ∷ (get_or h 1 0 + v.b) % u32_mod
    ∷ (get_or h 2 0 + v.c) % u32_mod
    ∷ (get_or h 3 0 + v.d) % u32_mod
    ∷ (get_or h 4 0 + v.e) % u32_mod
    ∷ []

-- `shaHashBlock`.
unfoldable pub sha_hash_block : ShaCtx → ShaCtx
unfolding expand rounds five_of add_five
sha_hash_block ctx =
    let w = expand 64 16 ctx.w in
    record ctx { h = add_five ctx.h (rounds 80 0 w (five_of ctx.h)); w = w }

-- The two statements on `W` at the head of the loop of `SHA1_Update2`.
unfoldable pub push_byte : List ℕ → ℕ → ℕ → List ℕ
push_byte w len_w x = set w (len_w / 4) (bit_or (get_or w (len_w / 4) 0 * 2 ^ 8 % u32_mod) x)

-- The body of the loop of `SHA1_Update2`: a byte is stored, a full block is hashed, and the bits
-- are counted.
unfoldable pub store_byte : ShaCtx → ℕ → ShaCtx
store_byte ctx x = record ctx { w = push_byte ctx.w ctx.len_w x; len_w = ctx.len_w + 1 }

unfoldable pub end_block : ShaCtx → ShaCtx
end_block ctx =
    if ctx.len_w % 64 == 0
    then (let blocked = sha_hash_block ctx in record blocked { len_w = 0 })
    else ctx

unfoldable pub count_bits : ShaCtx → ShaCtx
count_bits ctx =
    let lo = (ctx.size_lo + 8) % u32_mod in
    record ctx { size_lo = lo; size_hi = (ctx.size_hi + (if ltb lo 8 then 1 else 0)) % u32_mod }

unfoldable pub update_byte : ShaCtx → ℕ → ShaCtx
update_byte ctx x = count_bits (end_block (store_byte ctx x))

-- `SHA1_Update2` over the bytes of `dataIn`.
unfoldable pub sha1_update : ShaCtx → List ℕ → ShaCtx
unfolding update_byte
sha1_update ctx [] = ctx
sha1_update ctx (x ∷ xs) = sha1_update (update_byte ctx x) xs

-- `padlen` of `SHA1_Final2`, read before the padding is fed.
unfoldable pub pad_len : ShaCtx → List ℕ
pad_len ctx =
    bit_and (ctx.size_hi / 2 ^ 24) 255
    ∷ bit_and (ctx.size_hi / 2 ^ 16) 255
    ∷ bit_and (ctx.size_hi / 2 ^ 8) 255
    ∷ bit_and ctx.size_hi 255
    ∷ bit_and (ctx.size_lo / 2 ^ 24) 255
    ∷ bit_and (ctx.size_lo / 2 ^ 16) 255
    ∷ bit_and (ctx.size_lo / 2 ^ 8) 255
    ∷ bit_and ctx.size_lo 255
    ∷ []

-- `while (ctx->lenW != 56) SHA1_Update2(ctx, &pad0x00, 1)`, with fuel.
unfoldable pub pad_zeros : ℕ → ShaCtx → ShaCtx
unfolding update_byte
pad_zeros zero ctx = ctx
pad_zeros (suc f) ctx = elim (ctx.len_w == 56) [
  | true ↦ ctx
  | false ↦ pad_zeros f (update_byte ctx 0)
]

-- The output loop of `SHA1_Final2`, `n` bytes from byte `i`.
unfoldable pub hash_out : ℕ → ℕ → List ℕ → List ℕ
hash_out zero i h = []
hash_out (suc n) i h =
    let x = get_or h (i / 4) 0 in
    x / 2 ^ 24 % 256 ∷ hash_out n (i + 1) (set h (i / 4) (x * 2 ^ 8 % u32_mod))

-- `SHA1_Final2` before its output loop: the padded context.
unfoldable pub sha1_pad : ShaCtx → ShaCtx
unfolding sha1_update pad_zeros pad_len
sha1_pad ctx = sha1_update (pad_zeros 64 (sha1_update ctx (0x80 ∷ []))) (pad_len ctx)

-- `SHA1_Final2`: the hash, and the context that it leaves.
unfoldable pub sha1_final : ShaCtx → List ℕ × ShaCtx
unfolding sha1_pad hash_out sha1_init
sha1_final ctx = (hash_out 20 0 (sha1_pad ctx).h, sha1_init)
