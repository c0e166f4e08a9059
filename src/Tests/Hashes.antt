-- ===== src/Tests/Hashes.antt =====
-- Bytes that are hashed.
use ezrpc.Base.{ℕ, ◌≡◌, ◌<◌, refl, arith, some, [], ◌∷◌, length, List}
use ezrpc.Rpc.State.{lit}
use ezrpc.Hash.Sha1.{
  hash_out, pad_len, update_byte, store_byte, end_block, count_bits, push_byte, sha_hash_block,
  expand, rounds, round, round_fn, sha_rot, five_of, add_five, ShaCtx, sha1_init, sha1_update,
  pad_zeros, sha1_pad, sha1_final,
}
use ezrpc.Hash.Wrap.{sha1_to_string, sha1_buffer}
use ezrpc.Hash.Feed.{HasTaken, sha1_init-HasTaken, sha1_pad-ends}
use ezrpc.Hash.Hex.{string_to_bytes, sha1_final-text}

abbrev abc : List ℕ
abc = lit "abc"

sha1_init-HasTaken_example : HasTaken 3 (sha1_update sha1_init abc)
sha1_init-HasTaken_example = sha1_init-HasTaken abc

abbrev marked : ShaCtx
marked = sha1_update sha1_init (0x80 ∷ [])

init_short : sha1_init.len_w < 64
unfolding sha1_init
init_short = omega arith

sha1_pad-ends_example :
    ((pad_zeros 64 marked).len_w ≡ 56)
    × (pad_zeros 70 marked ≡ pad_zeros 64 marked)
    × ((sha1_pad sha1_init).len_w ≡ 0)
sha1_pad-ends_example = sha1_pad-ends sha1_init 70 init_short (omega arith)

sha1_final-text_example :
    (length (sha1_to_string (sha1_final sha1_init).0) ≡ 40)
    × (string_to_bytes (sha1_to_string (sha1_final sha1_init).0) ≡ (sha1_final sha1_init).0)
sha1_final-text_example = sha1_final-text sha1_init

-- The first test vector of FIPS 180, "abc".
digest_abc :
    sha1_buffer (lit "a") (lit "bc") ≡ some (lit "a9993e364706816aba3e25717850c26c9cd0d89d")
unfolding sha1_buffer sha1_to_string sha1_final hash_out sha1_pad pad_len pad_zeros sha1_update
    update_byte store_byte end_block count_bits push_byte sha_hash_block expand rounds round
    round_fn sha_rot five_of add_five sha1_init
digest_abc = refl
