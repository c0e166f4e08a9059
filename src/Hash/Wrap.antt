-- ===== src/Hash/Wrap.antt =====
-- sha1wrap.c: hashes as hexadecimal strings.
use ezrpc.Base.{
  ℕ, ◌/◌, ◌^◌, ◌==◌, bit_and, List, [], ◌∷◌, ◌++◌, Option, none, some, get_or, length, ltb,
  if◌then◌else◌,
}
use ezrpc.Rpc.State.{Str, lit}
use ezrpc.Hash.Sha1.{ShaCtx, sha1_init, sha1_update, sha1_final}

-- `hextab`.
abbrev pub hextab : Str
hextab = lit "0123456789abcdef"

-- The loop of `_sha1_to_string` over the bytes of the hash.
unfoldable pub sha1_to_string : List ℕ → Str
sha1_to_string [] = []
sha1_to_string (x ∷ xs) =
    get_or hextab (bit_and (x / 2 ^ 4) 0x0f) 0
    ∷ get_or hextab (bit_and x 0x0f) 0
    ∷ sha1_to_string xs

-- What `%s` prints of a string: the bytes up to the first 0.
abbrev pub printed : Str → Str
printed [] = []
printed (x ∷ xs) = let rest = printed xs in if x == 0 then [] else x ∷ rest

-- `sha1_buffer`: `none` where `asprintf` reports no byte. Where the two strings have 2^31 bytes or
-- more, `asprintf` fails and the C code hashes a buffer that was never set; the strings are taken to
-- be shorter.
unfoldable pub sha1_buffer : Str → Str → Option Str
sha1_buffer buf1 buf2 =
    let buf = printed buf1 ++ printed buf2 in
    if ltb (length buf) 1
    then none
    else some (sha1_to_string (sha1_final (sha1_update sha1_init buf)).0)

-- The reads of `sha1_file`: one update for each block read.
unfoldable pub update_blocks : ShaCtx → List (List ℕ) → ShaCtx
update_blocks ctx [] = ctx
update_blocks ctx (block ∷ blocks) = update_blocks (sha1_update ctx block) blocks

-- `sha1_file` on the blocks that `read` returns; `none` where the file cannot be opened.
unfoldable pub sha1_file : Option (List (List ℕ)) → Option Str
unfolding update_blocks
sha1_file none = none
sha1_file (some blocks) = some (sha1_to_string (sha1_final (update_blocks sha1_init blocks)).0)
