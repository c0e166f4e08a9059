-- ===== src/Auth/Salt.antt =====
-- The salts and passwords that functions-auth.c makes. That `calloc` fails is not modelled.
use ezrpc.Base.{
  ℕ, zero, suc, ◌+◌, ◌-◌, ◌%◌, List, [], ◌∷◌, map, Option, none, some, get_or, length, ltb, leb,
  ◌||◌, ◌==◌, if◌then◌else◌,
}
use ezrpc.Rpc.State.{Str, lit}
use ezrpc.Rpc.Env.{Env}

abbrev pub passwd_chars : Str
passwd_chars =
    lit "0123456789ABCDEFGHIJKLMNOPQRSTUVWXYZabcdefghijklmnopqrstuvwxyz,~:!@#$%&()_+-=[]{};?."

-- `passwdChars[n % (sizeof(passwdChars) - 1)]`.
unfoldable pub passwd_char : ℕ → ℕ
passwd_char n = get_or passwd_chars (n % length passwd_chars) 0

-- The loop of `generate_poor_salt`, `n` characters from index `i`.
unfoldable pub poor_chars : Env → ℕ → ℕ → Str
unfolding passwd_char
poor_chars env zero i = []
poor_chars env (suc n) i = passwd_char (env.random i) ∷ poor_chars env n (i + 1)

-- `generate_poor_salt`.
unfoldable pub generate_poor_salt : Env → ℕ → Str
unfolding poor_chars
generate_poor_salt env length = poor_chars env length 0

-- `abs` of a byte read into a `char`, which is signed.
abbrev pub abs_char : ℕ → ℕ
abs_char b = if ltb b 128 then b else 256 - b

-- The bytes read, or the poor salt where the read fails or is short.
unfoldable pub random_or_poor : Env → ℕ → Option (List ℕ) → Str
random_or_poor env n none = generate_poor_salt env n
random_or_poor env n (some buf) =
    if length buf == n then map (λ b. passwd_char (abs_char b)) buf else generate_poor_salt env n

-- `generate_random_salt`.
unfoldable pub generate_random_salt : Env → ℕ → Option Str
generate_random_salt env n =
    if leb 256 n || ltb n 1 then none else some (random_or_poor env n (env.dev_random n))

abbrev pub min_passwd_len : ℕ
min_passwd_len = 8

-- `generate_passwd`.
unfoldable pub generate_passwd : Env → ℕ → Option Str
generate_passwd env n =
    if leb 256 n || ltb n min_passwd_len then none else generate_random_salt env n
