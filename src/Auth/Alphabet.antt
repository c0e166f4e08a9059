-- ===== src/Auth/Alphabet.antt =====
-- The salts and passwords of functions-auth.c: their length and their characters.
use ezrpc.Base.{
  ℕ, zero, suc, ◌+◌, ◌%◌, ◌≤◌, ◌<◌, ◌≡◌, refl, ◌⊎◌, arith, Bool, true, false, ◌==◌, if◌then◌else◌,
  List, [], ◌∷◌, map, length, Option, none, some, get_or,
}
use ezrpc.Rpc.State.{Str}
use ezrpc.Rpc.Env.{Env}
use ezrpc.Auth.Salt.{
  passwd_chars, passwd_char, poor_chars, generate_poor_salt, abs_char, generate_random_salt,
  random_or_poor, generate_passwd,
}

abbrev pub elem : ℕ → Str → Bool
elem c [] = false
elem c (x ∷ xs) = let rest = elem c xs in if c == x then true else rest

abbrev pub all_in : Str → Str → Bool
all_in alphabet [] = true
all_in alphabet (c ∷ cs) = let rest = all_in alphabet cs in if elem c alphabet then rest else false

elem-get_or : (xs : Str) (i : ℕ) → i < length xs → elem (get_or xs i 0) xs ≡ true
elem-get_or [] i h = ground arith
elem-get_or (x ∷ xs) zero h = ground arith
elem-get_or (x ∷ xs) (suc i) h = ground (arith, elem-get_or xs i)

passwd_char-elem : (n : ℕ) → elem (passwd_char n) passwd_chars ≡ true
unfolding passwd_char
passwd_char-elem n = elem-get_or passwd_chars (n % length passwd_chars) (omega arith)

-- A string of `n` characters of the alphabet.
pub record IsSalt (n : ℕ) (s : Str) : Type 0 where
  pub same_length : length s ≡ n
  pub alphabet : all_in passwd_chars s ≡ true

poor_chars-IsSalt : (env : Env) (n i : ℕ) → IsSalt n (poor_chars env n i)
unfolding poor_chars
poor_chars-IsSalt env zero i = record { same_length = refl; alphabet = refl }
poor_chars-IsSalt env (suc n) i =
    ground (arith, poor_chars-IsSalt env n (i + 1), passwd_char-elem (env.random i))

map-IsSalt : (buf : Str) → IsSalt (length buf) (map (λ b. passwd_char (abs_char b)) buf)
map-IsSalt [] = record { same_length = refl; alphabet = refl }
map-IsSalt (b ∷ bs) = ground (arith, map-IsSalt bs, passwd_char-elem (abs_char b))

random_or_poor-IsSalt :
    (env : Env) (n : ℕ) (o : Option (List ℕ)) → IsSalt n (random_or_poor env n o)
unfolding random_or_poor generate_poor_salt
random_or_poor-IsSalt env n none = poor_chars-IsSalt env n 0
random_or_poor-IsSalt env n (some buf) = ground (arith, poor_chars-IsSalt env n 0, map-IsSalt buf)

-- A salt is made for exactly the lengths from 1 to 255, and it is that long and of the alphabet,
-- also where /dev/random fails or reads short.
pub generate_random_salt-IsSalt :
    (env : Env) (n : ℕ)
    → ((generate_random_salt env n ≡ none) × ((n ≡ 0) ⊎ (256 ≤ n)))
      ⊎ ((s : Str) × (generate_random_salt env n ≡ some s) × IsSalt n s × (0 < n) × (n < 256))
unfolding generate_random_salt
generate_random_salt-IsSalt env n = ground (arith, random_or_poor-IsSalt env n (env.dev_random n))

-- A password is made for exactly the lengths from 8 to 255, and it is that long and of the alphabet.
pub generate_passwd-IsSalt :
    (env : Env) (n : ℕ)
    → ((generate_passwd env n ≡ none) × ((n < 8) ⊎ (256 ≤ n)))
      ⊎ ((s : Str) × (generate_passwd env n ≡ some s) × IsSalt n s × (8 ≤ n) × (n < 256))
unfolding generate_passwd
generate_passwd-IsSalt env n = ground (arith, generate_random_salt-IsSalt env n)
