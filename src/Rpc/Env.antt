-- ===== src/Rpc/Env.antt =====
-- What a handler asks of code outside the repository while it runs: libzshare, Eina, Azy, the C
-- library's clock and number parser, and the database pool. A value of `Env` stands for the answers
-- during one run of one handler.
use ezrpc.Base.{
  ℕ, Bool, true, false, [], ◌∷◌, ◌&&◌, ◌||◌, ◌==◌, Option, none, some, List, [], ◌∷◌, ◌≡◌,
}
use ezrpc.Base.{if◌then◌else◌, length}
use ezrpc.Base.Int.{ℤ}
use ezrpc.Rpc.State.{Str, CStr, Query}
use Prim.Native.Nat.{min}

pub record Env : Type 0 where
  pub sent : Query → Bool  -- the pool takes the query
  pub validate_uuid : CStr → Bool  -- zshare_validate_uuid
  pub validate_ip : CStr → Bool  -- zshare_validate_ip
  pub same : CStr → CStr → Bool  -- !zshare_strcmp
  pub same_nocase : CStr → CStr → Bool  -- !zshare_strcasecmp
  pub strlen_bounded : Str → ℕ → ℕ  -- eina_strlen_bounded
  pub strtol : Str → ℤ  -- strtol(…, NULL, 10), as an int
  pub strtol_failed : Str → Bool  -- errno after it
  pub now : ℤ  -- time(NULL)
  pub header : Str → CStr  -- azy_net_header_get
  pub net_ip : CStr  -- azy_net_ip_get
  pub new_uuid : Str  -- azy_uuid_new
  pub is_get : Bool  -- azy_net_type_get(…) == AZY_NET_TYPE_GET
  pub dev_random : ℕ → Option (List ℕ)  -- that many bytes of /dev/random, none on a failure
  pub random : ℕ → ℕ  -- the n-th value of random() since srandom
  pub pam_start : CStr → Bool  -- PAM_SUCCESS
  pub pam_authenticate : CStr → CStr → Bool  -- PAM_SUCCESS
  pub pam_acct_mgmt : CStr → CStr → Bool  -- PAM_SUCCESS

-- The bytes of two strings are the same. Strings of one stringshare are equal pointers then.
abbrev pub bytes_eq : Str → Str → Bool
bytes_eq [] [] = true
bytes_eq (x ∷ xs) (y ∷ ys) = let rest = bytes_eq xs ys in (x == y) && rest
bytes_eq _ _ = false

abbrev pub starts_with : Str → Str → Bool
starts_with [] s = true
starts_with (p ∷ ps) [] = false
starts_with (p ∷ ps) (x ∷ xs) = let rest = starts_with ps xs in (p == x) && rest

-- `strstr(s, p) != NULL`.
abbrev pub contains : Str → Str → Bool
contains [] p = starts_with p []
contains (x ∷ xs) p = let rest = contains xs p in starts_with p (x ∷ xs) || rest

-- `strrchr(s, c)`: what stands from the last `c` on.
abbrev pub strrchr : ℕ → Str → CStr
strrchr c [] = none
strrchr c (x ∷ xs) = elim (strrchr c xs) [
  | some r ↦ some r
  | none ↦ if x == c then some (x ∷ xs) else none
]

-- The documented behaviour of `eina_strlen_bounded`.
abbrev pub StrlenBounded : Env → Type 0
StrlenBounded env = (s : Str) (n : ℕ) → env.strlen_bounded s n ≡ min (length s) n
