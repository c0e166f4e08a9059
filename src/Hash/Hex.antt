-- ===== src/Hash/Hex.antt =====
-- The text of a hash: its length, and that no two hashes have one text.
use ezrpc.Base.{
  ℕ, zero, suc, ◌+◌, ◌-◌, ◌*◌, ◌/◌, ◌%◌, ◌^◌, ◌<◌, ◌≡◌, refl, ap, ◌∙◌, arith, List, [], ◌∷◌, ltb,
  if◌then◌else◌, length, get_or, bit_and_fifteen,
}
use ezrpc.Hash.Sha1.{ShaCtx, hash_out, sha1_pad, sha1_final}
use ezrpc.Hash.Wrap.{hextab, sha1_to_string}

-- The bytes of a list.
abbrev pub AreBytes : List ℕ → Type 0
AreBytes [] = 0 < 1
AreBytes (x ∷ xs) = (x < 256) × AreBytes xs

-- What `hextab` is read back by.
abbrev pub digit_value : ℕ → ℕ
digit_value c = if ltb c 58 then c - 48 else c - 87

digit_value-hextab : (n : ℕ) → n < 16 → digit_value (get_or hextab n 0) ≡ n
digit_value-hextab zero h = refl
digit_value-hextab (suc zero) h = refl
digit_value-hextab (suc (suc zero)) h = refl
digit_value-hextab (suc (suc (suc zero))) h = refl
digit_value-hextab (suc (suc (suc (suc zero)))) h = refl
digit_value-hextab (suc (suc (suc (suc (suc zero))))) h = refl
digit_value-hextab (suc (suc (suc (suc (suc (suc zero)))))) h = refl
digit_value-hextab (suc (suc (suc (suc (suc (suc (suc zero))))))) h = refl
digit_value-hextab (suc (suc (suc (suc (suc (suc (suc (suc zero)))))))) h = refl
digit_value-hextab (suc (suc (suc (suc (suc (suc (suc (suc (suc zero))))))))) h = refl
digit_value-hextab (suc (suc (suc (suc (suc (suc (suc (suc (suc (suc zero)))))))))) h = refl
digit_value-hextab (suc (suc (suc (suc (suc (suc (suc (suc (suc (suc (suc zero))))))))))) h = refl
digit_value-hextab (suc (suc (suc (suc (suc (suc (suc (suc (suc (suc (suc (suc zero)))))))))))) h =
    refl
digit_value-hextab
      (suc (suc (suc (suc (suc (suc (suc (suc (suc (suc (suc (suc (suc zero))))))))))))) h =
    refl
digit_value-hextab
      (suc (suc (suc (suc (suc (suc (suc (suc (suc (suc (suc (suc (suc (suc zero)))))))))))))) h =
    refl
digit_value-hextab
      (suc (suc (suc (suc (suc (suc (suc (suc (suc (suc (suc (suc (suc (suc (suc zero)))))))))))))))
      h =
    refl
digit_value-hextab
      (suc
        (suc (suc (suc (suc (suc (suc (suc (suc (suc (suc (suc (suc (suc (suc (suc n))))))))))))))))
      h =
    omega arith

-- Two characters for each byte.
length-sha1_to_string : (xs : List ℕ) → length (sha1_to_string xs) ≡ 2 * length xs
unfolding sha1_to_string
length-sha1_to_string [] = refl
length-sha1_to_string (x ∷ xs) = omega (arith, length-sha1_to_string xs)

-- The text is read back, two characters for a byte.
unfoldable pub string_to_bytes : List ℕ → List ℕ
string_to_bytes (a ∷ b ∷ cs) = (digit_value a * 16 + digit_value b) ∷ string_to_bytes cs
string_to_bytes _ = []

sha1_to_string-roundtrip : (xs : List ℕ) → AreBytes xs → string_to_bytes (sha1_to_string xs) ≡ xs
unfolding sha1_to_string string_to_bytes
sha1_to_string-roundtrip [] h = refl
sha1_to_string-roundtrip (x ∷ xs) h = ground (
  arith,
  bit_and_fifteen (x / 2 ^ 4),
  bit_and_fifteen x,
  digit_value-hextab (x / 2 ^ 4 % 16),
  digit_value-hextab (x % 16),
  sha1_to_string-roundtrip xs,
)

hash_out-AreBytes :
    (n i : ℕ) (h : List ℕ) → AreBytes (hash_out n i h) × (length (hash_out n i h) ≡ n)
unfolding hash_out
hash_out-AreBytes zero i h = (omega arith, refl)
hash_out-AreBytes (suc n) i h =
    let rest = hash_out-AreBytes n (i + 1) _ in ((omega arith, rest.0), ap suc rest.1)

-- The text of a hash has 40 characters, and the 20 bytes of the hash are read back from it, so that
-- two hashes with one text are equal.
pub sha1_final-text :
    (ctx : ShaCtx)
    → (length (sha1_to_string (sha1_final ctx).0) ≡ 40)
      × (string_to_bytes (sha1_to_string (sha1_final ctx).0) ≡ (sha1_final ctx).0)
unfolding sha1_final
sha1_final-text ctx =
    let bytes = hash_out-AreBytes 20 0 (sha1_pad ctx).h in
    (length-sha1_to_string _ ∙ ap (λ n. 2 * n) bytes.1, sha1_to_string-roundtrip _ bytes.0)
