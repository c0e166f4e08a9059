-- ===== src/Proxy/SendLaws.antt =====
-- What the peer receives from `data_send`, and that the loop ends.
use ezrpc.Base.{
  ℕ, zero, suc, ◌+◌, ◌-◌, ◌≤◌, ◌<◌, ◌≡◌, refl, ap, ◌∙◌, true, List, [], ◌∷◌, ◌++◌, map, length,
  take, append-nil, arith,
}
use ezrpc.Base.Int.{pos}
use ezrpc.Proxy.Send.{Attempt, send_loop, data_send}

-- The first bytes of `buf`, over again for each of the sizes.
abbrev pub repeats : List ℕ → List ℕ → List ℕ
repeats buf [] = []
repeats buf (n ∷ ns) = take n buf ++ repeats buf ns

abbrev pub total : List ℕ → ℕ
total [] = 0
total (n ∷ ns) = n + total ns

repeats-zero : (buf ns : List ℕ) → total ns ≡ 0 → repeats buf ns ≡ []
repeats-zero buf [] h = refl
repeats-zero buf (zero ∷ ns) h = repeats-zero buf ns (omega arith)
repeats-zero buf (suc n ∷ ns) h = ground arith

send_loop-repeats :
    (buf ns : List ℕ) (len ret : ℕ)
    → total ns ≡ len
    → send_loop (map Attempt.sent ns) buf len ret
      ≡ record { bytes = repeats buf ns; ret = pos (ret + len); done = true }
unfolding send_loop
send_loop-repeats buf ns zero ret h =
    rw (repeats-zero buf ns h)
      (ap (λ r. record { bytes = []; ret = pos r; done = true }) (omega arith))
send_loop-repeats buf [] (suc len) ret h = ground arith
send_loop-repeats buf (n ∷ ns) (suc len) ret h =
    let rest = send_loop-repeats buf ns (suc len - n) (ret + n) (omega arith) in
    rw rest
      (ap (λ r. record { bytes = repeats buf (n ∷ ns); ret = pos r; done = true }) (omega arith))

-- Where the socket takes `buf` in pieces of the sizes `ns`, the call returns its whole length, and
-- the peer has received the first bytes of `buf` once for each piece.
pub data_send-repeats :
    (buf ns : List ℕ)
    → total ns ≡ length buf
    → data_send (map Attempt.sent ns) buf (length buf)
      ≡ record { bytes = repeats buf ns; ret = pos (length buf); done = true }
unfolding data_send
data_send-repeats buf ns h =
    send_loop-repeats buf ns (length buf) 0 h
    ∙ ap (λ r. record { bytes = repeats buf ns; ret = pos r; done = true }) (omega arith)

take-length : (buf : List ℕ) → take (length buf) buf ≡ buf
take-length [] = refl
take-length (x ∷ xs) = ap (λ l. x ∷ l) (take-length xs)

-- A socket that takes everything at once receives the data.
pub data_send-whole :
    (buf : List ℕ)
    → data_send (Attempt.sent (length buf) ∷ []) buf (length buf)
      ≡ record { bytes = buf; ret = pos (length buf); done = true }
data_send-whole buf =
    data_send-repeats buf (length buf ∷ []) (omega arith)
    ∙ ap (λ b. record { bytes = b; ret = pos (length buf); done = true })
        (append-nil (take (length buf) buf) ∙ take-length buf)

-- Every answer of `send` that is no error is of one byte at least.
abbrev pub Advances : List Attempt → Type 0
Advances [] = Unit
Advances (Attempt.sent n ∷ todo) = (0 < n) × Advances todo
Advances (a ∷ todo) = Advances todo

send_loop-ends :
    (todo : List Attempt) (buf : List ℕ) (len ret : ℕ)
    → Advances todo
    → len ≤ length todo
    → (send_loop todo buf len ret).done ≡ true
unfolding send_loop
send_loop-ends todo buf zero ret h k = refl
send_loop-ends [] buf (suc len) ret h k = ground arith
send_loop-ends (Attempt.poll_failed ∷ todo) buf (suc len) ret h k = refl
send_loop-ends (Attempt.send_failed n ∷ todo) buf (suc len) ret h k = refl
send_loop-ends (Attempt.sent n ∷ todo) buf (suc len) ret h k =
    send_loop-ends todo buf (suc len - n) (ret + n) h.1 (omega (arith, h.0))

-- Where every successful `send` takes at least one byte, the call returns after at most as many
-- turns as there are bytes.
pub data_send-ends :
    (todo : List Attempt) (buf : List ℕ)
    → Advances todo
    → length buf ≤ length todo
    → (data_send todo buf (length buf)).done ≡ true
unfolding data_send
data_send-ends todo buf h k = send_loop-ends todo buf (length buf) 0 h k
