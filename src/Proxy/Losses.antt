-- ===== src/Proxy/Losses.antt =====
-- What becomes of bytes that were read and that the socket across does not take.
use ezrpc.Base.{
  ℕ, suc, ◌+◌, ◌≡◌, zero, ◌-◌, refl, ap, append-nil, true, false, List, [], ◌∷◌, ◌++◌, length, take,
  arith,
}
use ezrpc.Base.Int.{negsuc}
use ezrpc.Proxy.Send.{Attempt, Sending, send_loop, data_send}
use ezrpc.Proxy.State.{Phase, Proxy, leave, cleanup_ssl, cleanup_exit}
use ezrpc.Proxy.Serve.{Round, pass_to_backend, pass_to_client}
use ezrpc.Proxy.Relay.{plain}

cut_short : List ℕ → ℕ → Sending
cut_short bytes k = record { bytes = bytes; ret = negsuc k; done = true }

send_loop-failed :
    (buf : List ℕ) (k len left ret : ℕ)
    → len ≡ suc left
    → send_loop (Attempt.send_failed k ∷ []) buf len ret ≡ cut_short [] k
unfolding send_loop cut_short
send_loop-failed buf k zero left ret e = ground arith
send_loop-failed buf k (suc len) left ret e = refl

send_loop-cut_short :
    (buf : List ℕ) (n k len left ret : ℕ)
    → len ≡ n + suc left
    → send_loop (Attempt.sent n ∷ Attempt.send_failed k ∷ []) buf len ret ≡ cut_short (take n buf) k
unfolding send_loop cut_short
send_loop-cut_short buf n k zero left ret e = ground arith
send_loop-cut_short buf n k (suc len) left ret e =
    simp (send_loop-failed buf k (suc len - n) left (ret + n) (omega arith))
      (ap (λ b. record { bytes = b; ret = negsuc k; done = true }) (append-nil (take n buf)))

-- Where the first `send` takes `n` of the bytes read and the next one fails: towards the backend the
-- loop goes on and the other bytes are lost; towards the client the process ends.
pub pass_to_backend-loses :
    (r s : Round) (bs : List ℕ) (n k left : ℕ) (p : Proxy)
    → length bs ≡ n + suc left
    → r.sends_backend ≡ Attempt.sent n ∷ Attempt.send_failed k ∷ []
    → s.sends_client ≡ Attempt.sent n ∷ Attempt.send_failed k ∷ []
    → (pass_to_backend plain r bs p ≡ record p { to_backend = p.to_backend ++ take n bs })
      × (pass_to_client plain s bs p
          ≡ record p { to_client = p.to_client ++ take n bs; phase = Phase.exited false })
unfolding pass_to_backend pass_to_client data_send cut_short cleanup_exit cleanup_ssl leave
pass_to_backend-loses r s bs n k left p e h l =
    let cut = send_loop-cut_short bs n k (length bs) left 0 e in
    (simp (h, cut) refl, simp (l, cut) refl)
