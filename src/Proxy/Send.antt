-- ===== src/Proxy/Send.antt =====
-- `data_send`: the loop that polls a socket and sends until all bytes are taken.
use ezrpc.Base.{ℕ, zero, suc, ◌+◌, ◌-◌, Bool, true, false, List, [], ◌∷◌, ◌++◌, take}
use ezrpc.Base.Int.{ℤ, pos, negsuc}

-- What `poll` and `send` answer in one turn of the loop. `send_failed n` returns -(n + 1).
pub data Attempt : Type 0 where
  poll_failed : Attempt
  send_failed : ℕ → Attempt
  sent : ℕ → Attempt

-- The bytes that the socket took, the value returned, and whether the call returned: it has not
-- while the answers seen so far leave bytes to send.
pub record Sending : Type 0 where
  pub bytes : List ℕ
  pub ret : ℤ
  pub done : Bool

-- The loop, with `len` bytes left and `ret` sent. Each turn passes `buf` to `send`.
unfoldable pub send_loop : List Attempt → List ℕ → (len ret : ℕ) → Sending
send_loop todo buf zero ret = record { bytes = []; ret = pos ret; done = true }
send_loop [] buf (suc len) ret = record { bytes = []; ret = pos ret; done = false }
send_loop (Attempt.poll_failed ∷ todo) buf (suc len) ret = record {
  bytes = [];
  ret = negsuc 0;
  done = true;
}
send_loop (Attempt.send_failed n ∷ todo) buf (suc len) ret = record {
  bytes = [];
  ret = negsuc n;
  done = true;
}
send_loop (Attempt.sent n ∷ todo) buf (suc len) ret =
    let rest = send_loop todo buf (suc len - n) (ret + n) in
    record rest { bytes = take n buf ++ rest.bytes }

unfoldable pub data_send : List Attempt → List ℕ → ℕ → Sending
data_send todo buf len = send_loop todo buf len 0
