-- ===== src/Proxy/Relay.antt =====
-- What the proxy promises, a pipe for each direction, and that its loop without SSL implements it.
use ezrpc.Base.{
  ℕ, ◌≡◌, refl, sym, ap, ◌∙◌, if◌then◌else◌, Bool, true, false, List, [], ◌∷◌, ◌++◌, length,
  append-nil,
}
use ezrpc.Proxy.Send.{Attempt}
use ezrpc.Proxy.SendLaws.{data_send-whole}
use ezrpc.Proxy.State.{Phase, Opts, Proxy}
use ezrpc.Proxy.Serve.{
  Reading, Round, pass_to_backend, pass_to_client, client_ready, backend_ready, read_client,
  read_backend, then_backend, serve_round,
}

-- The abstract proxy: all that has come out of the two pipes.
pub record Pipes : Type 0 where
  pub up : List ℕ  -- to the backend
  pub down : List ℕ  -- to the client

abbrev pub pipe : (from_client from_backend : List ℕ) → Pipes → Pipes
pipe a b s = record { up = s.up ++ a; down = s.down ++ b }

abbrev pub view : Proxy → Pipes
view p = record { up = p.to_backend; down = p.to_client }

-- The bytes that a turn reads from a socket.
abbrev pub heard : Bool → Reading → List ℕ
heard true (Reading.bytes bs) = bs
heard _ _ = []

-- The loop over several turns, and its specification.
unfoldable pub serve_rounds : Opts → List Round → Proxy → Proxy
serve_rounds o [] p = p
serve_rounds o (r ∷ rs) p = serve_rounds o rs (serve_round o r p)

abbrev pub pipe_rounds : List Round → Pipes → Pipes
pipe_rounds [] s = s
pipe_rounds (r ∷ rs) s =
    pipe_rounds rs (pipe (heard r.in_client r.from_client) (heard r.in_backend r.from_backend) s)

-- A readable socket gives at least one byte, and the socket across takes what was read at once.
abbrev pub PassesOn : Bool → Reading → List Attempt → Type 0
PassesOn false rd l = Unit
PassesOn true (Reading.bytes (b ∷ bs)) l = l ≡ Attempt.sent (length (b ∷ bs)) ∷ []
PassesOn true _ l = ⊥

-- A turn without an error or a hang-up.
abbrev pub IsQuiet : Round → Type 0
IsQuiet r =
    (r.poll_failed ≡ false)
    × (r.hup_backend ≡ false)
    × (r.hup_proxy ≡ false)
    × (r.hup_client ≡ false)
    × PassesOn r.in_client r.from_client r.sends_backend
    × PassesOn r.in_backend r.from_backend r.sends_client

abbrev pub AreQuiet : List Round → Type 0
AreQuiet [] = Unit
AreQuiet (r ∷ rs) = IsQuiet r × AreQuiet rs

abbrev pub plain : Opts
plain = record { backendssl = false; frontendssl = false }

abbrev sent_up : List ℕ → Proxy → Proxy
sent_up bs p = record p { to_backend = p.to_backend ++ bs }

abbrev sent_down : List ℕ → Proxy → Proxy
sent_down bs p = record p { to_client = p.to_client ++ bs }

pass_to_backend-whole :
    (r : Round) (bs : List ℕ) (p : Proxy)
    → r.sends_backend ≡ Attempt.sent (length bs) ∷ []
    → pass_to_backend plain r bs p ≡ sent_up bs p
unfolding pass_to_backend
pass_to_backend-whole r bs p h = simp (h, data_send-whole bs) refl

pass_to_client-whole :
    (r : Round) (bs : List ℕ) (p : Proxy)
    → r.sends_client ≡ Attempt.sent (length bs) ∷ []
    → pass_to_client plain r bs p ≡ sent_down bs p
unfolding pass_to_client
pass_to_client-whole r bs p h = simp (h, data_send-whole bs) refl

up-quiet :
    (b : Bool) (rd : Reading) (r : Round) (p : Proxy)
    → PassesOn b rd r.sends_backend
    → (if b then client_ready plain r rd p else p) ≡ sent_up (heard b rd) p
unfolding client_ready
up-quiet false rd r p h = ap (λ l. record p { to_backend = l }) (sym (append-nil p.to_backend))
up-quiet true Reading.read_failed r p h = absurd h
up-quiet true (Reading.bytes []) r p h = absurd h
up-quiet true (Reading.bytes (b ∷ bs)) r p h = pass_to_backend-whole r (b ∷ bs) p h

down-quiet :
    (b : Bool) (rd : Reading) (r : Round) (p : Proxy)
    → PassesOn b rd r.sends_client
    → (if b then backend_ready plain r rd p else p) ≡ sent_down (heard b rd) p
unfolding backend_ready
down-quiet false rd r p h = ap (λ l. record p { to_client = l }) (sym (append-nil p.to_client))
down-quiet true Reading.read_failed r p h = absurd h
down-quiet true (Reading.bytes []) r p h = absurd h
down-quiet true (Reading.bytes (b ∷ bs)) r p h = pass_to_client-whole r (b ∷ bs) p h

then_backend-quiet :
    (r : Round) (ph : Phase) (p : Proxy)
    → ph ≡ Phase.serving
    → PassesOn r.in_backend r.from_backend r.sends_client
    → then_backend plain r ph p ≡ sent_down (heard r.in_backend r.from_backend) p
unfolding then_backend read_backend
then_backend-quiet r ph p e h = rw e (down-quiet r.in_backend r.from_backend r p h)

-- Both halves of a turn, for the state that the first one leaves.
turn_from : Round → Proxy → Proxy
turn_from r p = then_backend plain r p.phase p

serve_round-quiet :
    (r : Round) (p : Proxy)
    → p.phase ≡ Phase.serving
    → IsQuiet r
    → serve_round plain r p
      ≡ sent_down (heard r.in_backend r.from_backend) (sent_up (heard r.in_client r.from_client) p)
unfolding serve_round read_client turn_from
serve_round-quiet r p e (h0, h1, h2, h3, hu, hd) =
    simp (h0, h1, h2, h3)
      (ap (turn_from r) (up-quiet r.in_client r.from_client r p hu)
        ∙ then_backend-quiet r p.phase (sent_up (heard r.in_client r.from_client) p) e hd)

-- Without SSL, and over turns in which nothing fails and each `send` takes all it is given, the
-- loop is a pipe for each direction: what the backend and the client have received is what the
-- pipes deliver, and the loop goes on.
pub serve_rounds-pipes :
    (rs : List Round) (p : Proxy)
    → p.phase ≡ Phase.serving
    → AreQuiet rs
    → (view (serve_rounds plain rs p) ≡ pipe_rounds rs (view p))
      × ((serve_rounds plain rs p).phase ≡ Phase.serving)
unfolding serve_rounds
serve_rounds-pipes [] p e h = (refl, e)
serve_rounds-pipes (r ∷ rs) p e h =
    let one = serve_round-quiet r p e h.0 in
    let q =
      sent_down (heard r.in_backend r.from_backend) (sent_up (heard r.in_client r.from_client) p) in
    let ih = serve_rounds-pipes rs q e h.1 in
    (
      ap (λ u. view (serve_rounds plain rs u)) one ∙ ih.0,
      ap (λ u. (serve_rounds plain rs u).phase) one ∙ ih.1,
    )
