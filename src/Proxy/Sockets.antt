-- ===== src/Proxy/Sockets.antt =====
-- The proxy's states as a step relation, the sockets it holds in each, and how a client that leaves
-- is followed by the next.
use ezrpc.Base.{
  ℕ, ◌≡◌, refl, ◌⊎◌, inl, inr, arith, if◌then◌else◌, Bool, true, false, Option, List, [], ◌∷◌,
}
use ezrpc.Proxy.State.{
  Res, Handle, Phase, Opts, Proxy, is_live, is_freed, assign, release, cleanup_ssl, leave,
  cleanup_exit,
}
use ezrpc.Proxy.Address.{Address, zconnect}
use ezrpc.Proxy.Serve.{
  is_some, go_to, proxy_start, Dialling, restart_backend, Accepting, await_client, Reading, Round,
  hang_up, cleanup, backend_left, pass_to_backend, pass_to_client, client_ready, backend_ready,
  backend_eof, read_client, read_backend, then_backend, serve_round,
}
use ezrpc.Proxy.Relay.{plain}

abbrev pub fresh : Proxy
fresh = record {
  phase = Phase.starting;
  held = λ _. Handle.absent;
  frontend_init = false;
  to_backend = [];
  to_client = [];
  misuses = [];
}

-- The parts of `proxy`, each at the place where it is reached.
pub data Step (o : Opts) : Proxy → Proxy → Type 0 where
  start :
      (p : Proxy) (l : Option (List Address))
      → p.phase ≡ Phase.starting
      → Step o p (proxy_start o l p)
  connect :
      (p : Proxy) (d : Dialling) → p.phase ≡ Phase.connecting → Step o p (restart_backend o d p)
  accept : (p : Proxy) (a : Accepting) → p.phase ≡ Phase.accepting → Step o p (await_client o a p)
  turn : (p : Proxy) (r : Round) → p.phase ≡ Phase.serving → Step o p (serve_round o r p)

pub data Reach (o : Opts) : Proxy → Type 0 where
  here : Reach o fresh
  next : {p q : Proxy} → Reach o p → Step o p q → Reach o q

-- The sockets that are open at each place. `accept` may have failed.
abbrev pub Holds : Phase → (Res → Handle) → Type 0
Holds Phase.starting h =
    (is_live (h Res.proxy_fd) ≡ false)
    × (is_live (h Res.backend_fd) ≡ false)
    × (is_live (h Res.client_fd) ≡ false)
Holds Phase.connecting h =
    (h Res.proxy_fd ≡ Handle.live)
    × (is_live (h Res.backend_fd) ≡ false)
    × (is_live (h Res.client_fd) ≡ false)
Holds Phase.accepting h =
    (h Res.proxy_fd ≡ Handle.live)
    × (h Res.backend_fd ≡ Handle.live)
    × (is_live (h Res.client_fd) ≡ false)
Holds Phase.serving h =
    (h Res.proxy_fd ≡ Handle.live)
    × (h Res.backend_fd ≡ Handle.live)
    × (is_freed (h Res.client_fd) ≡ false)
Holds _ h = Unit

abbrev pub IsSound : Proxy → Type 0
IsSound p = (p.misuses ≡ []) × Holds p.phase p.held

branch-IsSound : (b : Bool) (p q : Proxy) → IsSound p → IsSound q → IsSound (if b then p else q)
branch-IsSound true p q h k = h
branch-IsSound false p q h k = k

cleanup_exit-IsSound : (ok : Bool) (p : Proxy) → p.misuses ≡ [] → IsSound (cleanup_exit plain ok p)
unfolding cleanup_exit leave cleanup_ssl
cleanup_exit-IsSound ok p h = (h, tt)

proxy_start-IsSound :
    (l : Option (List Address)) (p : Proxy)
    → IsSound p
    → p.phase ≡ Phase.starting
    → IsSound (proxy_start plain l p)
unfolding proxy_start assign go_to cleanup_exit leave cleanup_ssl
proxy_start-IsSound l p h k = ground arith

restart_backend-IsSound :
    (d : Dialling) (p : Proxy)
    → IsSound p
    → p.phase ≡ Phase.connecting
    → IsSound (restart_backend plain d p)
unfolding restart_backend assign go_to cleanup_exit leave cleanup_ssl
restart_backend-IsSound d p h k = ground arith

await_client-IsSound :
    (a : Accepting) (p : Proxy)
    → IsSound p
    → p.phase ≡ Phase.accepting
    → IsSound (await_client plain a p)
unfolding await_client assign go_to
await_client-IsSound a p h k = ground arith

hang_up-IsSound : (p : Proxy) → IsSound p → p.phase ≡ Phase.serving → IsSound (hang_up p)
unfolding hang_up release go_to
hang_up-IsSound p h k = ground arith

backend_left-IsSound :
    (b : Bool) (p : Proxy) → IsSound p → p.phase ≡ Phase.serving → IsSound (backend_left plain b p)
unfolding backend_left cleanup cleanup_exit leave cleanup_ssl release
backend_left-IsSound b p h k = ground arith

pass_to_backend-IsSound :
    (r : Round) (bs : List ℕ) (p : Proxy)
    → IsSound p
    → p.phase ≡ Phase.serving
    → IsSound (pass_to_backend plain r bs p)
unfolding pass_to_backend
pass_to_backend-IsSound r bs p h k = ground arith

pass_to_client-IsSound :
    (r : Round) (bs : List ℕ) (p : Proxy)
    → IsSound p
    → p.phase ≡ Phase.serving
    → IsSound (pass_to_client plain r bs p)
unfolding pass_to_client go_to cleanup_exit leave cleanup_ssl
pass_to_client-IsSound r bs p h k = ground arith

client_ready-IsSound :
    (r : Round) (rd : Reading) (p : Proxy)
    → IsSound p
    → p.phase ≡ Phase.serving
    → IsSound (client_ready plain r rd p)
unfolding client_ready
client_ready-IsSound r Reading.read_failed p h k = cleanup_exit-IsSound false p h.0
client_ready-IsSound r (Reading.bytes []) p h k = hang_up-IsSound p h k
client_ready-IsSound r (Reading.bytes (b ∷ bs)) p h k = pass_to_backend-IsSound r (b ∷ bs) p h k

backend_eof-IsSound :
    (r : Round) (p : Proxy) → IsSound p → p.phase ≡ Phase.serving → IsSound (backend_eof plain r p)
unfolding backend_eof release go_to
backend_eof-IsSound r p h k = ground arith

backend_ready-IsSound :
    (r : Round) (rd : Reading) (p : Proxy)
    → IsSound p
    → p.phase ≡ Phase.serving
    → IsSound (backend_ready plain r rd p)
unfolding backend_ready
backend_ready-IsSound r Reading.read_failed p h k = cleanup_exit-IsSound false p h.0
backend_ready-IsSound r (Reading.bytes []) p h k = backend_eof-IsSound r p h k
backend_ready-IsSound r (Reading.bytes (b ∷ bs)) p h k = pass_to_client-IsSound r (b ∷ bs) p h k

then_backend-IsSound :
    (r : Round) (ph : Phase) (p : Proxy)
    → p.phase ≡ ph
    → IsSound p
    → IsSound (then_backend plain r ph p)
unfolding then_backend read_backend
then_backend-IsSound r Phase.serving p e h =
    branch-IsSound r.in_backend _ _ (backend_ready-IsSound r r.from_backend p h e) h
then_backend-IsSound r Phase.starting p e h = h
then_backend-IsSound r Phase.connecting p e h = h
then_backend-IsSound r Phase.accepting p e h = h
then_backend-IsSound r Phase.sending p e h = h
then_backend-IsSound r (Phase.exited b) p e h = h

first_half : Round → Proxy → Proxy
first_half r p = if r.in_client then read_client plain r p else p

first_half-IsSound :
    (r : Round) (b : Bool) (p : Proxy)
    → IsSound p
    → p.phase ≡ Phase.serving
    → IsSound (if b then read_client plain r p else p)
unfolding read_client
first_half-IsSound r true p h k = client_ready-IsSound r r.from_client p h k
first_half-IsSound r false p h k = h

serve_round-IsSound :
    (r : Round) (p : Proxy) → IsSound p → p.phase ≡ Phase.serving → IsSound (serve_round plain r p)
unfolding serve_round first_half
serve_round-IsSound r p h k = branch-IsSound r.poll_failed _ _ (cleanup_exit-IsSound false p h.0) (
    branch-IsSound r.hup_backend _ _ (backend_left-IsSound r.session_backend p h k) (
      branch-IsSound r.hup_proxy _ _ (backend_left-IsSound r.session_backend p h k) (
        branch-IsSound r.hup_client _ _ (hang_up-IsSound p h k) (
          then_backend-IsSound r (first_half r p).phase (first_half r p) refl
            (first_half-IsSound r r.in_client p h k)))))

Step-IsSound : {p q : Proxy} → Step plain p q → IsSound p → IsSound q
Step-IsSound (start p l k) h = proxy_start-IsSound l p h k
Step-IsSound (connect p d k) h = restart_backend-IsSound d p h k
Step-IsSound (accept p a k) h = await_client-IsSound a p h k
Step-IsSound (turn p r k) h = serve_round-IsSound r p h k

-- Without SSL, in every state that the proxy reaches: nothing is closed twice, no open descriptor
-- is overwritten, and the listening socket, the backend's and the client's are open as the place
-- asks.
pub Reach-IsSound : {p : Proxy} → Reach plain p → IsSound p
Reach-IsSound here = (refl, (refl, refl, refl))
Reach-IsSound (next r st) = Step-IsSound st (Reach-IsSound r)

-- The turns on which the client is gone: its socket hangs up, or has no more input.
abbrev pub ClientLeaves : Round → Type 0
ClientLeaves r =
    (r.poll_failed ≡ false)
    × (r.hup_backend ≡ false)
    × (r.hup_proxy ≡ false)
    × ((r.hup_client ≡ true)
        ⊎ ((r.hup_client ≡ false) × (r.in_client ≡ true) × (r.from_client ≡ Reading.bytes [])))

serve_round-hang_up : (r : Round) (p : Proxy) → ClientLeaves r → serve_round plain r p ≡ hang_up p
unfolding serve_round read_client hang_up then_backend client_ready go_to
serve_round-hang_up r p (h0, h1, h2, inl h3) = simp (h0, h1, h2, h3) refl
serve_round-hang_up r p (h0, h1, h2, inr (h3, h4, h5)) = simp (h0, h1, h2, h3, h4, h5) refl

accepted :
    (d : Dialling) (a : Accepting) (p : Proxy)
    → is_some (zconnect false d.addresses).fd ≡ true
    → a.client ≡ true
    → let q = await_client plain a (restart_backend plain d (hang_up p)) in
      (q.phase ≡ Phase.serving)
      × (q.held Res.client_fd ≡ Handle.live)
      × (q.held Res.backend_fd ≡ Handle.live)
unfolding await_client restart_backend assign go_to hang_up release
accepted d a p h k = ground arith

-- A socket that is open is closed.
hang_up-closes :
    (p : Proxy)
    → p.held Res.client_fd ≡ Handle.live
    → p.held Res.backend_fd ≡ Handle.live
    → ((hang_up p).phase ≡ Phase.connecting)
      × ((hang_up p).held Res.client_fd ≡ Handle.freed)
      × ((hang_up p).held Res.backend_fd ≡ Handle.freed)
      × ((hang_up p).misuses ≡ p.misuses)
unfolding hang_up release go_to
hang_up-closes p h k = ground arith

-- Without SSL, a client that hangs up or ends its input is followed by the next one: the turn closes
-- both sockets, each once, and goes back to connecting; once a backend can be reached and a client
-- arrives, the loop is entered again, with both sockets open.
pub serve_round-next_client :
    (r : Round) (d : Dialling) (a : Accepting) (p : Proxy)
    → ClientLeaves r
    → is_some (zconnect false d.addresses).fd ≡ true
    → a.client ≡ true
    → p.held Res.client_fd ≡ Handle.live
    → p.held Res.backend_fd ≡ Handle.live
    → let o = serve_round plain r p in
      let q = await_client plain a (restart_backend plain d o) in
      (o.phase ≡ Phase.connecting)
      × (o.held Res.client_fd ≡ Handle.freed)
      × (o.held Res.backend_fd ≡ Handle.freed)
      × (o.misuses ≡ p.misuses)
      × (q.phase ≡ Phase.serving)
      × (q.held Res.client_fd ≡ Handle.live)
      × (q.held Res.backend_fd ≡ Handle.live)
serve_round-next_client r d a p h k l m n =
    let c = hang_up-closes p m n in
    let e = accepted d a p k l in rw (serve_round-hang_up r p h) (c.0, c.1, c.2, c.3, e.0, e.1, e.2)
