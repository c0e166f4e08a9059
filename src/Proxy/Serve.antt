-- ===== src/Proxy/Serve.antt =====
-- `proxy`: the front end's socket, the connection to a backend (`restartbackend`), the wait for a
-- client, and the body of the loop that passes bytes on. `ssl_new_conn`, `ssl_setup_conn` and
-- `ssl_setup_accept` are here with the results of the SSL library that they test.
use ezrpc.Base.{
  ℕ, suc, Bool, true, false, not, ◌&&◌, Option, none, some, List, [], ◌∷◌, ◌++◌, length,
  if◌then◌else◌,
}
use ezrpc.Base.Int.{ℤ, pos, negsuc}
use ezrpc.Proxy.Send.{Attempt, data_send}
use ezrpc.Proxy.State.{
  Res, Phase, Opts, Proxy, non_null, assign, release, use_of, cleanup_ssl, leave, cleanup_exit,
  ssl_teardown,
}
use ezrpc.Proxy.Address.{Address, zconnect}

abbrev pub is_some : Option ℕ → Bool
is_some none = false
is_some (some n) = true

unfoldable pub go_to : Phase → Proxy → Proxy
go_to ph p = record p { phase = ph }

-- `proxy`, up to `restartbackend`.
unfoldable pub proxy_start : Opts → Option (List Address) → Proxy → Proxy
proxy_start o l p =
    let q = assign Res.proxy_fd (is_some (zconnect true l).fd) p in
    if is_some (zconnect true l).fd then go_to Phase.connecting q else cleanup_exit o false q

-- What happens while the backend is dialled.
pub record Dialling : Type 0 where
  pub addresses : Option (List Address)
  pub ctx_ok : Bool  -- ssl_ctx_new returns a context
  pub conn_ok : Bool  -- SSL_new and SSL_set_fd succeed
  pub handshake : Bool  -- SSL_connect returns a positive number
  pub session : Bool

unfoldable pub ssl_setup_conn : Opts → Dialling → Proxy → Proxy
ssl_setup_conn o d p =
    let q = use_of Res.back_conn p in
    if d.handshake
    then q
    else leave false (cleanup_ssl o (ssl_teardown Res.back_ctx Res.back_conn d.session q))

unfoldable pub dial_ssl : Opts → Dialling → Proxy → Proxy
dial_ssl o d p =
    let q = assign Res.back_ctx d.ctx_ok p in
    if not d.ctx_ok
    then cleanup_exit o false (cleanup_ssl o q)
    else ssl_setup_conn o d (go_to Phase.accepting (assign Res.back_conn d.conn_ok q))

unfoldable pub restart_backend : Opts → Dialling → Proxy → Proxy
restart_backend o d p =
    let q = assign Res.backend_fd (is_some (zconnect false d.addresses).fd) p in
    if not (is_some (zconnect false d.addresses).fd)
    then cleanup_exit o false q
    else if o.backendssl
    then dial_ssl o d q
    else go_to Phase.accepting q

-- What happens while a client is accepted. The result of `accept` is not tested.
pub record Accepting : Type 0 where
  pub client : Bool  -- accept returns a descriptor
  pub ctx_ok : Bool
  pub conn_ok : Bool
  pub handshake : Bool  -- SSL_accept returns 0 or more

unfoldable pub ssl_setup_accept : Opts → Accepting → Proxy → Proxy
ssl_setup_accept o a p =
    let q = use_of Res.front_conn p in if a.handshake then q else leave false (cleanup_ssl o q)

unfoldable pub accept_conn : Opts → Accepting → Proxy → Proxy
accept_conn o a p =
    let q = if non_null (p.held Res.front_conn) then release Res.front_conn p else p in
    ssl_setup_accept o a (go_to Phase.serving (assign Res.front_conn a.conn_ok q))

unfoldable pub accept_ssl : Opts → Accepting → Proxy → Proxy
accept_ssl o a p =
    let q = assign Res.front_ctx a.ctx_ok p in
    if p.frontend_init
    then accept_conn o a p
    else if not a.ctx_ok
    then cleanup_exit o false (cleanup_ssl o q)
    else accept_conn o a (record q { frontend_init = true })

unfoldable pub await_client : Opts → Accepting → Proxy → Proxy
await_client o a p =
    let q = assign Res.client_fd a.client p in
    if o.frontendssl then accept_ssl o a q else go_to Phase.serving q

-- `read` or `SSL_read`: a negative result, or the bytes read (none at the end of the input).
pub data Reading : Type 0 where
  read_failed : Reading
  bytes : List ℕ → Reading

-- What one turn of the loop observes.
pub record Round : Type 0 where
  pub poll_failed : Bool  -- poll is -1 and errno is not EINTR
  pub hup_backend : Bool
  pub hup_proxy : Bool
  pub hup_client : Bool
  pub in_client : Bool
  pub in_backend : Bool
  pub from_client : Reading
  pub from_backend : Reading
  pub sends_backend : List Attempt  -- for data_send
  pub sends_client : List Attempt  -- for data_send
  pub ssl_backend : ℤ  -- the results of SSL_write
  pub ssl_client : ℤ  -- the results of SSL_write
  pub session_backend : Bool
  pub session_client : Bool

unfoldable pub hang_up : Proxy → Proxy
hang_up p = go_to Phase.connecting (release Res.backend_fd (release Res.client_fd p))

-- The label `cleanup`.
unfoldable pub cleanup : Opts → Proxy → Proxy
cleanup o p =
    let q =
      if o.backendssl then cleanup_ssl o p else if o.frontendssl then cleanup_ssl o p else p in
    cleanup_exit o true (release Res.backend_fd (release Res.proxy_fd (release Res.client_fd q)))

unfoldable pub backend_left : Opts → Bool → Proxy → Proxy
backend_left o session p =
    cleanup o (if o.backendssl then ssl_teardown Res.back_ctx Res.back_conn session p else p)

-- `SSL_write` takes all bytes, or reports an error with a result below 1.
abbrev pub ssl_bytes : ℤ → List ℕ → List ℕ
ssl_bytes (pos (suc n)) bs = bs
ssl_bytes _ bs = []

abbrev pub is_negative : ℤ → Bool
is_negative (pos n) = false
is_negative (negsuc n) = true

abbrev pub pending : Bool → Phase → Phase
pending done ph = if done then ph else Phase.sending

-- The bytes go to the backend; the result is printed only.
unfoldable pub pass_to_backend : Opts → Round → List ℕ → Proxy → Proxy
pass_to_backend o r bs p =
    let sent = data_send r.sends_backend bs (length bs) in
    let q = use_of Res.back_conn p in
    if o.backendssl
    then record q { to_backend = p.to_backend ++ ssl_bytes r.ssl_backend bs }
    else record p { to_backend = p.to_backend ++ sent.bytes; phase = pending sent.done p.phase }

unfoldable pub client_ready : Opts → Round → Reading → Proxy → Proxy
client_ready o r Reading.read_failed p =
    cleanup_exit o false (if o.frontendssl then cleanup_ssl o p else p)
client_ready o r (Reading.bytes []) p = hang_up p
client_ready o r (Reading.bytes (b ∷ bs)) p = pass_to_backend o r (b ∷ bs) p

unfoldable pub pass_to_client : Opts → Round → List ℕ → Proxy → Proxy
pass_to_client o r bs p =
    let sent = data_send r.sends_client bs (length bs) in
    let q = record p { to_client = p.to_client ++ sent.bytes } in
    let u = record (use_of Res.front_conn p) {
      to_client = p.to_client ++ ssl_bytes r.ssl_client bs;
    } in
    if o.frontendssl
    then (if is_negative r.ssl_client then cleanup_exit o false (cleanup_ssl o u) else u)
    else if not sent.done
    then go_to Phase.sending q
    else if is_negative sent.ret
    then cleanup_exit o false q
    else q

unfoldable pub backend_eof : Opts → Round → Proxy → Proxy
backend_eof o r p =
    let q =
      if o.backendssl then ssl_teardown Res.back_ctx Res.back_conn r.session_backend p else p in
    let u = release Res.backend_fd q in
    let v =
      if o.frontendssl then ssl_teardown Res.front_ctx Res.front_conn r.session_client u else u in
    go_to Phase.connecting (release Res.client_fd v)

unfoldable pub backend_ready : Opts → Round → Reading → Proxy → Proxy
backend_ready o r Reading.read_failed p =
    cleanup_exit o false (if o.backendssl then cleanup_ssl o p else p)
backend_ready o r (Reading.bytes []) p = backend_eof o r p
backend_ready o r (Reading.bytes (b ∷ bs)) p = pass_to_client o r (b ∷ bs) p

-- With SSL and no connection object the process leaves before it reads.
unfoldable pub read_backend : Opts → Round → Proxy → Proxy
read_backend o r p =
    if o.backendssl && not (non_null (p.held Res.back_conn))
    then cleanup_exit o false p
    else backend_ready o r r.from_backend (if o.backendssl then use_of Res.back_conn p else p)

unfoldable pub read_client : Opts → Round → Proxy → Proxy
read_client o r p =
    client_ready o r r.from_client (if o.frontendssl then use_of Res.front_conn p else p)

-- The second half of the turn, unless the first has left the loop.
unfoldable pub then_backend : Opts → Round → Phase → Proxy → Proxy
then_backend o r Phase.serving p = if r.in_backend then read_backend o r p else p
then_backend o r _ p = p

unfoldable pub serve_round : Opts → Round → Proxy → Proxy
serve_round o r p =
    let q = if r.in_client then read_client o r p else p in
    if r.poll_failed
    then cleanup_exit o false p
    else if r.hup_backend
    then backend_left o r.session_backend p
    else if r.hup_proxy
    then backend_left o r.session_backend p
    else if r.hup_client
    then hang_up p
    else then_backend o r q.phase q
