-- ===== src/Proxy/State.antt =====
-- The globals of zproxy.c: the descriptors and SSL objects with what has been done with them, the
-- bytes passed on, and `cleanup_ssl`, `cleanup_exit` and `ssl_teardown`.
--
-- A handle is `absent` (NULL or -1), `live`, or `freed`: its variable still names an object that is
-- gone. What goes wrong with a handle is an entry of `misuses`, the newest first.
use ezrpc.Base.{ℕ, ◌==◌, Bool, true, false, not, List, ◌∷◌, if◌then◌else◌}

pub data Handle : Type 0 where
  absent live freed : Handle

-- proxyfd, backend_host_fd, clientfd, backend_ctx, backend_conn, frontend_ctx, frontend_conn.
pub data Res : Type 0 where
  proxy_fd backend_fd client_fd back_ctx back_conn front_ctx front_conn : Res

pub data Misuse : Type 0 where
  used : Res → Misuse  -- passed to a function while NULL or freed
  freed_twice : Res → Misuse  -- freed or closed again
  lost : Res → Misuse  -- overwritten while live

-- Where the process stands: before `zconnect` of the front end, at `restartbackend`, before
-- `accept`, in the loop, in a `data_send` that has not returned, or after `exit`.
pub data Phase : Type 0 where
  starting connecting accepting serving sending : Phase
  exited : Bool → Phase

pub record Opts : Type 0 where
  pub backendssl : Bool
  pub frontendssl : Bool

pub record Proxy : Type 0 where
  pub phase : Phase
  pub held : Res → Handle
  pub frontend_init : Bool  -- frontendsslinit
  pub to_backend : List ℕ  -- the bytes that backends have taken
  pub to_client : List ℕ
  pub misuses : List Misuse

abbrev pub res_index : Res → ℕ
res_index Res.proxy_fd = 0
res_index Res.backend_fd = 1
res_index Res.client_fd = 2
res_index Res.back_ctx = 3
res_index Res.back_conn = 4
res_index Res.front_ctx = 5
res_index Res.front_conn = 6

abbrev pub is_live : Handle → Bool
is_live Handle.live = true
is_live _ = false

abbrev pub is_freed : Handle → Bool
is_freed Handle.freed = true
is_freed _ = false

-- The test of a pointer against NULL.
abbrev pub non_null : Handle → Bool
non_null Handle.absent = false
non_null _ = true

abbrev pub put : Res → Handle → (Res → Handle) → Res → Handle
put r h f q = if res_index q == res_index r then h else f q

abbrev pub blame : Bool → Misuse → List Misuse → List Misuse
blame b m ms = if b then m ∷ ms else ms

-- The variable is set to a new object, or to NULL or -1 where the call failed.
unfoldable pub assign : Res → Bool → Proxy → Proxy
assign r ok p = record p {
  held = put r (if ok then Handle.live else Handle.absent) p.held;
  misuses = blame (is_live (p.held r)) (Misuse.lost r) p.misuses;
}

-- `close`, `SSL_free` and `SSL_CTX_free`.
unfoldable pub release : Res → Proxy → Proxy
release r p = record p {
  held = put r (if non_null (p.held r) then Handle.freed else Handle.absent) p.held;
  misuses = blame (is_freed (p.held r)) (Misuse.freed_twice r) p.misuses;
}

-- Any other call that is passed the object.
unfoldable pub use_of : Res → Proxy → Proxy
use_of r p = record p { misuses = blame (not (is_live (p.held r))) (Misuse.used r) p.misuses }

unfoldable pub release_conn : Res → Proxy → Proxy
release_conn r p = if non_null (p.held r) then release r (use_of r p) else p

unfoldable pub release_ctx : Res → Proxy → Proxy
release_ctx r p = if non_null (p.held r) then release r p else p

unfoldable pub cleanup_ssl : Opts → Proxy → Proxy
cleanup_ssl o p =
    let q =
      if o.frontendssl then release_ctx Res.front_ctx (release_conn Res.front_conn p) else p in
    if o.backendssl then release_ctx Res.back_ctx (release_conn Res.back_conn q) else q

unfoldable pub leave : Bool → Proxy → Proxy
leave ok p = record p { phase = Phase.exited ok }

unfoldable pub cleanup_exit : Opts → Bool → Proxy → Proxy
cleanup_exit o ok p = leave ok (cleanup_ssl o p)

-- `session` tells whether `SSL_get_session` finds a session, which is then removed from the context.
unfoldable pub ssl_teardown : (ctx conn : Res) (session : Bool) → Proxy → Proxy
ssl_teardown ctx conn session p =
    let q = use_of conn p in
    let r = if session then use_of ctx q else q in
    if non_null (r.held conn) then release conn r else r
