-- ===== src/Proxy/Ssl.antt =====
-- What happens to the SSL objects of zproxy.c where a connection ends.
use ezrpc.Base.{◌≡◌, refl, ap, Bool, true, false, ◌∷◌}
use ezrpc.Proxy.State.{
  Res, Handle, Misuse, Opts, Phase, Proxy, assign, release, use_of, release_conn, release_ctx,
  cleanup_ssl, leave, cleanup_exit, ssl_teardown,
}
use ezrpc.Proxy.Address.{zconnect}
use ezrpc.Proxy.Serve.{
  is_some, go_to, Dialling, restart_backend, Accepting, ssl_setup_accept, accept_conn, accept_ssl,
  await_client, Round, cleanup, backend_left, backend_eof,
}

abbrev pub front_only : Opts
front_only = record { backendssl = false; frontendssl = true }

-- With SSL towards the client only, and every object of the loop live: where the backend or the
-- listening socket hangs up, `cleanup_ssl` runs a second time on what it has freed.
pub backend_left-frees_twice :
    (b : Bool) (p : Proxy)
    → p.held Res.front_conn ≡ Handle.live
    → p.held Res.front_ctx ≡ Handle.live
    → p.held Res.proxy_fd ≡ Handle.live
    → p.held Res.backend_fd ≡ Handle.live
    → p.held Res.client_fd ≡ Handle.live
    → (backend_left front_only b p).misuses
      ≡ Misuse.freed_twice Res.front_ctx
        ∷ Misuse.freed_twice Res.front_conn
        ∷ Misuse.used Res.front_conn
        ∷ p.misuses
unfolding backend_left cleanup cleanup_exit leave cleanup_ssl release_conn release_ctx release
    use_of
backend_left-frees_twice b p h0 h1 h2 h3 h4 = simp (h0, h1, h2, h3, h4) refl

ssl_teardown-live :
    (ctx conn : Res) (session : Bool) (p : Proxy)
    → p.held conn ≡ Handle.live
    → p.held ctx ≡ Handle.live
    → ssl_teardown ctx conn session p ≡ release conn p
unfolding ssl_teardown use_of
ssl_teardown-live ctx conn true p h k = simp (h, k) refl
ssl_teardown-live ctx conn false p h k = simp h refl

abbrev eof_state : Proxy → Proxy
eof_state p =
    go_to Phase.connecting
      (release Res.client_fd (release Res.front_conn (release Res.backend_fd p)))

backend_eof-state :
    (r : Round) (p : Proxy)
    → p.held Res.front_conn ≡ Handle.live
    → p.held Res.front_ctx ≡ Handle.live
    → backend_eof front_only r p ≡ eof_state p
unfolding backend_eof release
backend_eof-state r p h k =
    ap (λ q. go_to Phase.connecting (release Res.client_fd q))
      (ssl_teardown-live Res.front_ctx Res.front_conn r.session_client (release Res.backend_fd p) h
        k)

-- In the same setting, a backend that ends its input, a backend that is reached again and the next
-- client that is accepted free the client's SSL object twice.
pub backend_eof-frees_twice :
    (r : Round) (d : Dialling) (a : Accepting) (p : Proxy)
    → p.held Res.front_conn ≡ Handle.live
    → p.held Res.front_ctx ≡ Handle.live
    → p.held Res.backend_fd ≡ Handle.live
    → p.held Res.client_fd ≡ Handle.live
    → p.frontend_init ≡ true
    → is_some (zconnect false d.addresses).fd ≡ true
    → a.conn_ok ≡ true
    → a.handshake ≡ true
    → (await_client front_only a
        (restart_backend front_only d (backend_eof front_only r p))).misuses
      ≡ Misuse.freed_twice Res.front_conn ∷ p.misuses
unfolding await_client restart_backend accept_ssl accept_conn ssl_setup_accept assign go_to release
    use_of
backend_eof-frees_twice r d a p h0 h1 h2 h3 h4 h5 h6 h7 =
    rw (backend_eof-state r p h0 h1) (simp (h0, h2, h3, h4, h5, h6, h7) refl)
