-- ===== src/Tests/Proxying.antt =====
-- The console proxy.
use ezrpc.Base.{◌≡◌, refl, inl, arith, true, false, some, List, [], ◌∷◌}
use ezrpc.Base.Int.{pos}
use ezrpc.Rpc.State.{lit}
use ezrpc.Proxy.Send.{Attempt, data_send}
use ezrpc.Proxy.SendLaws.{data_send-repeats, data_send-ends}
use ezrpc.Proxy.State.{Res, Handle, Misuse, Phase, Proxy, assign}
use ezrpc.Proxy.Address.{Address, dial_address, dial, zconnect}
use ezrpc.Proxy.Serve.{
  is_some, go_to, proxy_start, Dialling, restart_backend, Accepting, await_client, Reading, Round,
  serve_round, backend_left,
}
use ezrpc.Proxy.Relay.{plain, view, serve_rounds, serve_rounds-pipes}
use ezrpc.Proxy.Sockets.{fresh, Step, Reach, IsSound, Reach-IsSound, serve_round-next_client}
use ezrpc.Proxy.Ssl.{front_only, backend_left-frees_twice}

-- Two bytes, then three: the peer reads "hehel" in place of "hello".
data_send-repeats_example :
    data_send (Attempt.sent 2 ∷ Attempt.sent 3 ∷ []) (lit "hello") 5
    ≡ record { bytes = lit "hehel"; ret = pos 5; done = true }
data_send-repeats_example = data_send-repeats (lit "hello") (2 ∷ 3 ∷ []) refl

abbrev slow_sends : List Attempt
slow_sends = Attempt.sent 1 ∷ Attempt.sent 1 ∷ Attempt.poll_failed ∷ []

data_send-ends_example : (data_send slow_sends (lit "abc") 3).done ≡ true
data_send-ends_example =
    data_send-ends slow_sends (lit "abc") (omega arith, (omega arith, tt)) (omega arith)

abbrev refusing : Address
refusing = record { socket = some 4; binds = true; listens = true; connects = false }

abbrev answering : Address
answering = record { socket = some 5; binds = true; listens = true; connects = true }

-- A turn on which both sockets are readable.
abbrev both_ready : Round
both_ready = record {
  poll_failed = false;
  hup_backend = false;
  hup_proxy = false;
  hup_client = false;
  in_client = true;
  in_backend = true;
  from_client = Reading.bytes (lit "ls");
  from_backend = Reading.bytes (lit "ok!");
  sends_backend = Attempt.sent 2 ∷ [];
  sends_client = Attempt.sent 3 ∷ [];
  ssl_backend = pos 0;
  ssl_client = pos 0;
  session_backend = false;
  session_client = false;
}

abbrev all_live : Proxy
all_live = record {
  phase = Phase.serving;
  held = λ _. Handle.live;
  frontend_init = true;
  to_backend = lit "cd;";
  to_client = [];
  misuses = [];
}

serve_rounds-pipes_example :
    (view (serve_rounds plain (both_ready ∷ both_ready ∷ []) all_live)
      ≡ record { up = lit "cd;lsls"; down = lit "ok!ok!" })
    × ((serve_rounds plain (both_ready ∷ both_ready ∷ []) all_live).phase ≡ Phase.serving)
serve_rounds-pipes_example =
    serve_rounds-pipes (both_ready ∷ both_ready ∷ []) all_live refl
      ((refl, refl, refl, refl, refl, refl), ((refl, refl, refl, refl, refl, refl), tt))

abbrev dialled : Dialling
dialled = record {
  addresses = some (answering ∷ []);
  ctx_ok = true;
  conn_ok = true;
  handshake = true;
  session = false;
}

abbrev arrived : Accepting
arrived = record { client = true; ctx_ok = true; conn_ok = true; handshake = true }

abbrev listening : Proxy
listening = proxy_start plain (some (answering ∷ [])) fresh

listening_phase : listening.phase ≡ Phase.connecting
unfolding proxy_start zconnect dial dial_address go_to assign
listening_phase = refl

Reach-IsSound_example : IsSound (restart_backend plain dialled listening)
Reach-IsSound_example = Reach-IsSound (
    Reach.next (Reach.next Reach.here (Step.start fresh (some (answering ∷ [])) refl))
      (Step.connect listening dialled listening_phase))

abbrev hung_up : Round
hung_up = record both_ready { hup_client = true }

dialled_fd : is_some (zconnect false dialled.addresses).fd ≡ true
unfolding zconnect dial dial_address
dialled_fd = refl

abbrev next_client : Proxy
next_client =
    await_client plain arrived (restart_backend plain dialled (serve_round plain hung_up all_live))

serve_round-next_client_example :
    ((serve_round plain hung_up all_live).phase ≡ Phase.connecting)
    × ((serve_round plain hung_up all_live).held Res.client_fd ≡ Handle.freed)
    × ((serve_round plain hung_up all_live).held Res.backend_fd ≡ Handle.freed)
    × ((serve_round plain hung_up all_live).misuses ≡ [])
    × (next_client.phase ≡ Phase.serving)
    × (next_client.held Res.client_fd ≡ Handle.live)
    × (next_client.held Res.backend_fd ≡ Handle.live)
serve_round-next_client_example =
    serve_round-next_client hung_up dialled arrived all_live (refl, refl, refl, inl refl) dialled_fd
      refl refl refl

backend_left-frees_twice_example :
    (backend_left front_only true all_live).misuses
    ≡ Misuse.freed_twice Res.front_ctx
      ∷ Misuse.freed_twice Res.front_conn
      ∷ Misuse.used Res.front_conn
      ∷ []
backend_left-frees_twice_example = backend_left-frees_twice true all_live refl refl refl refl refl

abbrev cut_off : Round
cut_off = record both_ready {
  sends_backend = Attempt.sent 1 ∷ Attempt.send_failed 0 ∷ [];
  sends_client = Attempt.sent 1 ∷ Attempt.send_failed 0 ∷ [];
}
