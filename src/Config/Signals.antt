-- ===== src/Config/Signals.antt =====
-- `signals_handler` and `signals_setup` of src/bin/server.c.
use ezrpc.Base.{Bool, true, false, if◌then◌else◌}
use ezrpc.Base.Int.{ℤ, pos, ltb_ℤ, ◌-ℤ◌}
use ezrpc.Rpc.State.{Str}
use ezrpc.Config.Parse.{Reader, Reparsed, config_reparse}
use ezrpc.Config.Server.{
  Loader, Server, Run, Signal, signal_number, and_then, cleanup_exit, modules_reload_begin,
  setup_sigsegv,
}

-- The new configuration in the place of the old one.
unfoldable pub reparsed : Reparsed → Server → Run
reparsed Reparsed.died s = Run.exited (pos 1) s
reparsed Reparsed.kept s = Run.running s
reparsed (Reparsed.replaced c) s = Run.running (record s { config = c })

-- The branch of SIGHUP, `current` the time and `s.last` that of the signal before.
unfoldable pub hangup : Str → Reader → Loader → ℤ → Server → Run
unfolding reparsed config_reparse modules_reload_begin setup_sigsegv and_then
hangup prefix read m current s =
    if s.reload_modules
    then Run.running s
    else and_then
        (if ltb_ℤ (current -ℤ s.last) (pos 5)
          then modules_reload_begin m s
          else reparsed (config_reparse prefix read s.config) s)
        (λ t. Run.running (setup_sigsegv t))

-- `last = current`.
abbrev pub stamp : ℤ → Server → Run
stamp current s = Run.running (record s { last = current })

-- `signals_handler`.
unfoldable pub signals_handler : Str → Reader → Loader → Signal → ℤ → Server → Run
unfolding hangup and_then cleanup_exit
signals_handler prefix read m Signal.quit current s = cleanup_exit (signal_number Signal.quit) s
signals_handler prefix read m Signal.terminate current s =
    cleanup_exit (signal_number Signal.terminate) s
signals_handler prefix read m Signal.interrupt current s =
    cleanup_exit (signal_number Signal.interrupt) s
signals_handler prefix read m Signal.hangup current s =
    and_then (hangup prefix read m current s) (stamp current)
signals_handler prefix read m Signal.other current s = stamp current s

-- The mask of `signals_setup`: `sigfillset` less four signals.
abbrev pub is_blocked : Signal → Bool
is_blocked Signal.terminate = false
is_blocked Signal.interrupt = false
is_blocked Signal.hangup = false
is_blocked Signal.quit = true
is_blocked Signal.other = true
