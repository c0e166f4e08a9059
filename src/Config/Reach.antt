-- ===== src/Config/Reach.antt =====
-- The configurations that the daemon can have, from its start on (src/bin/server.c).
use ezrpc.Base.{
  Bool, true, false, Option, none, some, List, [], ◌∷◌, ◌≡◌, refl, if◌then◌else◌, subst,
}
use ezrpc.Base.{ℕ}
use ezrpc.Base.Int.{ℤ, pos, negsuc}
use ezrpc.Rpc.State.{Str, CStr}
use ezrpc.Config.State.{Config}
use ezrpc.Config.Parse.{Zshare, Outcome, Reader, FileRead, Reparsed, config_parse, config_reparse}
use ezrpc.Config.Server.{
  Loader, Server, ServerEffect, Run, Signal, signal_number, emit_all, and_then, cleanup_exit,
  setup_sigsegv, modules_reload_with, modules_reload_begin, server_client_disc,
  modules_reload_handler, rewind_waiting,
}
use ezrpc.Config.Signals.{signals_handler, hangup, reparsed}
use ezrpc.Config.Start.{Options, initialize_config}

-- Lines that `config_parse` has taken, one after another.
pub data Reads (z : Zshare) : Config → Config → Type 0 where
  done : {c : Config} → Reads z c c
  line :
      {c d e : Config} (name value : Str)
      → config_parse z name value c ≡ Outcome.matched d
      → Reads z d e
      → Reads z c e

-- What is relied on of `zshare_config_parse`: it writes to the configuration only through its
-- callback.
abbrev pub IsReader : Zshare → Reader → Type 0
IsReader z read = (path : CStr) (c d : Config) → read path c ≡ FileRead.parsed d → Reads z c d

pub data Reachable (prefix : Str) (read : Reader) : Server → Type 0 where
  start :
      (getopt : Option Options) (s : Server)
      → initialize_config prefix read getopt ≡ some s.config
      → Reachable prefix read s
  signal :
      (m : Loader) (sig : Signal) (current : ℤ) (s t : Server)
      → Reachable prefix read s
      → signals_handler prefix read m sig current s ≡ Run.running t
      → Reachable prefix read t
  disconnect :
      (m : Loader) (s t : Server)
      → Reachable prefix read s
      → server_client_disc m s ≡ Run.running t
      → Reachable prefix read t
  reloaded :
      (data_db : ℕ) (success : Bool) (s : Server)
      → Reachable prefix read s
      → Reachable prefix read (modules_reload_handler data_db success s)

-- What the program may be left with.
data Ends (P : Config → Type 0) : Run → Type 0 where
  exited : {n : ℤ} {t : Server} → Ends P (Run.exited n t)
  running : {t : Server} → P t.config → Ends P (Run.running t)

ended : (P : Config → Type 0) (t : Server) → Ends P (Run.running t) → P t.config
ended P t (Ends.running h) = h

emit_all-config :
    {A : Type 0} (f : A → ServerEffect) (xs : List A) (s : Server)
    → (emit_all f xs s).config ≡ s.config
emit_all-config f [] s = refl
emit_all-config f (x ∷ xs) s = emit_all-config f xs _

rewind_waiting-config : (ms : List ℕ) (s : Server) → (rewind_waiting ms s).config ≡ s.config
rewind_waiting-config [] s = refl
rewind_waiting-config (m ∷ ms) s = rewind_waiting-config ms _

module _ (P : Config → Type 0) where
  if-Ends : (b : Bool) (r t : Run) → Ends P r → Ends P t → Ends P (if b then r else t)
  if-Ends true r t h k = h
  if-Ends false r t h k = k

  and_then-Ends :
      (r : Run) (f : Server → Run)
      → Ends P r
      → ((t : Server) → P t.config → Ends P (f t))
      → Ends P (and_then r f)
  unfolding and_then
  and_then-Ends (Run.exited n s) f h k = Ends.exited
  and_then-Ends (Run.running s) f (Ends.running h) k = k s h

  cleanup_exit-Ends : (n : ℤ) (s : Server) → Ends P (cleanup_exit n s)
  unfolding cleanup_exit
  cleanup_exit-Ends (pos n) s = Ends.exited
  cleanup_exit-Ends (negsuc n) s = if-Ends _ _ _ Ends.exited Ends.exited

  -- The old modules go and the new ones come: the configuration is not touched.
  modules_swapped :
      (added deleted : List Str) (freed : List Str) (s : Server)
      → P s.config
      → P
          (emit_all ServerEffect.module_add added (
            emit_all ServerEffect.module_del deleted
              (emit_all ServerEffect.module_free freed s))).config
  modules_swapped added deleted freed s h =
      simp
        (
          emit_all-config ServerEffect.module_add,
          emit_all-config ServerEffect.module_del,
          emit_all-config ServerEffect.module_free,
        )
        h

  modules_reload_with-Ends :
      (m : Loader) (found : Option (List Str × List Str)) (s : Server)
      → P s.config
      → Ends P (modules_reload_with m found s)
  unfolding modules_reload_with setup_sigsegv
  modules_reload_with-Ends m none s h = cleanup_exit-Ends (pos 1) s
  modules_reload_with-Ends m (some (modules, servlets)) s h =
      if-Ends m.db_init _ _
        (Ends.running (modules_swapped servlets s.servlets s.servlet_modules s h))
        (Ends.running (modules_swapped servlets s.servlets s.servlet_modules s h))

  modules_reload_begin-Ends :
      (m : Loader) (s : Server) → P s.config → Ends P (modules_reload_begin m s)
  unfolding modules_reload_begin
  modules_reload_begin-Ends m s h =
      if-Ends _ _ _ (modules_reload_with-Ends m _ _ h) (Ends.running h)

  server_client_disc-Ends : (m : Loader) (s : Server) → P s.config → Ends P (server_client_disc m s)
  unfolding server_client_disc
  server_client_disc-Ends m s h = if-Ends _ _ _ (modules_reload_begin-Ends m s h) (Ends.running h)

  modules_reload_handler-config :
      (d : ℕ) (success : Bool) (s : Server)
      → P s.config
      → P (modules_reload_handler d success s).config
  unfolding modules_reload_handler
  modules_reload_handler-config d true s h = simp (rewind_waiting-config) h
  modules_reload_handler-config d false s h = simp (rewind_waiting-config) h

  -- The handler of a signal, where a new configuration has the property.
  module _ (prefix : Str) (read : Reader)
      (renewed : (c d : Config)
        → P c
        → config_reparse prefix read c ≡ Reparsed.replaced d
        → P d) where
    reparsed-Ends :
        (r : Reparsed) (s : Server)
        → P s.config
        → ((d : Config) → r ≡ Reparsed.replaced d → P d)
        → Ends P (reparsed r s)
    unfolding reparsed
    reparsed-Ends Reparsed.died s h k = Ends.exited
    reparsed-Ends Reparsed.kept s h k = Ends.running h
    reparsed-Ends (Reparsed.replaced d) s h k = Ends.running (k d refl)

    hangup-Ends :
        (m : Loader) (current : ℤ) (s : Server)
        → P s.config
        → Ends P (hangup prefix read m current s)
    unfolding hangup setup_sigsegv
    hangup-Ends m current s h = if-Ends _ _ _ (Ends.running h) (
        and_then-Ends _ _
          (if-Ends _ _ _ (modules_reload_begin-Ends m s h)
            (reparsed-Ends _ s h (λ d. renewed s.config d h)))
          (λ t k. Ends.running k))

    signals_handler-Ends :
        (m : Loader) (sig : Signal) (current : ℤ) (s : Server)
        → P s.config
        → Ends P (signals_handler prefix read m sig current s)
    unfolding signals_handler
    signals_handler-Ends m Signal.quit current s h = cleanup_exit-Ends (signal_number Signal.quit) s
    signals_handler-Ends m Signal.terminate current s h =
        cleanup_exit-Ends (signal_number Signal.terminate) s
    signals_handler-Ends m Signal.interrupt current s h =
        cleanup_exit-Ends (signal_number Signal.interrupt) s
    signals_handler-Ends m Signal.hangup current s h =
        and_then-Ends _ _ (hangup-Ends m current s h) (λ t k. Ends.running k)
    signals_handler-Ends m Signal.other current s h = Ends.running h

    -- A property of every configuration the daemon has.
    pub Reachable-holds :
        ((getopt : Option Options) (c : Config)
          → initialize_config prefix read getopt ≡ some c
          → P c)
        → (s : Server) → Reachable prefix read s
        → P s.config
    Reachable-holds begun s (Reachable.start getopt _ e) = begun getopt s.config e
    Reachable-holds begun t (Reachable.signal m sig current s _ r e) =
        ended P t
          (subst (Ends P) e (signals_handler-Ends m sig current s (Reachable-holds begun s r)))
    Reachable-holds begun t (Reachable.disconnect m s _ r e) =
        ended P t (subst (Ends P) e (server_client_disc-Ends m s (Reachable-holds begun s r)))
    Reachable-holds begun _ (Reachable.reloaded d success s r) =
        modules_reload_handler-config d success s (Reachable-holds begun s r)
