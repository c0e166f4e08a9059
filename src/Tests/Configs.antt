-- ===== src/Tests/Configs.antt =====
-- Runs of the configuration's theorems on a daemon with one line of configuration.
use ezrpc.Base.{ℕ, true, false, none, some, [], ◌∷◌, ◌≡◌, refl, subst, sym}
use ezrpc.Base.Int.{pos, ◌-ℤ◌}
use ezrpc.Rpc.State.{Str, CStr, lit}
use ezrpc.Rpc.Env.{bytes_eq}
use ezrpc.Config.State.{Config, config_new, config_defaults_fill, default_conf_file}
use ezrpc.Config.Parse.{
  Zshare, Outcome, Reader, FileRead, config_parse, config_parse_bools, config_parse_ints,
  config_parse_paths, config_parse_files, or_else, set_boolval, set_intval, set_cfgval,
  config_reparse, config_reparse_with,
}
use ezrpc.Config.Server.{Loader, Server, Run, Signal, setup_sigsegv, and_then}
use ezrpc.Config.Signals.{signals_handler, hangup, reparsed}
use ezrpc.Config.Start.{Options, initialize_config, with_file, with_options, apply_options}
use ezrpc.Config.Filled.{IsFilled}
use ezrpc.Config.Reach.{Reads, IsReader, Reachable}
use ezrpc.Config.Sound.{Reachable-IsFilled, Reachable-conf_file}
use ezrpc.Config.Reload.{modules_load-base, deferred_reload-runs, IsReloaded, deferred}
use ezrpc.Config.Server.{modules_load, server_client_disc}

abbrev zshare : Zshare
zshare = record {
  same = bytes_eq;
  same_nocase = bytes_eq;
  validate_uuid = λ s. true;
  scan_int = λ s. none;
}

abbrev line_read : Config → Outcome → FileRead
line_read c Outcome.exited = FileRead.left
line_read c Outcome.unmatched = FileRead.parsed c
line_read c (Outcome.matched d) = FileRead.parsed d

-- A file whose one line is `LISTEN = 0.0.0.0`.
abbrev one_line : Reader
one_line path c = line_read c (config_parse zshare (lit "LISTEN") (lit "0.0.0.0") c)

one_line-listen :
    (c : Config)
    → config_parse zshare (lit "LISTEN") (lit "0.0.0.0") c
      ≡ Outcome.matched (record c { listen = some (lit "0.0.0.0") })
unfolding config_parse config_parse_bools config_parse_ints config_parse_paths config_parse_files
    or_else set_boolval set_intval set_cfgval
one_line-listen c = refl

data ReadsTo (c : Config) : FileRead → Type 0 where
  left : ReadsTo c FileRead.left
  failed : ReadsTo c FileRead.failed
  parsed : {d : Config} → Reads zshare c d → ReadsTo c (FileRead.parsed d)

reads_to : (c d : Config) → ReadsTo c (FileRead.parsed d) → Reads zshare c d
reads_to c d (ReadsTo.parsed r) = r

one_line-ReadsTo : (path : CStr) (c : Config) → ReadsTo c (one_line path c)
one_line-ReadsTo path c =
    subst (λ o. ReadsTo c (line_read c o)) (sym (one_line-listen c))
      (ReadsTo.parsed (Reads.line _ _ (one_line-listen c) Reads.done))

one_line-IsReader : IsReader zshare one_line
one_line-IsReader path c d e = reads_to c d (subst (ReadsTo c) e (one_line-ReadsTo path c))

-- The options name another file and a uuid.
abbrev options : Options
options = record {
  selfhost = false;
  ssl = true;
  xmldebug = false;
  nodaemon = true;
  pidfile = none;
  webroot = none;
  cfgfile = some (lit "/etc/other.conf");
  logfile = none;
  uuid = some (lit "6f1c");
  port = some (pos 4445);
  loglevel = none;
  exit_option = false;
}

abbrev prefix : Str
prefix = lit "/opt"

abbrev begun : Config
begun =
    apply_options options
      (record (config_defaults_fill prefix config_new) { listen = some (lit "0.0.0.0") })

abbrev server : Config → Server
server c = record {
  config = c;
  db = 1;
  reloading_modules = false;
  reload_modules_list = 7 ∷ [];
  servlet_modules = lit "zrpc_base.so" ∷ [];
  tmp_servlet_modules = [];
  servlets = lit "zrpc_base" ∷ [];
  reload_modules = false;
  last = pos 0;
  log = [];
}

-- A library with a user's servlet beside the base servlet.
abbrev loader : ℕ → Loader
loader clients = record {
  base_loads = true;
  base_symbol = true;
  base = some (lit "zrpc_base" ∷ []);
  files = lit "/opt/servlets/user.so" ∷ [];
  loads = λ path. true;
  symbol = λ path name. some (lit "user");
  list_get = λ modules. some modules;
  clients = clients;
  db_init = true;
}

begun_options : initialize_config prefix one_line (some options) ≡ some begun
unfolding initialize_config with_file with_options
begun_options = rw (one_line-listen) refl

-- The state after a SIGHUP at the time 1000, which reads the file again.
abbrev hung_up : Server
hung_up =
    record (setup_sigsegv (record (server begun) {
      config = config_defaults_fill prefix (record config_new { listen = some (lit "0.0.0.0") });
    })) { last = pos 1000 }

hung_up_run :
    signals_handler prefix one_line (loader 0) Signal.hangup (pos 1000) (server begun)
    ≡ Run.running hung_up
unfolding signals_handler hangup reparsed config_reparse config_reparse_with and_then ◌-ℤ◌
hung_up_run = rw (one_line-listen) refl

hung_up-Reachable : Reachable prefix one_line hung_up
hung_up-Reachable =
    Reachable.signal (loader 0) Signal.hangup (pos 1000) (server begun) hung_up
      (Reachable.start (some options) (server begun) begun_options) hung_up_run

Reachable-IsFilled_example : IsFilled hung_up.config
Reachable-IsFilled_example =
    Reachable-IsFilled zshare prefix one_line one_line-IsReader hung_up hung_up-Reachable

Reachable-conf_file_example : hung_up.config.conf_file ≡ some (default_conf_file prefix)
Reachable-conf_file_example =
    Reachable-conf_file zshare prefix one_line one_line-IsReader hung_up hung_up-Reachable

modules_load-base_example :
    modules_load (loader 0) ≡ some (lit "zrpc_base.so" ∷ [], lit "zrpc_base" ∷ [])
modules_load-base_example = modules_load-base (loader 0) (lit "zrpc_base" ∷ []) refl refl refl

deferred_reload-runs_example :
    (t : Server) × ((and_then
          (signals_handler prefix one_line (loader 2) Signal.hangup (pos 3) (server begun))
          (server_client_disc (loader 0))
        ≡ Run.running t)
      × IsReloaded
          (lit "zrpc_base.so" ∷ [])
          (lit "zrpc_base" ∷ [])
          (deferred (pos 3) (server begun))
          t)
unfolding ◌-ℤ◌
deferred_reload-runs_example =
    deferred_reload-runs prefix one_line (loader 2) (loader 0) (lit "zrpc_base" ∷ []) (pos 3)
      (server begun) refl refl refl refl refl refl refl refl
