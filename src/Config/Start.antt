-- ===== src/Config/Start.antt =====
-- `initialize` of src/bin/server.c: the configuration that the daemon starts with, and the steps
-- until it serves. DETECT_VM is taken not to be defined, as in its own default.
use ezrpc.Base.{
  suc, zero, ◌==◌, Bool, not, ◌&&◌, ◌||◌, Option, none, some, List, [], ◌∷◌, if◌then◌else◌,
}
use ezrpc.Base.Int.{ℤ, pos, negsuc}
use ezrpc.Rpc.State.{Str, CStr}
use ezrpc.Config.State.{Config, LogLevel, config_new, config_defaults_fill}
use ezrpc.Config.Parse.{Reader, FileRead}

-- What `ecore_getopt_parse` leaves for the options `server_opts`.
pub record Options : Type 0 where
  pub selfhost : Bool
  pub ssl : Bool
  pub xmldebug : Bool
  pub nodaemon : Bool
  pub pidfile : CStr
  pub webroot : CStr
  pub cfgfile : CStr
  pub logfile : CStr
  pub uuid : CStr
  pub port : Option ℤ
  pub loglevel : Option ℤ
  pub exit_option : Bool  -- version, copyright, license or help

abbrev pub replace : CStr → CStr → CStr
replace none old = old
replace (some x) old = some x

abbrev pub set_port : Option ℤ → ℤ → ℤ
set_port none old = old
set_port (some n) old = n

abbrev pub set_level : Option ℤ → LogLevel → LogLevel
set_level none old = old
set_level (some n) old = LogLevel.number n

-- The options are stored, then the strings are copied and XML_DEBUG keeps the terminal.
unfoldable pub apply_options : Options → Config → Config
apply_options o c = record c {
  self_host = c.self_host || o.selfhost;
  use_ssl = c.use_ssl || o.ssl;
  xml_debug = c.xml_debug || o.xmldebug;
  daemonize = c.daemonize && not o.nodaemon && not (c.xml_debug || o.xmldebug);
  port = set_port o.port c.port;
  log_level = set_level o.loglevel c.log_level;
  pid_file = replace o.pidfile c.pid_file;
  web_root = replace o.webroot c.web_root;
  log_file = replace o.logfile c.log_file;
  my_uuid = replace o.uuid c.my_uuid;
}

-- `none` is `exit(1)`.
unfoldable pub with_options : Option Options → Config → Option Config
unfolding apply_options
with_options none c = none
with_options (some o) c = if o.exit_option then none else some (apply_options o c)

unfoldable pub with_file : FileRead → Option Options → Option Config
unfolding with_options
with_file FileRead.left getopt = none
with_file FileRead.failed getopt = none
with_file (FileRead.parsed c) getopt = with_options getopt c

-- `if (!cfg) cfg = config->CONF_FILE`. `cfg` is still NULL: the options are parsed after this.
abbrev pub chosen_file : CStr → Config → CStr
chosen_file none c = c.conf_file
chosen_file (some cfg) c = some cfg

-- The configuration of `main` and `initialize`; `getopt` is what `ecore_getopt_parse` stores.
unfoldable pub initialize_config : Str → Reader → Option Options → Option Config
unfolding config_new config_defaults_fill with_file
initialize_config prefix read getopt =
    let filled = config_defaults_fill prefix config_new in
    with_file (read (chosen_file none filled) filled) getopt

-- What the rest of `initialize` asks of the system.
pub record Boot : Type 0 where
  pub pid_check : Bool  -- zshare_pid_check: true is an error
  pub db_init : Bool
  pub db : Bool  -- the database object, once the main loop has connected it
  pub daemon_detach : Bool
  pub pid_create : ℤ  -- zshare_pid_create
  pub closefds : Bool

pub data BootStep : Type 0 where
  detached pid_written pid_deleted : BootStep

-- How the start ends: `exit(n)`, or the daemon runs; with what was done, the newest first.
pub data Started : Type 0 where
  exits : ℤ → List BootStep → Started
  serves : List BootStep → Started

-- `cleanup_exit` before there is a server.
unfoldable pub leave_early : ℤ → List BootStep → Started
leave_early (pos n) done = Started.exits (pos n) (BootStep.pid_deleted ∷ done)
leave_early (negsuc n) done =
    if n == 0
    then Started.exits (negsuc n) done
    else Started.exits (negsuc n) (BootStep.pid_deleted ∷ done)

-- After the pid file: `zshare_daemon_closefds` is asked only of a daemon.
unfoldable pub after_pid : Boot → Bool → List BootStep → Started
unfolding leave_early
after_pid b daemonize done =
    if daemonize && not b.closefds
    then leave_early (negsuc 0) (BootStep.pid_written ∷ done)
    else Started.serves (BootStep.pid_written ∷ done)

-- `switch (zshare_pid_create(…))`.
unfoldable pub start_pid : Boot → Bool → ℤ → List BootStep → Started
unfolding leave_early after_pid
start_pid b daemonize (negsuc zero) done = leave_early (pos 1) done
start_pid b daemonize (negsuc (suc n)) done = after_pid b daemonize done
start_pid b daemonize (pos zero) done = Started.exits (pos 1) done
start_pid b daemonize (pos (suc n)) done = after_pid b daemonize done

-- `initialize` from the check of the pid file on.
unfoldable pub start_up : Boot → Bool → Started
unfolding leave_early start_pid
start_up b daemonize =
    if b.pid_check
    then Started.exits (pos 1) []
    else if not b.db_init || not b.db
    then leave_early (pos 1) []
    else if daemonize && not b.daemon_detach
    then leave_early (pos 1) []
    else start_pid b daemonize b.pid_create (if daemonize then BootStep.detached ∷ [] else [])
