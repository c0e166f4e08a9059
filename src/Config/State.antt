-- ===== src/Config/State.antt =====
-- `zentific_config` (include/ztypes.h), `config_new` and `config_defaults_fill` (src/bin/zconf.c)
-- with the defaults of include/zentific-defines.h.
--
-- `PREFIX`, and the value of `ZSHARE_LOG_VERBOSITY_PRODUCTION` and its like, come from the build and
-- from libzshare.
use ezrpc.Base.{Bool, true, false, none, some, ◌++◌}
use ezrpc.Base.Int.{ℤ, pos}
use ezrpc.Rpc.State.{Str, CStr, lit}

-- The bits of `Zshare_Log_Type` that a configuration sets: what log entries are written to.
pub record LogType : Type 0 where
  pub file : Bool
  pub lsyslog : Bool
  pub local : Bool

-- `ZSHARE_LOG_VERBOSITY_*`, or a number given on the command line.
pub data LogLevel : Type 0 where
  devel debug quiettest test verbosity_none production : LogLevel
  number : ℤ → LogLevel

pub record Config : Type 0 where
  pub db_modules_path : CStr
  pub port : ℤ
  pub log_level : LogLevel
  pub session_timeout : ℤ
  pub retry_timeout : ℤ
  pub max_login_failures : ℤ
  pub self_host : Bool
  pub daemonize : Bool
  pub is_vm : Bool
  pub use_ssl : Bool
  pub xml_debug : Bool
  pub gdb_bt : Bool
  pub utils_path : CStr
  pub var_path : CStr
  pub ssh_path : CStr
  pub modules_path : CStr
  pub db_module : CStr
  pub credstore_pubkey_path : CStr
  pub listen : CStr
  pub my_uuid : CStr
  pub ssl_path : CStr
  pub ssl_cert : CStr
  pub key_path : CStr
  pub web_root : CStr
  pub pid_file : CStr
  pub log_file : CStr
  pub conf_file : CStr
  pub log_type : LogType
  pub log_prefix : CStr
  pub vm_conf_path : CStr

-- `config_new`: `calloc` leaves what it does not set at 0.
unfoldable pub config_new : Config
config_new = record {
  db_modules_path = none;
  port = pos 4444;
  log_level = LogLevel.production;
  session_timeout = pos 15;
  retry_timeout = pos 5;
  max_login_failures = pos 5;
  self_host = false;
  daemonize = true;
  is_vm = false;
  use_ssl = false;
  xml_debug = false;
  gdb_bt = false;
  utils_path = none;
  var_path = none;
  ssh_path = none;
  modules_path = none;
  db_module = none;
  credstore_pubkey_path = none;
  listen = none;
  my_uuid = none;
  ssl_path = none;
  ssl_cert = none;
  key_path = none;
  web_root = none;
  pid_file = none;
  log_file = none;
  conf_file = none;
  log_type = record { file = true; lsyslog = false; local = false };
  log_prefix = none;
  vm_conf_path = none;
}

-- `FILL(X, Y)`: the value of `X` after it.
unfoldable pub fill : CStr → Str → CStr
fill none y = some y
fill (some x) y = some x

-- `DEFAULT_CONF_FILE`.
abbrev pub default_conf_file : Str → Str
default_conf_file prefix = prefix ++ lit "/zrpc.conf"

-- `config_defaults_fill`.
unfoldable pub config_defaults_fill : Str → Config → Config
config_defaults_fill prefix c = record c {
  pid_file = fill c.pid_file (lit "/var/run/zentific/zrpc.pid");
  web_root = fill c.web_root (lit "/opt/www/zentific.com");
  listen = fill c.listen (lit "127.0.0.1");
  conf_file = fill c.conf_file (default_conf_file prefix);
  log_file = fill c.log_file (prefix ++ lit "/logs/zrpc.log");
  log_prefix = fill c.log_prefix (prefix ++ lit "/logs/zrpc.log");
  utils_path = fill c.utils_path (prefix ++ lit "/bin");
  var_path = fill c.var_path (lit "/var");
  ssh_path = fill c.ssh_path (lit "/usr/bin/ssh");
  db_modules_path = fill c.db_modules_path (prefix ++ lit "/db");
  db_module = fill c.db_module (lit "zrpcdb");
  modules_path = fill c.modules_path (prefix ++ lit "/modules");
  ssl_path = fill c.ssl_path (prefix ++ lit "/ssl");
  ssl_cert = fill c.ssl_cert (lit "server.pem");
  key_path = fill c.key_path (prefix ++ lit "/ssh");
  vm_conf_path = fill c.vm_conf_path (prefix ++ lit "/vms");
  credstore_pubkey_path = fill c.credstore_pubkey_path (prefix ++ lit "/credstore-pubkey.pem");
}
