-- ===== src/Config/Parse.antt =====
-- `config_parse` and `config_reparse` of src/bin/zconf.c.
--
-- libzshare's comparisons and uuid check and the C library's `sscanf` are the fields of `Zshare`;
-- `zshare_config_parse` is a parameter of what calls it.
use ezrpc.Base.{ℕ, Bool, ◌||◌, ◌==◌, Option, none, some, [], ◌∷◌, if◌then◌else◌}
use ezrpc.Base.Int.{ℤ}
use ezrpc.Rpc.State.{Str, CStr, lit}
use ezrpc.Rpc.Env.{contains}
use ezrpc.Config.State.{Config, LogType, LogLevel, config_new, config_defaults_fill}

pub record Zshare : Type 0 where
  pub same : Str → Str → Bool  -- !zshare_strcmp
  pub same_nocase : Str → Str → Bool  -- !zshare_strcasecmp
  pub validate_uuid : Str → Bool  -- zshare_validate_uuid
  pub scan_int : Str → Option ℤ  -- sscanf(…, "%d", …)

-- How a line ends: `exit(1)`, `return 0` with nothing changed, or `return 1`.
pub data Outcome : Type 0 where
  exited : Outcome
  unmatched : Outcome
  matched : Config → Outcome

-- One macro after another: the next is reached where this one does not return.
unfoldable pub or_else : Outcome → Outcome → Outcome
or_else Outcome.unmatched o = o
or_else o _ = o

abbrev pub when : Bool → Outcome → Outcome
when b o = if b then o else Outcome.unmatched

-- `SET_BOOLVAL`.
unfoldable pub set_boolval : Zshare → Str → Str → Str → (Bool → Config) → Outcome
set_boolval z field name value put =
    when (z.same name field)
      (Outcome.matched (put (z.same_nocase value (lit "yes") || z.same value (lit "1"))))

abbrev pub scanned : Option ℤ → (ℤ → Config) → Outcome
scanned none put = Outcome.unmatched
scanned (some n) put = Outcome.matched (put n)

-- `SET_INTVAL`.
unfoldable pub set_intval : Zshare → Str → Str → Str → (ℤ → Config) → Outcome
set_intval z field name value put = when (z.same name field) (scanned (z.scan_int value) put)

-- `SET_CFGVAL`.
unfoldable pub set_cfgval : Zshare → Str → Str → Str → (CStr → Config) → Outcome
set_cfgval z field name value put = when (z.same name field) (Outcome.matched (put (some value)))

-- `value[0] == c`: the byte 0 ends an empty string.
abbrev pub first_is : Str → ℕ → Bool
first_is [] c = 0 == c
first_is (x ∷ xs) c = x == c

-- The digits stand for '0' to '5'.
unfoldable pub parse_log_level : Zshare → Str → LogLevel
parse_log_level z value =
    if z.same value (lit "DEVEL") || first_is value 52
    then LogLevel.devel
    else if z.same value (lit "DEBUG") || first_is value 53
    then LogLevel.debug
    else if z.same value (lit "QUIETTEST") || first_is value 50
    then LogLevel.quiettest
    else if z.same value (lit "TEST") || first_is value 51
    then LogLevel.test
    else if z.same value (lit "NONE") || first_is value 48
    then LogLevel.verbosity_none
    else LogLevel.production

unfoldable pub parse_log_type : Str → LogType
parse_log_type value = record {
  file = contains value (lit "file");
  lsyslog = contains value (lit "lsyslog");
  local = contains value (lit "local");
}

-- `LOG_TYPE` is not 0.
abbrev pub any_type : LogType → Bool
any_type t = t.file || t.lsyslog || t.local

unfoldable pub config_parse_bools : Zshare → Str → Str → Config → Outcome
unfolding set_boolval or_else
config_parse_bools z name value c =
    or_else (set_boolval z (lit "SELF_HOST") name value (λ b. record c { self_host = b })) (
      or_else (set_boolval z (lit "DAEMONIZE") name value (λ b. record c { daemonize = b })) (
        or_else (set_boolval z (lit "USE_SSL") name value (λ b. record c { use_ssl = b })) (
          or_else (set_boolval z (lit "XML_DEBUG") name value (λ b. record c { xml_debug = b }))
            (set_boolval z (lit "GDB_BT") name value (λ b. record c { gdb_bt = b })))))

unfoldable pub config_parse_ints : Zshare → Str → Str → Config → Outcome
unfolding set_intval or_else
config_parse_ints z name value c =
    or_else (set_intval z (lit "PORT") name value (λ n. record c { port = n })) (
      or_else
        (set_intval z (lit "SESSION_TIMEOUT") name value (λ n. record c { session_timeout = n }))
        (or_else
          (set_intval z (lit "RETRY_TIMEOUT") name value (λ n. record c { retry_timeout = n }))
          (set_intval z (lit "MAX_LOGIN_FAILURES") name value
            (λ n. record c { max_login_failures = n }))))

unfoldable pub config_parse_paths : Zshare → Str → Str → Config → Outcome
unfolding set_cfgval or_else
config_parse_paths z name value c =
    or_else (set_cfgval z (lit "UTILS_PATH") name value (λ s. record c { utils_path = s })) (
      or_else (set_cfgval z (lit "VM_CONF_PATH") name value (λ s. record c { vm_conf_path = s })) (
        or_else (set_cfgval z (lit "VAR_PATH") name value (λ s. record c { var_path = s })) (
          or_else (set_cfgval z (lit "SSH_PATH") name value (λ s. record c { ssh_path = s })) (
            or_else
              (set_cfgval z (lit "MODULES_PATH") name value (λ s. record c { modules_path = s }))
              (or_else
                (set_cfgval z (lit "DB_MODULES_PATH") name value
                  (λ s. record c { db_modules_path = s }))
                (set_cfgval z (lit "DB_MODULE") name value (λ s. record c { db_module = s })))))))

unfoldable pub config_parse_files : Zshare → Str → Str → Config → Outcome
unfolding set_cfgval or_else
config_parse_files z name value c =
    or_else (set_cfgval z (lit "LISTEN") name value (λ s. record c { listen = s })) (
      or_else (set_cfgval z (lit "KEY_PATH") name value (λ s. record c { key_path = s })) (
        or_else (set_cfgval z (lit "SSL_PATH") name value (λ s. record c { ssl_path = s })) (
          or_else (set_cfgval z (lit "WEB_ROOT") name value (λ s. record c { web_root = s })) (
            or_else (set_cfgval z (lit "PID_FILE") name value (λ s. record c { pid_file = s })) (
              or_else (set_cfgval z (lit "LOG_FILE") name value (λ s. record c { log_file = s }))
                (set_cfgval z (lit "LOG_PREFIX") name value (λ s. record c { log_prefix = s })))))))

-- `config_parse`. The number of the line is only printed.
unfoldable pub config_parse : Zshare → Str → Str → Config → Outcome
unfolding or_else config_parse_bools config_parse_ints config_parse_paths config_parse_files
config_parse z name value c = or_else (config_parse_bools z name value c) (
    or_else (config_parse_ints z name value c) (
      or_else (config_parse_paths z name value c) (
        or_else (config_parse_files z name value c) (
          if z.same name (lit "MY_UUID")
          then if z.validate_uuid value
            then Outcome.matched (record c { my_uuid = some value })
            else Outcome.exited
          else if z.same name (lit "LOG_LEVEL")
          then Outcome.matched (record c { log_level = parse_log_level z value })
          else if z.same name (lit "LOG_TYPE")
          then if any_type (parse_log_type value)
            then Outcome.matched (record c { log_type = parse_log_type value })
            else Outcome.exited
          else Outcome.unmatched))))

-- How `zshare_config_parse` ends: the callback has left the program, it answers false, or true with
-- the configuration that the callback has filled.
pub data FileRead : Type 0 where
  left : FileRead
  failed : FileRead
  parsed : Config → FileRead

-- A configuration file is read into a configuration.
abbrev pub Reader : Type 0
Reader = CStr → Config → FileRead

-- What `config_reparse` leaves in `*zconf`.
pub data Reparsed : Type 0 where
  died : Reparsed
  kept : Reparsed
  replaced : Config → Reparsed

unfoldable pub config_reparse_with : Str → FileRead → Reparsed
config_reparse_with prefix FileRead.left = Reparsed.died
config_reparse_with prefix FileRead.failed = Reparsed.kept
config_reparse_with prefix (FileRead.parsed c) = Reparsed.replaced (config_defaults_fill prefix c)

-- `config_reparse`; `calloc` is taken to give memory, as `config_new` itself relies on it.
unfoldable pub config_reparse : Str → Reader → Config → Reparsed
unfolding config_reparse_with
config_reparse prefix read c = config_reparse_with prefix (read c.conf_file config_new)
