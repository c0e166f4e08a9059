-- ===== src/Config/Filled.antt =====
-- What a line of the configuration file, the options and the defaults do to the strings that have
-- a default.
use ezrpc.Base.{Bool, true, false, Option, none, some, ◌≡◌, refl, if◌then◌else◌}
use ezrpc.Base.Int.{ℤ}
use ezrpc.Rpc.State.{Str, CStr}
use ezrpc.Config.State.{Config, config_defaults_fill, fill}
use ezrpc.Config.Parse.{
  Zshare, Outcome, or_else, when, scanned, set_boolval, set_intval, set_cfgval, any_type,
  config_parse_bools, config_parse_ints, config_parse_paths, config_parse_files, config_parse,
}

abbrev pub is_set : CStr → Bool
is_set none = false
is_set (some s) = true

-- No string that `config_defaults_fill` sets is NULL, and the log goes somewhere.
pub record IsFilled (c : Config) : Type 0 where
  pub pid_file : is_set c.pid_file ≡ true
  pub web_root : is_set c.web_root ≡ true
  pub listen : is_set c.listen ≡ true
  pub conf_file : is_set c.conf_file ≡ true
  pub log_file : is_set c.log_file ≡ true
  pub log_prefix : is_set c.log_prefix ≡ true
  pub utils_path : is_set c.utils_path ≡ true
  pub var_path : is_set c.var_path ≡ true
  pub ssh_path : is_set c.ssh_path ≡ true
  pub db_modules_path : is_set c.db_modules_path ≡ true
  pub db_module : is_set c.db_module ≡ true
  pub modules_path : is_set c.modules_path ≡ true
  pub ssl_path : is_set c.ssl_path ≡ true
  pub ssl_cert : is_set c.ssl_cert ≡ true
  pub key_path : is_set c.key_path ≡ true
  pub vm_conf_path : is_set c.vm_conf_path ≡ true
  pub credstore_pubkey_path : is_set c.credstore_pubkey_path ≡ true
  pub log_type : any_type c.log_type ≡ true

fill-is_set : (x : CStr) (y : Str) → is_set (fill x y) ≡ true
unfolding fill
fill-is_set none y = refl
fill-is_set (some x) y = refl

pub config_defaults_fill-IsFilled :
    (p : Str) (c : Config) → any_type c.log_type ≡ true → IsFilled (config_defaults_fill p c)
unfolding config_defaults_fill
config_defaults_fill-IsFilled p c h = record {
  pid_file = fill-is_set _ _;
  web_root = fill-is_set _ _;
  listen = fill-is_set _ _;
  conf_file = fill-is_set _ _;
  log_file = fill-is_set _ _;
  log_prefix = fill-is_set _ _;
  utils_path = fill-is_set _ _;
  var_path = fill-is_set _ _;
  ssh_path = fill-is_set _ _;
  db_modules_path = fill-is_set _ _;
  db_module = fill-is_set _ _;
  modules_path = fill-is_set _ _;
  ssl_path = fill-is_set _ _;
  ssl_cert = fill-is_set _ _;
  key_path = fill-is_set _ _;
  vm_conf_path = fill-is_set _ _;
  credstore_pubkey_path = fill-is_set _ _;
  log_type = h;
}

-- Every configuration that a line can leave has a property.
pub data Leaves (P : Config → Type 0) : Outcome → Type 0 where
  exited : Leaves P Outcome.exited
  unmatched : Leaves P Outcome.unmatched
  matched : {c : Config} → P c → Leaves P (Outcome.matched c)

-- What holds however a line is read: the three macros, and the lines that are read by hand.
module _ (P : Config → Type 0) (z : Zshare) (name value : Str) where
  pub or_else-Leaves : (a b : Outcome) → Leaves P a → Leaves P b → Leaves P (or_else a b)
  unfolding or_else
  or_else-Leaves Outcome.exited b h k = h
  or_else-Leaves Outcome.unmatched b h k = k
  or_else-Leaves (Outcome.matched c) b h k = h

  when-Leaves : (b : Bool) (o : Outcome) → Leaves P o → Leaves P (when b o)
  when-Leaves true o h = h
  when-Leaves false o h = Leaves.unmatched

  scanned-Leaves :
      (n : Option ℤ) (put : ℤ → Config) → ((m : ℤ) → P (put m)) → Leaves P (scanned n put)
  scanned-Leaves none put h = Leaves.unmatched
  scanned-Leaves (some n) put h = Leaves.matched (h n)

  pub if-Leaves :
      (b : Bool) (o p : Outcome) → Leaves P o → Leaves P p → Leaves P (if b then o else p)
  if-Leaves true o p h k = h
  if-Leaves false o p h k = k

  pub guarded-Leaves :
      (b : Bool) (o : Outcome)
      → (b ≡ true → Leaves P o)
      → Leaves P (if b then o else Outcome.exited)
  guarded-Leaves true o h = h refl
  guarded-Leaves false o h = Leaves.exited

  pub set_boolval-Leaves :
      (field : Str) (put : Bool → Config)
      → ((b : Bool) → P (put b))
      → Leaves P (set_boolval z field name value put)
  unfolding set_boolval
  set_boolval-Leaves field put h = when-Leaves _ _ (Leaves.matched (h _))

  pub set_intval-Leaves :
      (field : Str) (put : ℤ → Config)
      → ((n : ℤ) → P (put n))
      → Leaves P (set_intval z field name value put)
  unfolding set_intval
  set_intval-Leaves field put h = when-Leaves _ _ (scanned-Leaves (z.scan_int value) put h)

  pub set_cfgval-Leaves :
      (field : Str) (put : CStr → Config)
      → ((s : Str) → P (put (some s)))
      → Leaves P (set_cfgval z field name value put)
  unfolding set_cfgval
  set_cfgval-Leaves field put h = when-Leaves _ _ (Leaves.matched (h value))

module _ (z : Zshare) (name value : Str) (c : Config) (h : IsFilled c) where
  -- A configuration in which each string is set if it was.
  keep :
      (d : Config)
      → (is_set c.pid_file ≡ true → is_set d.pid_file ≡ true)
      → (is_set c.web_root ≡ true → is_set d.web_root ≡ true)
      → (is_set c.listen ≡ true → is_set d.listen ≡ true)
      → (is_set c.conf_file ≡ true → is_set d.conf_file ≡ true)
      → (is_set c.log_file ≡ true → is_set d.log_file ≡ true)
      → (is_set c.log_prefix ≡ true → is_set d.log_prefix ≡ true)
      → (is_set c.utils_path ≡ true → is_set d.utils_path ≡ true)
      → (is_set c.var_path ≡ true → is_set d.var_path ≡ true)
      → (is_set c.ssh_path ≡ true → is_set d.ssh_path ≡ true)
      → (is_set c.db_modules_path ≡ true → is_set d.db_modules_path ≡ true)
      → (is_set c.db_module ≡ true → is_set d.db_module ≡ true)
      → (is_set c.modules_path ≡ true → is_set d.modules_path ≡ true)
      → (is_set c.ssl_path ≡ true → is_set d.ssl_path ≡ true)
      → (is_set c.ssl_cert ≡ true → is_set d.ssl_cert ≡ true)
      → (is_set c.key_path ≡ true → is_set d.key_path ≡ true)
      → (is_set c.vm_conf_path ≡ true → is_set d.vm_conf_path ≡ true)
      → (is_set c.credstore_pubkey_path ≡ true → is_set d.credstore_pubkey_path ≡ true)
      → (any_type c.log_type ≡ true → any_type d.log_type ≡ true)
      → IsFilled d
  keep d k0 k1 k2 k3 k4 k5 k6 k7 k8 k9 k10 k11 k12 k13 k14 k15 k16 k17 = record {
    pid_file = k0 h.pid_file;
    web_root = k1 h.web_root;
    listen = k2 h.listen;
    conf_file = k3 h.conf_file;
    log_file = k4 h.log_file;
    log_prefix = k5 h.log_prefix;
    utils_path = k6 h.utils_path;
    var_path = k7 h.var_path;
    ssh_path = k8 h.ssh_path;
    db_modules_path = k9 h.db_modules_path;
    db_module = k10 h.db_module;
    modules_path = k11 h.modules_path;
    ssl_path = k12 h.ssl_path;
    ssl_cert = k13 h.ssl_cert;
    key_path = k14 h.key_path;
    vm_conf_path = k15 h.vm_conf_path;
    credstore_pubkey_path = k16 h.credstore_pubkey_path;
    log_type = k17 h.log_type;
  }

  config_parse_bools-IsFilled : Leaves IsFilled (config_parse_bools z name value c)
  unfolding config_parse_bools
  config_parse_bools-IsFilled = search (or_else-Leaves, set_boolval-Leaves, keep) depth 12

  config_parse_ints-IsFilled : Leaves IsFilled (config_parse_ints z name value c)
  unfolding config_parse_ints
  config_parse_ints-IsFilled = search (or_else-Leaves, set_intval-Leaves, keep) depth 12

  config_parse_paths-IsFilled : Leaves IsFilled (config_parse_paths z name value c)
  unfolding config_parse_paths
  config_parse_paths-IsFilled = search (or_else-Leaves, set_cfgval-Leaves, keep) depth 12

  config_parse_files-IsFilled : Leaves IsFilled (config_parse_files z name value c)
  unfolding config_parse_files
  config_parse_files-IsFilled = search (or_else-Leaves, set_cfgval-Leaves, keep) depth 12

  pub config_parse-IsFilled : Leaves IsFilled (config_parse z name value c)
  unfolding config_parse
  config_parse-IsFilled =
      search
        (
          or_else-Leaves, config_parse_bools-IsFilled, config_parse_ints-IsFilled,
          config_parse_paths-IsFilled, config_parse_files-IsFilled, if-Leaves, guarded-Leaves,
          Leaves.matched, Leaves.unmatched, keep,
        )
        depth 14
