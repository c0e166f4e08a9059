-- ===== src/Config/Sound.antt =====
-- The configuration that the daemon serves with, whatever signals it gets (src/bin/server.c).
use ezrpc.Base.{Bool, true, false, Option, none, some, ◌≡◌, refl, subst, ◌∙◌, if◌then◌else◌}
use ezrpc.Rpc.State.{Str, CStr}
use ezrpc.Config.State.{Config, config_new, config_defaults_fill, default_conf_file, fill}
use ezrpc.Config.Parse.{
  Zshare, Outcome, Reader, FileRead, Reparsed, any_type, config_reparse, config_reparse_with,
}
use ezrpc.Config.Start.{Options, initialize_config, with_file, with_options, apply_options, replace}
use ezrpc.Config.Filled.{
  Leaves, IsFilled, is_set, config_parse-IsFilled, config_defaults_fill-IsFilled,
}
use ezrpc.Config.Kept.{config_parse-conf_file, config_parse-Logs}
use ezrpc.Config.Server.{Server}
use ezrpc.Config.Reach.{Reads, IsReader, Reachable, Reachable-holds}

left : (P : Config → Type 0) (d : Config) → Leaves P (Outcome.matched d) → P d
left P d (Leaves.matched h) = h

taken : (P : Config → Type 0) (d : Config) (o : Outcome) → Leaves P o → o ≡ Outcome.matched d → P d
taken P d o h e = left P d (subst (Leaves P) e h)

Reads-IsFilled : (z : Zshare) (c d : Config) → Reads z c d → IsFilled c → IsFilled d
Reads-IsFilled z c _ Reads.done h = h
Reads-IsFilled z c e (Reads.line name value k r) h =
    Reads-IsFilled z _ e r (taken IsFilled _ _ (config_parse-IsFilled z name value c h) k)

Reads-conf_file : (z : Zshare) (c d : Config) → Reads z c d → d.conf_file ≡ c.conf_file
Reads-conf_file z c _ Reads.done = refl
Reads-conf_file z c e (Reads.line name value k r) =
    Reads-conf_file z _ e r
    ∙ taken (λ d. d.conf_file ≡ c.conf_file) _ _ (config_parse-conf_file z name value c) k

Reads-log_type :
    (z : Zshare) (c d : Config)
    → Reads z c d
    → any_type c.log_type ≡ true
    → any_type d.log_type ≡ true
Reads-log_type z c _ Reads.done h = h
Reads-log_type z c e (Reads.line name value k r) h =
    Reads-log_type z _ e r
      (taken (λ d. any_type d.log_type ≡ true) _ _ (config_parse-Logs z name value c h) k)

replace-is_set : (x y : CStr) → is_set y ≡ true → is_set (replace x y) ≡ true
replace-is_set none y h = h
replace-is_set (some x) y h = refl

apply_options-IsFilled : (o : Options) (c : Config) → IsFilled c → IsFilled (apply_options o c)
unfolding apply_options
apply_options-IsFilled o c h = record {
  pid_file = replace-is_set o.pidfile _ h.pid_file;
  web_root = replace-is_set o.webroot _ h.web_root;
  listen = h.listen;
  conf_file = h.conf_file;
  log_file = replace-is_set o.logfile _ h.log_file;
  log_prefix = h.log_prefix;
  utils_path = h.utils_path;
  var_path = h.var_path;
  ssh_path = h.ssh_path;
  db_modules_path = h.db_modules_path;
  db_module = h.db_module;
  modules_path = h.modules_path;
  ssl_path = h.ssl_path;
  ssl_cert = h.ssl_cert;
  key_path = h.key_path;
  vm_conf_path = h.vm_conf_path;
  credstore_pubkey_path = h.credstore_pubkey_path;
  log_type = h.log_type;
}

apply_options-conf_file : (o : Options) (c : Config) → (apply_options o c).conf_file ≡ c.conf_file
unfolding apply_options
apply_options-conf_file o c = refl

config_defaults_fill-conf_file :
    (prefix : Str) (c : Config)
    → c.conf_file ≡ none
    → (config_defaults_fill prefix c).conf_file ≡ some (default_conf_file prefix)
unfolding config_defaults_fill fill
config_defaults_fill-conf_file prefix c h = simp (h) refl

-- The configuration that the start may give.
data Gives (P : Config → Type 0) : Option Config → Type 0 where
  gone : Gives P none
  given : {c : Config} → P c → Gives P (some c)

given_one : (P : Config → Type 0) (c : Config) → Gives P (some c) → P c
given_one P c (Gives.given h) = h

-- What the file leaves is what the daemon starts with, but for the options.
module _ (P : Config → Type 0)
    (keeps : (o : Options) (d : Config) → P d → P (apply_options o d)) where
  if-Gives :
      (b : Bool) (o : Options) (d : Config)
      → P d
      → Gives P (if b then none else some (apply_options o d))
  if-Gives true o d h = Gives.gone
  if-Gives false o d h = Gives.given (keeps o d h)

  with_options-Gives :
      (getopt : Option Options) (d : Config) → P d → Gives P (with_options getopt d)
  unfolding with_options
  with_options-Gives none d h = Gives.gone
  with_options-Gives (some o) d h = if-Gives o.exit_option o d h

  with_file-Gives :
      (r : FileRead) (getopt : Option Options)
      → ((d : Config) → r ≡ FileRead.parsed d → P d)
      → Gives P (with_file r getopt)
  unfolding with_file
  with_file-Gives FileRead.left getopt h = Gives.gone
  with_file-Gives FileRead.failed getopt h = Gives.gone
  with_file-Gives (FileRead.parsed d) getopt h = with_options-Gives getopt d (h d refl)

new_log : any_type config_new.log_type ≡ true
unfolding config_new
new_log = refl

new_conf_file : config_new.conf_file ≡ none
unfolding config_new
new_conf_file = refl

-- The configuration that a reparse may give.
data Renews (P : Config → Type 0) : Reparsed → Type 0 where
  died : Renews P Reparsed.died
  kept : Renews P Reparsed.kept
  replaced : {c : Config} → P c → Renews P (Reparsed.replaced c)

renewed_one : (P : Config → Type 0) (c : Config) → Renews P (Reparsed.replaced c) → P c
renewed_one P c (Renews.replaced h) = h

config_reparse_with-Renews :
    (P : Config → Type 0) (prefix : Str) (r : FileRead)
    → ((d : Config) → r ≡ FileRead.parsed d → P (config_defaults_fill prefix d))
    → Renews P (config_reparse_with prefix r)
unfolding config_reparse_with
config_reparse_with-Renews P prefix FileRead.left h = Renews.died
config_reparse_with-Renews P prefix FileRead.failed h = Renews.kept
config_reparse_with-Renews P prefix (FileRead.parsed d) h = Renews.replaced (h d refl)

module _ (z : Zshare) (prefix : Str) (read : Reader) (honest : IsReader z read) where
  abbrev filled_new : Config
  filled_new = config_defaults_fill prefix config_new

  abbrev HasFile : Config → Type 0
  HasFile c = c.conf_file ≡ some (default_conf_file prefix)

  initialize_config-IsFilled :
      (getopt : Option Options) (c : Config)
      → initialize_config prefix read getopt ≡ some c
      → IsFilled c
  unfolding initialize_config
  initialize_config-IsFilled getopt c e = given_one IsFilled c (
      subst (Gives IsFilled) e (
        with_file-Gives IsFilled apply_options-IsFilled _ getopt (λ d k.
          Reads-IsFilled z _ d (honest _ _ d k)
            (config_defaults_fill-IsFilled prefix config_new new_log))))

  initialize_config-conf_file :
      (getopt : Option Options) (c : Config)
      → initialize_config prefix read getopt ≡ some c
      → c.conf_file ≡ some (default_conf_file prefix)
  unfolding initialize_config
  initialize_config-conf_file getopt c e = given_one HasFile c (
      subst (Gives HasFile) e (
        with_file-Gives HasFile (λ o d k. apply_options-conf_file o d ∙ k) _ getopt
          (λ d k.
            Reads-conf_file z _ d (honest _ _ d k)
            ∙ config_defaults_fill-conf_file prefix config_new new_conf_file)))

  config_reparse-IsFilled :
      (c d : Config) → config_reparse prefix read c ≡ Reparsed.replaced d → IsFilled d
  unfolding config_reparse
  config_reparse-IsFilled c d e = renewed_one IsFilled d (
      subst (Renews IsFilled) e (
        config_reparse_with-Renews IsFilled prefix _ (λ t k.
          config_defaults_fill-IsFilled prefix t (Reads-log_type z _ t (honest _ _ t k) new_log))))

  config_reparse-conf_file :
      (c d : Config)
      → config_reparse prefix read c ≡ Reparsed.replaced d
      → d.conf_file ≡ some (default_conf_file prefix)
  unfolding config_reparse
  config_reparse-conf_file c d e = renewed_one HasFile d (
      subst (Renews HasFile) e (
        config_reparse_with-Renews HasFile prefix _ (λ t k.
          config_defaults_fill-conf_file prefix t
            (Reads-conf_file z _ t (honest _ _ t k) ∙ new_conf_file))))

  -- Whatever the options and the configuration file, and after any signals, reloads and
  -- disconnections, every string with a default is set and the log goes somewhere.
  pub Reachable-IsFilled : (s : Server) → Reachable prefix read s → IsFilled s.config
  Reachable-IsFilled =
      Reachable-holds IsFilled prefix read (λ c d h. config_reparse-IsFilled c d)
        initialize_config-IsFilled

  -- Whatever the options, that of the configuration file among them, and after any signals, reloads
  -- and disconnections, the configuration names the default configuration file.
  pub Reachable-conf_file :
      (s : Server) → Reachable prefix read s → s.config.conf_file ≡ some (default_conf_file prefix)
  Reachable-conf_file =
      Reachable-holds HasFile prefix read (λ c d h. config_reparse-conf_file c d)
        initialize_config-conf_file
