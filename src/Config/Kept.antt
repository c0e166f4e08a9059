-- ===== src/Config/Kept.antt =====
-- What no line of the configuration file does: to name another file, or to turn the log off.
use ezrpc.Base.{true, ◌≡◌}
use ezrpc.Rpc.State.{Str}
use ezrpc.Config.State.{Config}
use ezrpc.Config.Parse.{
  Zshare, any_type, config_parse_bools, config_parse_ints, config_parse_paths, config_parse_files,
  config_parse,
}
use ezrpc.Config.Filled.{
  Leaves, or_else-Leaves, if-Leaves, guarded-Leaves, set_boolval-Leaves, set_intval-Leaves,
  set_cfgval-Leaves,
}

module _ (z : Zshare) (name value : Str) (c : Config) where
  -- No line names CONF_FILE.
  abbrev SameFile : Config → Type 0
  SameFile d = d.conf_file ≡ c.conf_file

  config_parse_bools-conf_file : Leaves SameFile (config_parse_bools z name value c)
  unfolding config_parse_bools
  config_parse_bools-conf_file = search (or_else-Leaves, set_boolval-Leaves) depth 12

  config_parse_ints-conf_file : Leaves SameFile (config_parse_ints z name value c)
  unfolding config_parse_ints
  config_parse_ints-conf_file = search (or_else-Leaves, set_intval-Leaves) depth 12

  config_parse_paths-conf_file : Leaves SameFile (config_parse_paths z name value c)
  unfolding config_parse_paths
  config_parse_paths-conf_file = search (or_else-Leaves, set_cfgval-Leaves) depth 12

  config_parse_files-conf_file : Leaves SameFile (config_parse_files z name value c)
  unfolding config_parse_files
  config_parse_files-conf_file = search (or_else-Leaves, set_cfgval-Leaves) depth 12

  pub config_parse-conf_file : Leaves SameFile (config_parse z name value c)
  unfolding config_parse
  config_parse-conf_file =
      search
        (
          or_else-Leaves, config_parse_bools-conf_file, config_parse_ints-conf_file,
          config_parse_paths-conf_file, config_parse_files-conf_file, if-Leaves, Leaves.matched,
          Leaves.exited, Leaves.unmatched,
        )
        depth 14

module _ (z : Zshare) (name value : Str) (c : Config) (h : any_type c.log_type ≡ true) where
  -- A line cannot turn every kind of log off.
  abbrev Logs : Config → Type 0
  Logs d = any_type d.log_type ≡ true

  config_parse_bools-Logs : Leaves Logs (config_parse_bools z name value c)
  unfolding config_parse_bools
  config_parse_bools-Logs = search (or_else-Leaves, set_boolval-Leaves) depth 12

  config_parse_ints-Logs : Leaves Logs (config_parse_ints z name value c)
  unfolding config_parse_ints
  config_parse_ints-Logs = search (or_else-Leaves, set_intval-Leaves) depth 12

  config_parse_paths-Logs : Leaves Logs (config_parse_paths z name value c)
  unfolding config_parse_paths
  config_parse_paths-Logs = search (or_else-Leaves, set_cfgval-Leaves) depth 12

  config_parse_files-Logs : Leaves Logs (config_parse_files z name value c)
  unfolding config_parse_files
  config_parse_files-Logs = search (or_else-Leaves, set_cfgval-Leaves) depth 12

  pub config_parse-Logs : Leaves Logs (config_parse z name value c)
  unfolding config_parse
  config_parse-Logs =
      search
        (
          or_else-Leaves, config_parse_bools-Logs, config_parse_ints-Logs, config_parse_paths-Logs,
          config_parse_files-Logs, if-Leaves, guarded-Leaves, Leaves.matched, Leaves.unmatched,
        )
        depth 14
