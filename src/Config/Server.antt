-- ===== src/Config/Server.antt =====
-- src/bin/server.c: the modules, their reload, and the handler of signals.
--
-- Eina's modules, Azy's server, the database's start and the clock are the fields of `Loader`.
use ezrpc.Base.{
  ℕ, Bool, true, false, not, ◌||◌, ◌==◌, ◌-◌, length, drop, Option, none, some, List, [], ◌∷◌, ◌++◌,
  if◌then◌else◌,
}
use ezrpc.Base.Int.{ℤ, pos, negsuc}
use ezrpc.Rpc.State.{Str, lit}
use ezrpc.Rpc.Env.{bytes_eq, strrchr}
use ezrpc.Config.State.{Config}

-- A servlet's `Azy_Server_Module_Def`, by the name of its module.
abbrev pub Servlet : Type 0
Servlet = Str

pub record Loader : Type 0 where
  pub base_loads : Bool  -- eina_module_load of zrpc_base.so
  pub base_symbol : Bool  -- its `zrpc_base_def`
  pub base : Option (List Servlet)  -- what that returns
  pub files : List Str  -- the modules below ZRPC_SERVLET_PATH, with their paths
  pub loads : Str → Bool  -- eina_module_load
  pub symbol : Str → Str → Option Servlet  -- the symbol of a module, called
  pub list_get : List Str → Option (List Str)  -- the array of the modules that were accepted
  pub clients : ℕ  -- azy_server_clients_count
  pub db_init : Bool

pub data ServerEffect : Type 0 where
  server_stop db_uninit pid_delete : ServerEffect
  module_del module_add : Servlet → ServerEffect
  module_free : Str → ServerEffect
  module_rewind module_resume : ℕ → ServerEffect
  sigsegv_gdb : Bool → ServerEffect  -- the handler of SIGSEGV: gdb, or the back trace

-- The variables of server.c.
pub record Server : Type 0 where
  pub config : Config
  pub db : ℕ
  pub reloading_modules : Bool
  pub reload_modules_list : List ℕ
  pub servlet_modules : List Str
  pub tmp_servlet_modules : List Str
  pub servlets : List Servlet  -- azy_server_module_defs_get
  pub reload_modules : Bool
  pub last : ℤ  -- in signals_handler
  pub log : List ServerEffect

-- A call that may leave the program.
pub data Run : Type 0 where
  exited : ℤ → Server → Run
  running : Server → Run

unfoldable pub and_then : Run → (Server → Run) → Run
and_then (Run.exited n s) f = Run.exited n s
and_then (Run.running s) f = f s

abbrev pub emit : ServerEffect → Server → Server
emit e s = record s { log = e ∷ s.log }

-- `cleanup_exit`, of a build without ZDEV_DEBUG and once the server has been made.
unfoldable pub cleanup_exit : ℤ → Server → Run
cleanup_exit (pos n) s =
    Run.exited (pos n)
      (emit ServerEffect.pid_delete (emit ServerEffect.db_uninit (emit ServerEffect.server_stop s)))
cleanup_exit (negsuc n) s =
    let stopped : Server = emit ServerEffect.db_uninit (emit ServerEffect.server_stop s) in
    if n == 0
    then Run.exited (negsuc n) stopped
    else Run.exited (negsuc n) (emit ServerEffect.pid_delete stopped)

-- What follows the last `/`. Eina gives the path of a module with its directory.
abbrev pub base_name : Str → Str
base_name path = elim (strrchr 47 path) [ none ↦ [] | some r ↦ drop 1 r ]

-- `!strcmp(filename + (strlen(filename) - 3), …)`: the end of a name is the end of its path.
abbrev pub ends_with : Str → Str → Bool
ends_with path s = bytes_eq (drop (length path - length s) path) s

-- The test with which `ismodule` turns a file away.
unfoldable pub not_a_servlet : Str → Bool
not_a_servlet path =
    not (ends_with path (lit ".so"))
    || not (bytes_eq (base_name path) (lit "zrpc_base.so"))
    || not (bytes_eq (base_name path) (lit "libztype.so"))

abbrev pub take_symbol : Option Servlet → List Servlet → Bool × List Servlet
take_symbol none servlets = (false, servlets)
take_symbol (some d) servlets = (true, servlets ++ d ∷ [])

-- `ismodule`: whether the module is kept, and the servlets after it.
unfoldable pub ismodule : Loader → Str → List Servlet → Bool × List Servlet
unfolding not_a_servlet
ismodule m path servlets =
    if not_a_servlet path
    then (false, servlets)
    else if not (m.loads path)
    then (false, servlets)
    else take_symbol (m.symbol path (base_name path ++ lit "_module_def")) servlets

abbrev pub keep_if : Bool → Str → List Str → List Str
keep_if b path kept = if b then kept ++ path ∷ [] else kept

-- `eina_module_list_get` asks `ismodule` of each file.
unfoldable pub find_modules : Loader → List Str → List Str × List Servlet → List Str × List Servlet
unfolding ismodule
find_modules m [] found = found
find_modules m (path ∷ paths) found =
    let asked = ismodule m path found.1 in
    find_modules m paths (keep_if asked.0 path found.0, asked.1)

abbrev pub base_path : Str
base_path = lit "zrpc_base.so"

abbrev pub with_base : Option (List Str) → List Str
with_base none = base_path ∷ []
with_base (some modules) = modules ++ base_path ∷ []

-- The end of `modules_load`: the new modules, and the servlets it returns.
unfoldable pub modules_found : Loader → List Servlet → List Str × List Servlet
unfolding find_modules
modules_found m servlets =
    let found = find_modules m m.files ([], servlets) in (with_base (m.list_get found.0), found.1)

-- `modules_load`: none where it ends in `cleanup_exit(1)`.
unfoldable pub modules_load : Loader → Option (List Str × List Servlet)
unfolding modules_found
modules_load m =
    if not m.base_loads || not m.base_symbol
    then none
    else elim m.base [ none ↦ none | some servlets ↦ some (modules_found m servlets) ]

-- Each element of a list, in order, as an entry of the log.
abbrev pub emit_all : {A : Type 0} → (A → ServerEffect) → List A → Server → Server
emit_all f [] s = s
emit_all f (x ∷ xs) s = emit_all f xs (emit (f x) s)

-- `setup_sigsegv`.
unfoldable pub setup_sigsegv : Server → Server
setup_sigsegv s = emit (ServerEffect.sigsegv_gdb s.config.gdb_bt) s

-- The end of `modules_reload_begin`, by what `db_init` answers.
abbrev pub after_db_init : Bool → Server → Run
after_db_init b s =
    if b
    then Run.running (record s { reloading_modules = true })
    else Run.running (record s { reload_modules = false })

-- `modules_reload_begin` from the load on. `signals_setup` sets the same handlers again.
unfoldable pub modules_reload_with : Loader → Option (List Str × List Servlet) → Server → Run
unfolding cleanup_exit setup_sigsegv
modules_reload_with m none s = cleanup_exit (pos 1) s
modules_reload_with m (some (modules, servlets)) s =
    let unloaded = emit_all ServerEffect.module_free s.servlet_modules s in
    let removed = emit_all ServerEffect.module_del s.servlets unloaded in
    let added = emit_all ServerEffect.module_add servlets removed in
    after_db_init m.db_init (
      setup_sigsegv (record added {
        servlets = servlets;
        servlet_modules = modules;
        tmp_servlet_modules = modules;
      }))

-- `modules_reload_begin`.
unfoldable pub modules_reload_begin : Loader → Server → Run
unfolding modules_reload_with modules_load
modules_reload_begin m s =
    let marked : Server = record s { reload_modules = true } in
    if m.clients == 0 then modules_reload_with m (modules_load m) marked else Run.running marked

-- `server_client_disc`.
unfoldable pub server_client_disc : Loader → Server → Run
unfolding modules_reload_begin
server_client_disc m s = if s.reload_modules then modules_reload_begin m s else Run.running s

-- The loop of `modules_reload_handler` over the calls that wait for the reload.
abbrev pub rewind_waiting : List ℕ → Server → Server
rewind_waiting [] s = record s { reload_modules_list = [] }
rewind_waiting (m ∷ ms) s =
    rewind_waiting ms (emit (ServerEffect.module_resume m) (emit (ServerEffect.module_rewind m) s))

-- `modules_reload_handler`, with the new database object.
unfoldable pub modules_reload_handler : ℕ → Bool → Server → Server
modules_reload_handler data_db success s =
    let swapped : Server =
      if success then record (emit ServerEffect.db_uninit s) { db = data_db } else s in
    record (rewind_waiting s.reload_modules_list swapped) {
      reload_modules = false;
      reloading_modules = false;
    }

pub data Signal : Type 0 where
  quit terminate interrupt hangup other : Signal

-- The numbers of the signals on Linux.
abbrev pub signal_number : Signal → ℤ
signal_number Signal.quit = pos 3
signal_number Signal.terminate = pos 15
signal_number Signal.interrupt = pos 2
signal_number Signal.hangup = pos 1
signal_number Signal.other = pos 0
