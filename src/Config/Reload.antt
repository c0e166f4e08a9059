-- ===== src/Config/Reload.antt =====
-- The modules that a reload brings in, and a reload that waits for clients (src/bin/server.c).
use ezrpc.Base.{
  Bool, true, false, not, ◌||◌, ◌==◌, some, List, [], ◌∷◌, ◌≡◌, refl, ap, sym, ◌∙◌, arith,
}
use ezrpc.Base.Int.{ℤ, pos, ltb_ℤ, ◌-ℤ◌}
use ezrpc.Rpc.State.{Str, lit}
use ezrpc.Rpc.Env.{bytes_eq}
use ezrpc.Config.Parse.{Reader}
use ezrpc.Config.Server.{
  Loader, Server, ServerEffect, emit, emit, Servlet, Run, Signal, not_a_servlet, ismodule,
  find_modules, with_base, modules_found, modules_load, base_name, ends_with, modules_reload_with,
  modules_reload_begin, server_client_disc, emit_all, setup_sigsegv, and_then,
}
use ezrpc.Config.Signals.{signals_handler, hangup}
use ezrpc.Device.Compare.{bytes_eq-eq}

not_both : (x a b : Str) → bytes_eq a b ≡ false → (not (bytes_eq x a) || not (bytes_eq x b)) ≡ true
not_both x a b h = by_first (bytes_eq x a) (bytes_eq x b) refl refl
  where
    by_first : (p q : Bool) → bytes_eq x a ≡ p → bytes_eq x b ≡ q → (not p || not q) ≡ true
    by_first false q e f = refl
    by_first true false e f = refl
    by_first true true e f = sym h ∙ ap (λ y. bytes_eq y b) (sym (bytes_eq-eq x a e)) ∙ f

last_two : (p q r : Bool) → (q || r) ≡ true → (p || q || r) ≡ true
last_two true q r h = ground arith
last_two false q r h = h

not_a_servlet-always : (path : Str) → not_a_servlet path ≡ true
unfolding not_a_servlet
not_a_servlet-always path =
    last_two (not (ends_with path (lit ".so"))) _ _
      (not_both (base_name path) (lit "zrpc_base.so") (lit "libztype.so") refl)

ismodule-refused :
    (m : Loader) (path : Str) (servlets : List Servlet)
    → ismodule m path servlets ≡ (false, servlets)
unfolding ismodule
ismodule-refused m path servlets = rw (not_a_servlet-always path) refl

find_modules-none :
    (m : Loader) (paths : List Str) (found : List Str × List Servlet)
    → find_modules m paths found ≡ found
unfolding find_modules
find_modules-none m [] found = refl
find_modules-none m (path ∷ paths) found =
    rw (ismodule-refused m path found.1) (find_modules-none m paths found)

-- Whatever modules stand below the path of the servlets, none is brought in: where the base library
-- loads, its own servlets are all there are.
pub modules_load-base :
    (m : Loader) (servlets : List Servlet)
    → m.base_loads ≡ true
    → m.base_symbol ≡ true
    → m.base ≡ some servlets
    → modules_load m ≡ some (with_base (m.list_get []), servlets)
unfolding modules_load modules_found
modules_load-base m servlets h k e = simp (h, k, e, find_modules-none) refl

emit_all-field :
    {A B : Type 0} (g : Server → B)
    → ((e : ServerEffect) (s : Server) → g (emit e s) ≡ g s)
    → (f : A → ServerEffect) (xs : List A) (s : Server) → g (emit_all f xs s) ≡ g s
emit_all-field g k f [] s = refl
emit_all-field g k f (x ∷ xs) s = emit_all-field g k f xs (emit (f x) s) ∙ k (f x) s

-- What a reload leaves, where the base library and the database module load.
pub record IsReloaded (modules : List Str) (servlets : List Servlet) (s t : Server) : Type 0 where
  config : t.config ≡ s.config
  new_servlets : t.servlets ≡ servlets
  new_modules : t.servlet_modules ≡ modules
  waiting : t.reload_modules_list ≡ s.reload_modules_list
  begun : t.reload_modules ≡ s.reload_modules
  loading : t.reloading_modules ≡ true

-- The server once the old modules are gone and the new servlets are there.
abbrev unloaded : List Servlet → Server → Server
unloaded servlets s = emit_all ServerEffect.module_add servlets (
    emit_all ServerEffect.module_del s.servlets
      (emit_all ServerEffect.module_free s.servlet_modules s))

unloaded-field :
    {B : Type 0} (g : Server → B)
    → ((e : ServerEffect) (s : Server) → g (emit e s) ≡ g s)
    → (servlets : List Servlet) (s : Server) → g (unloaded servlets s) ≡ g s
unloaded-field g k servlets s =
    emit_all-field g k ServerEffect.module_add servlets _
    ∙ emit_all-field g k ServerEffect.module_del s.servlets _
    ∙ emit_all-field g k ServerEffect.module_free s.servlet_modules s

abbrev swapped : List Str → List Servlet → Server → Server
swapped modules servlets s = record (unloaded servlets s) {
  servlets = servlets;
  servlet_modules = modules;
  tmp_servlet_modules = modules;
}

-- The server once the new modules are there and the database is being connected.
abbrev renewed : List Str → List Servlet → Server → Server
renewed modules servlets s = record (setup_sigsegv (swapped modules servlets s)) {
  reloading_modules = true;
}

renewed-IsReloaded :
    (modules : List Str) (servlets : List Servlet) (s : Server)
    → IsReloaded modules servlets s (renewed modules servlets s)
unfolding setup_sigsegv
renewed-IsReloaded modules servlets s = record {
  config = unloaded-field (λ t. t.config) (λ e t. refl) servlets s;
  new_servlets = refl;
  new_modules = refl;
  waiting = unloaded-field (λ t. t.reload_modules_list) (λ e t. refl) servlets s;
  begun = unloaded-field (λ t. t.reload_modules) (λ e t. refl) servlets s;
  loading = refl;
}

modules_reload_with-renewed :
    (m : Loader) (modules : List Str) (servlets : List Servlet) (s : Server)
    → m.db_init ≡ true
    → modules_reload_with m (some (modules, servlets)) s ≡ Run.running (renewed modules servlets s)
unfolding modules_reload_with
modules_reload_with-renewed m modules servlets s h = rw (h) refl

-- The server after the SIGHUP that had to wait for clients.
abbrev pub deferred : ℤ → Server → Server
deferred current s = record (setup_sigsegv (record s { reload_modules = true })) { last = current }

signals_handler-deferred :
    (prefix : Str) (read : Reader) (m : Loader) (current : ℤ) (s : Server)
    → s.reload_modules ≡ false
    → ltb_ℤ (current -ℤ s.last) (pos 5) ≡ true
    → (m.clients == 0) ≡ false
    → signals_handler prefix read m Signal.hangup current s ≡ Run.running (deferred current s)
unfolding signals_handler hangup modules_reload_begin and_then
signals_handler-deferred prefix read m current s h k l = rw (h, k, l) refl

server_client_disc-renewed :
    (m : Loader) (servlets : List Servlet) (s : Server)
    → s.reload_modules ≡ true
    → m.clients ≡ 0
    → m.base_loads ≡ true
    → m.base_symbol ≡ true
    → m.base ≡ some servlets
    → m.db_init ≡ true
    → server_client_disc m s
      ≡ Run.running
          (renewed (with_base (m.list_get [])) servlets (record s { reload_modules = true }))
unfolding server_client_disc modules_reload_begin
server_client_disc-renewed m servlets s h k l b e d =
    rw (h, k, modules_load-base m servlets l b e)
      (modules_reload_with-renewed m (with_base (m.list_get [])) servlets
        (record s { reload_modules = true }) d)

-- A SIGHUP within five seconds of the signal before, while clients are connected, marks a reload of
-- the modules; a disconnection after which no client is left runs it: the servlets are those of the
-- base library, the configuration is as it was, the calls that wait still wait, and the database is
-- being connected.
pub deferred_reload-runs :
    (prefix : Str) (read : Reader) (m n : Loader) (servlets : List Servlet) (current : ℤ)
    (s : Server)
    → s.reload_modules ≡ false
    → ltb_ℤ (current -ℤ s.last) (pos 5) ≡ true
    → (m.clients == 0) ≡ false
    → n.clients ≡ 0
    → n.base_loads ≡ true
    → n.base_symbol ≡ true
    → n.base ≡ some servlets
    → n.db_init ≡ true
    → (t : Server) × ((and_then
            (signals_handler prefix read m Signal.hangup current s)
            (server_client_disc n)
          ≡ Run.running t)
        × IsReloaded (with_base (n.list_get [])) servlets (deferred current s) t)
unfolding and_then setup_sigsegv
deferred_reload-runs prefix read m n servlets current s h k l c b y e d = (
  renewed (with_base (n.list_get [])) servlets (deferred current s),
  (
    ap (λ r. and_then r (server_client_disc n))
          (signals_handler-deferred prefix read m current s h k l)
        ∙ server_client_disc-renewed n servlets (deferred current s) refl c b y e d,
    renewed-IsReloaded (with_base (n.list_get [])) servlets (deferred current s),
  ),
)
