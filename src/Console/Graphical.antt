-- ===== src/Console/Graphical.antt =====
-- `_connectGraphicalConsole` of functions-console.c. A run of the call is one case of its switch.
use ezrpc.Base.{◌==◌, ◌%◌, Bool, false, not, ◌&&◌, ◌||◌, some, if◌then◌else◌}
use ezrpc.Base.Int.{ℤ, pos, ltb_ℤ}
use ezrpc.Rpc.Faults.{Fault, is_error}
use ezrpc.Rpc.State.{CStr, Ctx, Fn, Value, Session, Effect, Command, lit, as_int, is_null, incr}
use ezrpc.Rpc.Macros.{
  ctx_return, ctx_cb_add, ctx_value_return, ctx_int_return, drop_param, azy_ret, resume, emit,
}
use ezrpc.Rpc.Env.{Env}
use ezrpc.Session.Check.{get_config}
use ezrpc.Console.Calls.{
  has_console_lock, acquire_console_lock, release_console_lock, get_vm_parent_address,
  get_vm_attribute, save_graphical_console_port,
}
use ezrpc.Console.Text.{started}

-- Case 1.
unfoldable pub graphical_config : Env → Ctx → Ctx
unfolding ctx_value_return
graphical_config env s =
    if not (is_error s.error)
    then record s { error = Fault.console_locked }
    else ctx_value_return Fn.connect_graphical_console
        (get_config env s (some (lit "console_port_range"))).0

-- Case 2.
unfoldable pub graphical_port : Env → CStr → Ctx → Ctx
unfolding drop_param get_vm_attribute ctx_int_return
graphical_port env uuid s =
    let t = record (drop_param Fn.connect_graphical_console s) {
      error = Fault.no_error;
      data_ptr = s.params Fn.connect_graphical_console;
    } in
    ctx_int_return Fn.connect_graphical_console (get_vm_attribute env uuid (lit "vncport") t).0

-- Case 3. `_acquireConsoleLock` is called at the count 3, at which it asks for nothing.
unfoldable pub graphical_lock : Env → Session → CStr → Ctx → Ctx
unfolding drop_param acquire_console_lock ctx_cb_add
graphical_lock env session uuid s =
    let t = record (drop_param Fn.connect_graphical_console s) {
      retval = s.params Fn.connect_graphical_console;
    } in
    if is_error t.error
    then record t { error = Fault.console_connect_failed }
    else ctx_cb_add Fn.cb_bool_rewind (acquire_console_lock env uuid session (some (lit "vnc")) t).0

-- Case 5.
unfoldable pub graphical_tunnel : Ctx → Ctx
graphical_tunnel s =
    if ltb_ℤ (as_int s.data_ptr) (pos 0)
    then record s { error = Fault.console_connect_failed }
    else emit Effect.thread s

abbrev pub same_port : ℤ → ℤ → Bool
same_port a b = not (ltb_ℤ a b) && not (ltb_ℤ b a)

-- Case 6.
unfoldable pub graphical_address : Env → CStr → Ctx → Ctx
unfolding get_vm_parent_address ctx_value_return
graphical_address env uuid s =
    let tunnelport = as_int s.data2 in
    if ltb_ℤ tunnelport (pos 0) || same_port tunnelport (as_int s.data_ptr)
    then record s { error = Fault.console_connect_failed }
    else ctx_value_return Fn.connect_graphical_console (get_vm_parent_address env uuid s).0

-- What follows the start of ssh or of zproxy: `data` holds a port when it is passed to
-- `eina_stringshare_del`.
unfoldable pub graphical_started : Env → Bool → Session → CStr → Ctx → Ctx
unfolding release_console_lock ctx_cb_add
graphical_started env runs session uuid s =
    if runs
    then emit Effect.timer_add s
    else emit Effect.undefined (
        ctx_cb_add Fn.cb_bool_rewind
          (release_console_lock env uuid session.session_id (some (lit "vnc")) s).0)

-- Case 7. What `ecore_exe_run` returned is overwritten by the port of the tunnel.
unfoldable pub graphical_ssh : Env → Bool → Session → CStr → Ctx → Ctx
unfolding drop_param graphical_started
graphical_ssh env runs session uuid s =
    if is_error s.error
    then s
    else (let command =
          Command.ssh uuid (as_int s.data2) s.retval (s.params Fn.connect_graphical_console) in
        let t = graphical_started env runs session uuid (
          emit (Effect.exe command)
            (record (drop_param Fn.connect_graphical_console s) { retval = started runs })) in
        record t { retval = Value.int (as_int t.data2); count = incr t.count })

-- Case 8.
unfoldable pub graphical_save : Env → CStr → Ctx → Ctx
unfolding save_graphical_console_port ctx_cb_add
graphical_save env uuid s =
    if is_null s.retval
    then record s { error = Fault.console_connect_failed }
    else if is_error s.error
    then s
    else ctx_cb_add Fn.cb_bool_rewind
        (save_graphical_console_port env uuid (as_int s.retval) (as_int s.data_ptr) s).0

-- `ecore_exe_tag_set(ctx->retval, …)` in case 9, where `retval` is the port of the tunnel.
abbrev pub tagged : Bool → Ctx → Ctx
tagged runs s = if runs then emit Effect.undefined s else s

-- Case 9.
unfoldable pub graphical_proxy : Env → Bool → Session → CStr → Ctx → Ctx
unfolding graphical_started
graphical_proxy env runs session uuid s =
    let command = Command.zproxy (as_int s.retval) (as_int s.data_ptr) session.session_id uuid in
    let t =
      graphical_started env runs session uuid
        (tagged runs (emit (Effect.exe command) (record s { error = Fault.no_error }))) in
    record t { retval = if runs then t.retval else Value.null; count = incr t.count }

abbrev pub low_bit : ℤ → Bool
low_bit (pos n) = n % 2 == 1
low_bit _ = false

-- Case 10. `ctx->ret` is one bit: of the port only the lowest bit is left.
unfoldable pub graphical_answer : Ctx → Ctx
unfolding azy_ret resume
graphical_answer s =
    if is_null s.retval
    then record s { error = Fault.console_connect_failed }
    else if is_error s.error
    then s
    else resume (azy_ret (low_bit (as_int s.data_ptr)) s)

-- The cases from 5 on.
unfoldable pub graphical_late : Env → Bool → Session → CStr → Ctx → Ctx
unfolding graphical_tunnel graphical_address graphical_ssh graphical_save graphical_proxy
    graphical_answer
graphical_late env runs session uuid s =
    if s.count == 5
    then graphical_tunnel s
    else if s.count == 6
    then graphical_address env uuid s
    else if s.count == 7
    then graphical_ssh env runs session uuid s
    else if s.count == 8
    then graphical_save env uuid s
    else if s.count == 9
    then graphical_proxy env runs session uuid s
    else if s.count == 10
    then graphical_answer s
    else s

-- The switch; `runs` tells whether the program that a run starts comes up.
unfoldable pub graphical_case : Env → Bool → Session → CStr → Ctx → Ctx
unfolding has_console_lock ctx_cb_add graphical_config graphical_port graphical_lock graphical_late
graphical_case env runs session uuid s =
    if s.count == 0
    then ctx_cb_add Fn.cb_bool_rewind (has_console_lock env uuid (some (lit "vnc")) s).0
    else if s.count == 1
    then graphical_config env s
    else if s.count == 2
    then graphical_port env uuid s
    else if s.count == 3
    then graphical_lock env session uuid s
    else if s.count == 4
    then (if is_error s.error then record s { error = Fault.db_fail } else emit Effect.thread s)
    else graphical_late env runs session uuid s

-- `_connectGraphicalConsole`.
unfoldable pub connect_graphical_console : Env → Bool → Session → CStr → Ctx → Ctx × Bool
unfolding graphical_case
connect_graphical_console env runs session uuid s =
    ctx_return (graphical_case env runs session uuid s)
