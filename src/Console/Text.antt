-- ===== src/Console/Text.antt =====
-- `_connectTextConsole` of functions-console.c. A run of the call is one case of its switch.
use ezrpc.Base.{◌==◌, Bool, true, false, not, some, if◌then◌else◌}
use ezrpc.Base.Int.{ℤ, pos, ltb_ℤ}
use ezrpc.Rpc.Faults.{Fault, is_error}
use ezrpc.Rpc.State.{CStr, Ctx, Fn, Value, Session, Effect, Command, lit, as_int, is_null, incr}
use ezrpc.Rpc.Macros.{
  ctx_return, ctx_cb_add, ctx_value_return, ctx_int_return, drop_param, azy_retval, resume, rewind,
  emit,
}
use ezrpc.Rpc.Env.{Env}
use ezrpc.Console.Calls.{
  has_console_lock, acquire_console_lock, release_console_lock, get_vm_parent_address, get_vm_stat,
  save_text_console_port,
}

-- `console_port_find`: `port` is what `get_random_free_tcp_port` gives.
unfoldable pub console_port_find : ℤ → Ctx → Ctx
console_port_find port s = record s { data2 = Value.int port }

-- `console_port_find_end`.
unfoldable pub console_port_find_end : Ctx → Ctx
unfolding rewind resume
console_port_find_end s = resume (rewind (record s { count = incr s.count }))

-- `console_cb_timer`: the program has run for half a second. `s` is the context of the call.
unfoldable pub console_cb_timer : Ctx → Ctx
unfolding rewind
console_cb_timer s = emit (Effect.resume true) (rewind s)

-- What `ecore_exe_run` returns.
abbrev pub started : Bool → Value
started true = Value.process
started false = Value.null

-- The end of case 5: `data` holds the port when it is passed to `eina_stringshare_del`.
unfoldable pub text_started : Env → Bool → Session → CStr → Ctx → Ctx
unfolding release_console_lock ctx_cb_add
text_started env runs session uuid s =
    if runs
    then emit Effect.timer_add s
    else emit Effect.undefined (
        ctx_cb_add Fn.cb_bool_rewind
          (release_console_lock env uuid session.session_id (some (lit "text")) s).0)

-- Case 5, with the port that was found.
unfoldable pub text_run : Env → Bool → Session → CStr → Ctx → Ctx
unfolding drop_param text_started
text_run env runs session uuid s =
    let port = as_int s.data2 in
    if ltb_ℤ port (pos 0)
    then record s { error = Fault.console_connect_failed }
    else (let command =
          Command.shellinaboxd session.session_id uuid s.data_ptr (s.params Fn.connect_text_console)
            port in
        let t = emit (Effect.exe command) (record (drop_param Fn.connect_text_console s) {
          retval = started runs;
          data_ptr = Value.int port;
        }) in
        let u = text_started env runs session uuid t in record u { count = incr u.count })

-- Case 7.
unfoldable pub text_answer : Ctx → Ctx
unfolding azy_retval resume
text_answer s = resume (azy_retval s.data_ptr (record s { error = Fault.no_error }))

-- Case 6, which goes on with case 7.
unfoldable pub text_save : Env → CStr → Ctx → Ctx
unfolding save_text_console_port ctx_cb_add text_answer
text_save env uuid s =
    if is_null s.retval
    then record s { error = Fault.console_connect_failed }
    else if is_error s.error
    then record s { retval = Value.null }
    else text_answer (
        ctx_cb_add Fn.cb_bool_rewind
          (save_text_console_port env uuid (as_int s.data_ptr)
            (record s { retval = Value.null })).0)

-- Case 1.
unfoldable pub text_lock : Env → Session → CStr → Ctx → Ctx
unfolding acquire_console_lock ctx_cb_add
text_lock env session uuid s =
    if not (is_error s.error)
    then record s { error = Fault.console_locked }
    else ctx_cb_add Fn.cb_bool_rewind
        (acquire_console_lock env uuid session (some (lit "text")) s).0

-- Case 3.
unfoldable pub text_node : Env → CStr → Ctx → Ctx
unfolding drop_param get_vm_stat ctx_int_return
text_node env uuid s =
    let t = record (drop_param Fn.connect_text_console s) {
      data_ptr = s.params Fn.connect_text_console;
    } in
    if is_error t.error
    then t
    else ctx_int_return Fn.connect_text_console (get_vm_stat env uuid (lit "domid") t).0

-- The switch; `runs` tells whether `ecore_exe_run` starts the program.
unfoldable pub text_case : Env → Bool → Session → CStr → Ctx → Ctx
unfolding has_console_lock get_vm_parent_address ctx_cb_add ctx_value_return text_lock text_node
    text_run text_save text_answer
text_case env runs session uuid s =
    if s.count == 0
    then ctx_cb_add Fn.cb_bool_rewind (has_console_lock env uuid (some (lit "text")) s).0
    else if s.count == 1
    then text_lock env session uuid s
    else if s.count == 2
    then (if is_error s.error
        then record s { error = Fault.console_connect_failed }
        else ctx_value_return Fn.connect_text_console (get_vm_parent_address env uuid s).0)
    else if s.count == 3
    then text_node env uuid s
    else if s.count == 4
    then (if is_error s.error then s else emit Effect.thread s)
    else if s.count == 5
    then text_run env runs session uuid s
    else if s.count == 6
    then text_save env uuid s
    else if s.count == 7
    then text_answer s
    else s

-- `_connectTextConsole`.
unfoldable pub connect_text_console : Env → Bool → Session → CStr → Ctx → Ctx × Bool
unfolding text_case
connect_text_console env runs session uuid s = ctx_return (text_case env runs session uuid s)
