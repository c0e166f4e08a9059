-- ===== src/Rpc/Callbacks.antt =====
-- The shared callbacks of src/servlets/functions/functions_cb.c, and `loop_cb_bool_rewind` of
-- src/bin/loop.c. A callback takes the result of the query that it waited for.
use ezrpc.Base.{true, not, ◌&&◌, if◌then◌else◌}
use ezrpc.Rpc.Faults.{is_error}
use ezrpc.Rpc.State.{Ctx, Fn, Value, Effect, incr, as_bool, is_null}
use ezrpc.Rpc.Macros.{mark_cb, set_param, drop_param, resume, rewind, emit}

-- `CTX_PARAM_ADD_FROM_VARIABLE(cb, v)`, with the slot name read from a parameter.
abbrev pub set_named : Value → Value → Ctx → Ctx
set_named (Value.fn k) v s = set_param k v s
set_named _ v s = s

unfoldable pub cb_bool_job : Value → Ctx → Ctx
unfolding mark_cb
cb_bool_job ret s =
    let s = mark_cb s in
    if s.dead then s else emit (Effect.job s.job) (record s { count = incr s.count })

unfoldable pub cb_int_job : Value → Ctx → Ctx
unfolding mark_cb drop_param
cb_int_job ret s =
    let s = mark_cb s in
    if s.dead
    then s
    else (let cb = s.params Fn.cb_int_job in
        let t = record (drop_param Fn.cb_int_job s) { count = incr s.count } in
        emit (Effect.job s.job) (if is_null ret then t else set_named cb ret t))

unfoldable pub cb_pointer_job : Value → Ctx → Ctx
unfolding mark_cb drop_param
cb_pointer_job ret s =
    if s.dead
    then s
    else (let s = mark_cb s in
        let cb = s.params Fn.cb_pointer_job in
        let t = record (drop_param Fn.cb_pointer_job s) { count = incr s.count } in
        emit (Effect.job s.job) (if is_null ret then t else set_named cb ret t))

unfoldable pub cb_int_rewind : Value → Ctx → Ctx
unfolding mark_cb rewind resume
cb_int_rewind ret s = let s = mark_cb s in resume (rewind (record s { count = incr s.count }))

unfoldable pub cb_bool_rewind : Value → Ctx → Ctx
unfolding mark_cb rewind
cb_bool_rewind ret s =
    let s = mark_cb s in
    if s.dead then s else emit (Effect.resume true) (rewind (record s { count = incr s.count }))

unfoldable pub cb_auth_rewind : Value → Ctx → Ctx
unfolding mark_cb rewind
cb_auth_rewind ret s =
    let s = mark_cb s in
    if s.dead
    then s
    else emit (Effect.resume true)
        (rewind (record s { count = 0; auth = as_bool ret && not (is_error s.error) }))

unfoldable pub cb_pointer_return : Value → Ctx → Ctx
unfolding mark_cb rewind set_param
cb_pointer_return ret s =
    if s.dead
    then s
    else (let s = mark_cb s in
        let cb = s.params Fn.cb_pointer_return in
        let t = record s { count = incr s.count } in
        emit (Effect.resume true) (rewind (if is_null ret then t else set_named cb ret t)))

unfoldable pub cb_int_return : Value → Ctx → Ctx
unfolding mark_cb rewind set_param
cb_int_return ret s =
    if s.dead
    then s
    else (let s = mark_cb s in
        let cb = s.params Fn.cb_int_return in
        emit (Effect.resume true) (rewind (set_named cb ret (record s { count = incr s.count }))))

-- `loop_cb_bool_rewind` of loop.c.
unfoldable pub loop_cb_bool_rewind : Value → Ctx → Ctx
unfolding mark_cb rewind
loop_cb_bool_rewind ret s =
    let s = mark_cb s in emit (Effect.resume true) (rewind (record s { count = incr s.count }))
