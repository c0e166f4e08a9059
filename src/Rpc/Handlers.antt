-- ===== src/Rpc/Handlers.antt =====
-- `error_handler` and `result_handler` of src/bin/loop.c: what ends a call once the database layer
-- has raised its event.
use ezrpc.Base.{true, false, not, ◌&&◌, if◌then◌else◌, some, []}
use ezrpc.Rpc.Faults.{is_error}
use ezrpc.Rpc.State.{Ctx, Value, Effect}
use ezrpc.Rpc.Macros.{set_fault, emit}

unfoldable pub error_handler : Ctx → Ctx
unfolding set_fault
error_handler s =
    if s.dead
    then s
    else (let t = set_fault s.error s in
        let u = record t { cbs = []; params = λ k. Value.null } in
        record (emit (Effect.resume false) u) { dead = true })

-- The fault that `result_handler` sets on the content before it looks at the return callback.
unfoldable pub set_result_fault : Ctx → Ctx
unfolding set_fault
set_result_fault s = if is_error s.error then set_fault s.error s else s

-- `azy_content_retval_set(content, cb(ctx->retval))`. The converted value is the value itself.
unfoldable pub set_result : Ctx → Ctx
set_result s = if is_error s.error then s else record s { content_retval = some s.retval }

unfoldable pub result_handler : Ctx → Ctx
unfolding set_result_fault set_result
result_handler s =
    let done = λ (t : Ctx). record (emit (Effect.resume true) t) { dead = true } in
    if s.dead
    then s
    else if s.has_content && not s.ret_set
    then (let t = set_result_fault s in
        if s.has_retval_cb
        then done (set_result t)
        else emit (Effect.resume (not (is_error s.error))) t)
    else done s
