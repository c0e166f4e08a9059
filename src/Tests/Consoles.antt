-- ===== src/Tests/Consoles.antt =====
-- Consoles.
use ezrpc.Base.{◌≡◌, ltb, true, false, refl, arith, some, [], ◌∷◌}
use ezrpc.Rpc.Faults.{Fault}
use ezrpc.Rpc.State.{CStr, Ctx, Effect, lit}
use ezrpc.Dispatch.Chain.{deliver}
use ezrpc.Dispatch.Steps.{IsFresh}
use ezrpc.Console.Text.{connect_text_console}
use ezrpc.Console.Ports.{get_free_tcp_port_between}
use ezrpc.Console.Search.{IsPort, get_free_tcp_port_between-IsPort}
use ezrpc.Console.Refused.{lock_query, connect_text_console-refused}
use ezrpc.Tests.{test_env, test_ctx, test_session, no_row}

fresh : IsFresh test_ctx
fresh = record { alive = refl; no_fault = refl; no_result = refl; no_chain = refl; first = refl }

abbrev vm : CStr
vm = some (lit "6f1c")

abbrev asked : Ctx
asked = (connect_text_console test_env true test_session vm test_ctx).0

abbrev answered : Ctx
answered = deliver test_env (lock_query vm) no_row asked

abbrev refused : Ctx
refused = (connect_text_console test_env true test_session vm answered).0

connect_text_console-refused_example :
    (refused.content_fault ≡ Fault.unknown_resource)
    × (refused.log
        ≡ Effect.resume false
          ∷ Effect.resume false
          ∷ Effect.resume true
          ∷ Effect.rewind
          ∷ Effect.query (lock_query vm)
          ∷ test_ctx.log)
    × (refused.cbs ≡ [])
    × (asked.log ≡ Effect.query (lock_query vm) ∷ test_ctx.log)
connect_text_console-refused_example =
    connect_text_console-refused test_env (λ q. refl) true test_session vm no_row test_ctx fresh
      refl refl (omega arith)

-- Ports from 5901 on are free.
get_free_tcp_port_between-IsPort_example :
    IsPort (ltb 5900) 5900 5910 (get_free_tcp_port_between true (ltb 5900) 5900 5910)
get_free_tcp_port_between-IsPort_example =
    get_free_tcp_port_between-IsPort (ltb 5900) 5900 5910 (omega arith) (omega arith)
