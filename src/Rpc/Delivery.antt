-- ===== src/Rpc/Delivery.antt =====
-- What every delivery does to the chain, and that a finished call is not touched again.
use ezrpc.Base.{◌≡◌, refl, arith, true, false, some, [], ◌∷◌}
use ezrpc.Rpc.Faults.{Fault}
use ezrpc.Rpc.State.{Ctx, Fn, Value, Effect}
use ezrpc.Rpc.Macros.{set_fault}
use ezrpc.Rpc.Handlers.{error_handler, result_handler, set_result_fault, set_result}

-- A call that was answered, by an error or by a result, is not answered again: whichever event
-- comes next finds the client dead and changes nothing.
pub record IsFinal (s : Ctx) : Type 0 where
  pub no_error : error_handler s ≡ s
  pub no_result : result_handler s ≡ s

dead-IsFinal : (s : Ctx) → s.dead ≡ true → IsFinal s
unfolding error_handler result_handler
dead-IsFinal s h = record { no_error = rw h refl; no_result = rw h refl }

error_handler-dead : (s : Ctx) → (error_handler s).dead ≡ true
unfolding error_handler
error_handler-dead s = ground arith

error_handler-log : (s : Ctx) → s.dead ≡ false → (error_handler s).log ≡ Effect.resume false ∷ s.log
unfolding error_handler set_fault
error_handler-log s h = ground arith

-- An error event answers once: the call is resumed with false, its chain and its parameters are
-- empty, and no later event changes it.
pub error_handler-IsFinal :
    (s : Ctx)
    → s.dead ≡ false
    → ((error_handler s).log ≡ Effect.resume false ∷ s.log)
      × ((error_handler s).cbs ≡ [])
      × ((k : Fn) → (error_handler s).params k ≡ Value.null)
      × IsFinal (error_handler s)
unfolding error_handler set_fault
error_handler-IsFinal s h =
    (error_handler-log s h, rw h refl, λ k. rw h refl, dead-IsFinal _ (error_handler-dead s))

-- A result event answers a call that has content and a converter, or has set its result: with the
-- value of the last query if there was no error.
pub result_handler-IsFinal :
    (s : Ctx)
    → s.dead ≡ false
    → s.has_content ≡ true
    → s.has_retval_cb ≡ true
    → s.ret_set ≡ false
    → s.error ≡ Fault.no_error
    → ((result_handler s).log ≡ Effect.resume true ∷ s.log)
      × ((result_handler s).content_retval ≡ some s.retval)
      × IsFinal (result_handler s)
unfolding result_handler set_result_fault set_result
result_handler-IsFinal s h1 h2 h3 h4 h5 = (
  rw (h1, h2, h4, h5, h3) refl,
  rw (h1, h2, h4, h5, h3) refl,
  dead-IsFinal _ (rw (h1, h2, h4, h5, h3) refl),
)
