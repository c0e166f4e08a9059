-- ===== src/User/Laws.antt =====
-- The attribute calls and the logout of functions-user.c, on all their branches.
use ezrpc.Base.{
  ℕ, zero, suc, ◌+◌, ◌-◌, ◌^◌, ◌<◌, ◌≡◌, ◌==◌, refl, sym, ap, subst, ◌∙◌, arith, Bool, true, false,
  not, ◌||◌, some, [], ◌∷◌, if◌then◌else◌,
}
use ezrpc.Base.Int.{ℤ}
use ezrpc.Rpc.Faults.{Fault}
use ezrpc.Rpc.State.{Str, CStr, Ctx, Fn, Value, Query, Effect, decr, lit}
use ezrpc.Rpc.Macros.{ctx_cb_add, ctx_return, mark_cb, set_fault, Handoff, azy_retval}
use ezrpc.Rpc.Database.{db_call, query_kind}
use ezrpc.Rpc.Env.{Env, bytes_eq}
use ezrpc.User.Fields.{
  FieldCheck, is_long_name, check_active, check_field, apply_check, user_setattr_check,
}
use ezrpc.User.Callbacks.{user_cb_logout_deauth}
use ezrpc.User.Accounts.{send_if, set_user_attribute}
use ezrpc.Dispatch.Steps.{IsFresh, asked, db_call-asked, ctx_return-passes, ctx_cb_add-alone}

-- No string is both "0" and "1".
not_both : (v : Str) → (not (bytes_eq v (lit "0")) || not (bytes_eq v (lit "1"))) ≡ true
not_both [] = refl
not_both (x ∷ []) = ground arith
not_both (x ∷ y ∷ ys) = ground arith

module _ (env : Env) (compares : (a b : Str) → env.same (some a) (some b) ≡ bytes_eq a b) where
  check_active-refused : (v : Str) → check_active env v ≡ FieldCheck.refused
  check_active-refused v = rw (compares v (lit "0"), compares v (lit "1"), not_both v) refl

  check_field-active :
      (n : ℕ) (v : Str) → check_field env n (some (lit "active")) v ≡ FieldCheck.refused
  unfolding check_field
  check_field-active n v =
      rw
        (
          compares (lit "active") (lit "name"),
          compares (lit "active") (lit "email"),
          compares (lit "active") (lit "active"),
        )
        (check_active-refused v)

-- A refused value sends nothing.
refused-log :
    (env : Env) (q : Query) (s : Ctx)
    → s.has_content ≡ true
    → let t = (send_if env q (apply_check env FieldCheck.refused s)).0 in
      (t.log ≡ Effect.resume false ∷ Effect.resume false ∷ s.log)
      × (t.content_fault ≡ Fault.invalid_parameter)
unfolding send_if apply_check ctx_return set_fault
refused-log env q s h = rw h (refl, refl)

sent-log :
    (env : Env) (takes : (q : Query) → env.sent q ≡ true) (q : Query) (s : Ctx)
    → s.error ≡ Fault.no_error
    → s.ret_set ≡ false
    → (send_if env q (s, true)).0.log ≡ Effect.query q ∷ s.log
unfolding send_if db_call ctx_return
sent-log env takes q s h k = rw (takes q, h, k) refl

-- A value that is asked about is sent at once.
asked-log :
    (env : Env) (takes : (q : Query) → env.sent q ≡ true) (q u : Query) (f : Fn) (s : Ctx)
    → (query_kind u).single ≡ true
    → IsFresh s
    → (send_if env q (apply_check env (FieldCheck.ask u f) s)).0.log
      ≡ Effect.query q ∷ Effect.query u ∷ s.log
unfolding apply_check
asked-log env takes q u f s e r =
    let t : Ctx = record (asked u s) { cbs = f ∷ [] } in
    ap (λ (p : Ctx × Bool). (send_if env q p).0.log)
      (ap ctx_return (
          ap (ctx_cb_add f) (db_call-asked env u s e (takes u))
          ∙ ctx_cb_add-alone f (asked u s) r.alive r.no_fault r.no_chain)
        ∙ ctx_return-passes t r.no_fault r.no_result)
    ∙ sent-log env takes q t r.no_fault r.no_result

-- The attribute "active" is refused with every value, "0" and "1" among them: no query is sent, and
-- the fault is INVALID_PARAMETER.
pub set_user_attribute-active :
    (env : Env)
    → ((a b : Str) → env.same (some a) (some b) ≡ bytes_eq a b)
    → (uid : ℤ) (value : Str) (s : Ctx) → s.has_content ≡ true
    → let t = (set_user_attribute env uid (some (lit "active")) value s).0 in
      (t.log ≡ Effect.resume false ∷ Effect.resume false ∷ s.log)
      × (t.content_fault ≡ Fault.invalid_parameter)
unfolding set_user_attribute user_setattr_check
set_user_attribute-active env compares uid value s h =
    subst
      (λ (c : FieldCheck).
        ((send_if env (Query.set_user_attribute uid (some (lit "active")) (some value))
            (apply_check env c s)).0.log
          ≡ Effect.resume false ∷ Effect.resume false ∷ s.log)
        × ((send_if env (Query.set_user_attribute uid (some (lit "active")) (some value))
              (apply_check env c s)).0.content_fault
            ≡ Fault.invalid_parameter))
      (sym (check_field-active env compares s.count value)) (refused-log env _ s h)

check_field-name :
    (env : Env) (n : ℕ) (attribute : CStr) (value : Str)
    → env.same attribute (some (lit "name")) ≡ true
    → is_long_name env value ≡ false
    → n ≡ 0
    → check_field env n attribute value
      ≡ FieldCheck.ask (Query.is_user_name (some value)) Fn.user_cb_name
unfolding check_field
check_field-name env n attribute value h k l = rw (h, k, l) refl

-- The attribute "name" of at most 255 bytes: the first run asks whether the name is there and, not
-- waiting for the answer, sends the update.
pub set_user_attribute-name :
    (env : Env)
    → ((q : Query) → env.sent q ≡ true)
    → (uid : ℤ) (attribute : CStr) (value : Str) (s : Ctx)
    → env.same attribute (some (lit "name")) ≡ true
    → is_long_name env value ≡ false
    → IsFresh s
    → (set_user_attribute env uid attribute value s).0.log
      ≡ Effect.query (Query.set_user_attribute uid attribute (some value))
        ∷ Effect.query (Query.is_user_name (some value))
        ∷ s.log
unfolding set_user_attribute user_setattr_check query_kind
set_user_attribute-name env takes uid attribute value s h k r =
    subst
      (λ (c : FieldCheck).
        (send_if env (Query.set_user_attribute uid attribute (some value))
          (apply_check env c s)).0.log
        ≡ Effect.query (Query.set_user_attribute uid attribute (some value))
          ∷ Effect.query (Query.is_user_name (some value))
          ∷ s.log)
      (sym (check_field-name env s.count attribute value h k r.first))
      (asked-log env takes _ (Query.is_user_name (some value)) Fn.user_cb_name s refl r)

-- The state after `n` answers in a row that each deauthorise one session.
abbrev pub run_deauths : ℕ → Ctx → Ctx
run_deauths zero s = s
run_deauths (suc n) s = (user_cb_logout_deauth Value.null (run_deauths n s)).0

decr-lem : (n : ℕ) → 0 < n → n < 2 ^ 32 → decr n ≡ n - 1
decr-lem n h k = omega arith

one_deauth :
    (v : Value) (s : Ctx)
    → ((user_cb_logout_deauth v s).0.count ≡ decr s.count)
      × ((user_cb_logout_deauth v s).1
          ≡ (if decr s.count == 0 then Handoff.next_cb Value.null else Handoff.stop))
unfolding user_cb_logout_deauth mark_cb azy_retval
one_deauth v s = ground arith

run_deauths-count :
    (n : ℕ) (s : Ctx) → n < s.count → s.count < 2 ^ 32 → (run_deauths n s).count ≡ s.count - n
run_deauths-count zero s h k = omega arith
run_deauths-count (suc n) s h k = omega (
  arith,
  (one_deauth Value.null (run_deauths n s)).0,
  decr-lem (run_deauths n s).count,
  run_deauths-count n s (omega arith) k,
)

last_deauth :
    (d : ℕ) (x y : Handoff)
    → 0 < d
    → d < 2 ^ 32
    → (if decr d == 0 then x else y) ≡ (if d == 1 then x else y)
last_deauth d x y h k = rw (decr-lem d h k) (go d h)
  where
    go : (d : ℕ) → 0 < d → (if d - 1 == 0 then x else y) ≡ (if d == 1 then x else y)
    go d h = ground arith

last_sub :
    (c n : ℕ) (x y : Handoff)
    → n < c
    → (if c - n == 1 then x else y) ≡ (if c == n + 1 then x else y)
last_sub c n x y h = ground arith

-- Of the answers to the queries of a logout, the last one goes on to the next callback and every
-- earlier one stops, for a count of sessions that fits an unsigned int.
pub run_deauths-last :
    (v : Value) (n : ℕ) (s : Ctx)
    → n < s.count
    → s.count < 2 ^ 32
    → (user_cb_logout_deauth v (run_deauths n s)).1
      ≡ (if s.count == n + 1 then Handoff.next_cb Value.null else Handoff.stop)
run_deauths-last v n s h k =
    let d = run_deauths-count n s h k in
    (one_deauth v (run_deauths n s)).1
    ∙ ap (λ c. if decr c == 0 then Handoff.next_cb Value.null else Handoff.stop) d
    ∙ last_deauth (s.count - n) _ _ (omega arith) (omega arith)
    ∙ last_sub s.count n _ _ h
