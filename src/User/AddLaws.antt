-- ===== src/User/AddLaws.antt =====
-- What `_addUser` does with the answer on the name.
use ezrpc.Base.{◌≡◌, ◌≤◌, refl, arith, true, false, some, [], ◌∷◌}
use ezrpc.Rpc.Faults.{is_error}
use ezrpc.Rpc.State.{Ctx, Fn, Value, Query, Effect, User, as_bool}
use ezrpc.Rpc.Macros.{mark_cb, resume, rewind}
use ezrpc.Rpc.Database.{Answer, query_kind, qia}
use ezrpc.Rpc.Env.{Env}
use ezrpc.User.Callbacks.{user_cb_name}
use ezrpc.User.Add.{bad_user, add_user}
use ezrpc.Group.Laws.{as_bool-answer_int}
use ezrpc.Dispatch.Steps.{
  IsWaiting, missing_fault, answer_int, event_cb-user_name, asked, db_call-asked, ctx_return-alone,
  ctx_cb_add-alone, IsFresh,
}
use ezrpc.Dispatch.Chain.{call_fn, run_chain, go_on, follow, deliver}

-- The state that waits for the answer on the name.
abbrev naming : User → Ctx → Ctx
naming u s = record (asked (Query.is_user_name (some u.username)) s) { cbs = Fn.user_cb_name ∷ [] }

starts_add :
    (env : Env) (u : User) (s : Ctx)
    → env.sent (Query.is_user_name (some u.username)) ≡ true
    → bad_user env u ≡ false
    → IsFresh s
    → (add_user env u s).0 ≡ naming u s
unfolding add_user query_kind
starts_add env u s sent good r = ground (
  arith,
  db_call-asked env (Query.is_user_name (some u.username)) s refl sent,
  ctx_cb_add-alone Fn.user_cb_name (asked (Query.is_user_name (some u.username)) s) r.alive
      r.no_fault r.no_chain,
  ctx_return-alone (naming u s) r.no_fault r.no_result,
)

deliver-user_name :
    (env : Env) (q : Query) (a : Answer) (s : Ctx)
    → query_kind q ≡ qia
    → IsWaiting Fn.user_cb_name s
    → a.failed ≡ false
    → a.rows ≤ 1
    → deliver env q a s
      ≡ user_cb_name (answer_int a) (record s { state = false; error = missing_fault a })
unfolding deliver follow run_chain call_fn go_on
deliver-user_name env q a s e w h k = rw (e, event_cb-user_name a s w h k, w.chain) refl

user_cb_name-refuses :
    (v : Value) (s : Ctx)
    → s.dead ≡ false
    → s.has_content ≡ true
    → as_bool v ≡ true
    → ((user_cb_name v s).log ≡ Effect.resume false ∷ s.log)
      × (is_error (user_cb_name v s).content_fault ≡ true)
unfolding user_cb_name mark_cb resume rewind
user_cb_name-refuses v s h k l = ground arith

-- Adding a user whose fields are good fails for every name. Where the name is free, the callback is
-- handed -1, which the `Eina_Bool` it takes reads as true; where it is taken, it is handed the
-- user's id, whose low byte is taken to be nonzero. In both cases the call is resumed with false, a
-- fault is set, and no user is sent to the database.
pub add_user-fails :
    (env : Env) (u : User) (s : Ctx)
    → env.sent (Query.is_user_name (some u.username)) ≡ true
    → bad_user env u ≡ false
    → IsFresh s
    → s.has_content ≡ true
    → (a : Answer) → a.failed ≡ false
    → a.rows ≤ 1
    → (a.rows ≡ 1 → as_bool a.value ≡ true)
    → let q = Query.is_user_name (some u.username) in
      let t = deliver env q a (add_user env u s).0 in
      (t.log ≡ Effect.resume false ∷ Effect.query q ∷ s.log) × (is_error t.content_fault ≡ true)
unfolding query_kind
add_user-fails env u s sent good r c a h k l =
    rw
      (
        starts_add env u s sent good r,
        deliver-user_name env (Query.is_user_name (some u.username)) a (naming u s) refl
            (record { alive = r.alive; no_fault = r.no_fault; chain = refl }) h k,
      )
      (user_cb_name-refuses (answer_int a) _ r.alive c (as_bool-answer_int a.rows a.value k l))
