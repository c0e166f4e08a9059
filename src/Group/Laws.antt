-- ===== src/Group/Laws.antt =====
-- Giving a group a name: what is sent once the database has answered whether the name is free.
use ezrpc.Base.{
  ℕ, zero, suc, ◌≡◌, ◌==◌, ◌≤◌, refl, ap, ◌∙◌, arith, true, false, some, [], ◌∷◌, if◌then◌else◌,
}
use ezrpc.Base.Int.{ℤ, negsuc}
use ezrpc.Rpc.Faults.{Fault, is_error}
use ezrpc.Rpc.State.{CStr, Ctx, Fn, Value, Query, Effect, UserGroup, as_bool}
use ezrpc.Rpc.Macros.{ctx_return, mark_cb, rewind, resume, set_param, drop_param, set_fault}
use ezrpc.Rpc.Callbacks.{cb_bool_rewind}
use ezrpc.Rpc.Database.{db_call, Answer, query_kind, qia}
use ezrpc.Rpc.Env.{Env}
use ezrpc.Group.Calls.{if_name_free, group_cb_add, rename_user_group, add_user_group}
use ezrpc.Dispatch.Steps.{
  IsWaiting, missing_fault, answer_int, event_cb-int, event_cb-group_add, asked, ctx_return-alone,
  IsFresh, ask_and_wait,
}
use ezrpc.Dispatch.Chain.{call_fn, run_chain, go_on, follow, deliver}

deliver-int :
    (env : Env) (q : Query) (a : Answer) (s : Ctx)
    → query_kind q ≡ qia
    → IsWaiting Fn.cb_bool_rewind s
    → a.failed ≡ false
    → a.rows ≤ 1
    → deliver env q a s
      ≡ cb_bool_rewind (answer_int a) (record s { state = false; error = missing_fault a })
unfolding deliver follow run_chain call_fn go_on
deliver-int env q a s e w h k = rw (e, event_cb-int a s w h k, w.chain) refl

module _ (env : Env) (takes : (q : Query) → env.sent q ≡ true) (name : CStr) (q : Query) where
  -- The first run asks for the name.
  asks_name :
      (s : Ctx)
      → IsFresh s
      → (if_name_free env name q s).0
        ≡ record (asked (Query.is_user_group_by_name name) s) { cbs = Fn.cb_bool_rewind ∷ [] }
  unfolding if_name_free query_kind
  asks_name s r = ground (
    arith,
    ask_and_wait env (Query.is_user_group_by_name name) Fn.cb_bool_rewind s r refl (takes _),
    ctx_return-alone
        (record (asked (Query.is_user_group_by_name name) s) { cbs = Fn.cb_bool_rewind ∷ [] })
        r.no_fault r.no_result,
  )

  -- The state once the answer has been delivered.
  abbrev name_known : Answer → Ctx → Ctx
  name_known a s = record s {
    state = false;
    error = missing_fault a;
    cbs = [];
    count = 1;
    log =
        Effect.resume true
        ∷ Effect.rewind
        ∷ Effect.query (Query.is_user_group_by_name name)
        ∷ s.log;
  }

  deliver-name :
      (a : Answer) (s : Ctx)
      → IsFresh s
      → a.failed ≡ false
      → a.rows ≤ 1
      → deliver env (Query.is_user_group_by_name name) a (if_name_free env name q s).0
        ≡ name_known a s
  unfolding query_kind cb_bool_rewind rewind mark_cb
  deliver-name a s r h k =
      ap (deliver env (Query.is_user_group_by_name name) a) (asks_name s r)
      ∙ deliver-int env (Query.is_user_group_by_name name) a _ refl
          (record { alive = r.alive; no_fault = r.no_fault; chain = refl }) h k
      ∙ ground arith

  -- The run after the answer of `n` rows.
  named :
      (s : Ctx) (n : ℕ)
      → n ≤ 1
      → s.count ≡ 1
      → s.ret_set ≡ false
      → s.has_content ≡ true
      → s.error ≡ (if n == 0 then Fault.unknown_resource else Fault.no_error)
      → let t = (if_name_free env name q s).0 in
        (t.log ≡ (if n == 0 then Effect.query q else Effect.resume false) ∷ s.log)
        × (t.content_fault ≡ (if n == 0 then s.content_fault else Fault.entity_already_exists))
  unfolding if_name_free ctx_return db_call set_fault
  named s n b h1 h2 h3 h4 = ground (arith, takes q)

-- A call that renames a group, from its start: the database is asked for the new name, and once it
-- has answered, the group is renamed if no group has that name, and otherwise the call is refused
-- with ENTITY_ALREADY_EXISTS and nothing more is sent. The pool takes every query, and the answer
-- does not fail and has at most one row.
pub rename_user_group-runs :
    (env : Env)
    → ((q : Query) → env.sent q ≡ true)
    → (gid : ℤ) (name : CStr) (s : Ctx) → IsFresh s
    → s.has_content ≡ true
    → (a : Answer) → a.failed ≡ false
    → a.rows ≤ 1
    → let t =
        deliver env (Query.is_user_group_by_name name) a (rename_user_group env gid name s).0 in
      let u = (rename_user_group env gid name t).0 in
      ((rename_user_group env gid name s).0.log
        ≡ Effect.query (Query.is_user_group_by_name name) ∷ s.log)
      × (u.log
          ≡ (if a.rows == 0
              then Effect.query (Query.rename_user_group gid name)
              else Effect.resume false)
            ∷ t.log)
      × (u.content_fault ≡ (if a.rows == 0 then s.content_fault else Fault.entity_already_exists))
unfolding rename_user_group
rename_user_group-runs env takes gid name s r c a h k =
    let q = Query.rename_user_group gid name in
    let n =
      named env takes name q (name_known env takes name q a s) a.rows k refl r.no_result c refl in
    rw (deliver-name env takes name q a s r h k)
      (ap (λ (t : Ctx). t.log) (asks_name env takes name q s r), n.0, n.1)

deliver-group_add :
    (env : Env) (q : Query) (a : Answer) (s : Ctx)
    → query_kind q ≡ qia
    → IsWaiting Fn.group_cb_add s
    → a.failed ≡ false
    → a.rows ≤ 1
    → deliver env q a s
      ≡ group_cb_add env (answer_int a) (record s { state = false; error = missing_fault a })
unfolding deliver follow run_chain call_fn go_on
deliver-group_add env q a s e w h k = rw (e, event_cb-group_add a s w h k, w.chain) refl

-- The callback refuses whenever what it was handed is not false.
group_cb_add-refuses :
    (env : Env) (v : Value) (s : Ctx)
    → s.dead ≡ false
    → s.has_content ≡ true
    → as_bool v ≡ true
    → ((group_cb_add env v s).log ≡ Effect.resume false ∷ s.log)
      × (is_error (group_cb_add env v s).content_fault ≡ true)
unfolding group_cb_add mark_cb drop_param resume
group_cb_add-refuses env v s h k l = ground arith

pub as_bool-answer_int :
    (n : ℕ) (v : Value)
    → n ≤ 1
    → (n ≡ 1 → as_bool v ≡ true)
    → as_bool (if n == 0 then Value.int (negsuc 0) else v) ≡ true
as_bool-answer_int zero v h k = refl
as_bool-answer_int (suc zero) v h k = k refl
as_bool-answer_int (suc (suc n)) v h k = ground arith

-- The state that waits for the answer on the name.
abbrev adding : UserGroup → Ctx → Ctx
adding ug s =
    set_param Fn.group_cb_add (Value.group ug)
      (record (asked (Query.is_user_group_by_name (some ug.name)) s) { cbs = Fn.group_cb_add ∷ [] })

starts_add :
    (env : Env) (ug : UserGroup) (s : Ctx)
    → env.sent (Query.is_user_group_by_name (some ug.name)) ≡ true
    → IsFresh s
    → (add_user_group env ug s).0 ≡ adding ug s
unfolding add_user_group query_kind set_param
starts_add env ug s sent r =
    ap (λ (t : Ctx). (ctx_return (set_param Fn.group_cb_add (Value.group ug) t)).0)
      (ask_and_wait env (Query.is_user_group_by_name (some ug.name)) Fn.group_cb_add s r refl sent)
    ∙ ctx_return-alone _ r.no_fault r.no_result

-- Adding a group fails for every name. Where the name is free, the callback is handed -1, which the
-- `Eina_Bool` it takes reads as true; where it is taken, it is handed the group's id, whose low
-- byte is taken to be nonzero. In both cases the call is resumed with false, a fault is set, and no
-- group is sent to the database.
pub add_user_group-fails :
    (env : Env) (ug : UserGroup) (s : Ctx)
    → env.sent (Query.is_user_group_by_name (some ug.name)) ≡ true
    → IsFresh s
    → s.has_content ≡ true
    → (a : Answer) → a.failed ≡ false
    → a.rows ≤ 1
    → (a.rows ≡ 1 → as_bool a.value ≡ true)
    → let q = Query.is_user_group_by_name (some ug.name) in
      let t = deliver env q a (add_user_group env ug s).0 in
      (t.log ≡ Effect.resume false ∷ Effect.query q ∷ s.log) × (is_error t.content_fault ≡ true)
unfolding query_kind set_param
add_user_group-fails env ug s sent r c a h k l =
    rw
      (
        starts_add env ug s sent r,
        deliver-group_add env (Query.is_user_group_by_name (some ug.name)) a (adding ug s) refl
            (record { alive = r.alive; no_fault = r.no_fault; chain = refl }) h k,
      )
      (group_cb_add-refuses env (answer_int a) _ r.alive c (as_bool-answer_int a.rows a.value k l))
