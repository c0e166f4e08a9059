-- ===== src/Network/Remove.antt =====
-- A call that removes a network, over its three runs.
use ezrpc.Base.{
  ◌≡◌, ◌==◌, ◌≤◌, refl, ◌∙◌, arith, Bool, true, false, not, [], ◌∷◌, if◌then◌else◌, ◌&&◌,
}
use ezrpc.Base.Int.{ℤ, pos, ltb_ℤ}
use ezrpc.Rpc.Faults.{Fault, is_error}
use ezrpc.Rpc.State.{Ctx, Fn, Value, Query, Effect}
use ezrpc.Rpc.Macros.{ctx_return, mark_cb, rewind, resume, set_fault, resumed_fault}
use ezrpc.Rpc.Callbacks.{cb_bool_rewind, cb_int_rewind}
use ezrpc.Rpc.Database.{db_call, Answer, qiab, query_kind, run_db_cb, event_cb}
use ezrpc.Rpc.Env.{Env}
use ezrpc.Dispatch.Steps.{
  IsWaiting, IsFresh, answered, asked, db_call-asked, ctx_cb_add-alone, ctx_return-alone,
  ask_and_wait, deliver-bool_rewind,
}
use ezrpc.Dispatch.Chain.{call_fn, run_chain, go_on, follow, deliver}
use ezrpc.Network.Calls.{is_network_id, remove_network}

event_cb-int_rewind :
    (a : Answer) (s : Ctx)
    → IsWaiting Fn.cb_int_rewind s
    → a.failed ≡ false
    → a.rows ≤ 1
    → event_cb qiab a s ≡ answered Fn.cb_int_rewind a s
unfolding event_cb run_db_cb
event_cb-int_rewind a s w h k = ground arith

deliver-int_rewind :
    (env : Env) (q : Query) (a : Answer) (s : Ctx)
    → query_kind q ≡ qiab
    → IsWaiting Fn.cb_int_rewind s
    → a.failed ≡ false
    → a.rows ≤ 1
    → deliver env q a s
      ≡ cb_int_rewind (Value.bool (not (a.rows == 0))) (answered Fn.cb_int_rewind a s).0
unfolding deliver follow run_chain call_fn go_on
deliver-int_rewind env q a s e w h k = rw (e, event_cb-int_rewind a s w h k, w.chain) refl

module _ (env : Env) (takes : (q : Query) → env.sent q ≡ true) (id : ℤ) where
  abbrev asked_id : Ctx → Ctx
  asked_id s = record (asked (Query.is_network_id id) s) { cbs = Fn.cb_bool_rewind ∷ [] }

  abbrev asked_use : Ctx → Ctx
  asked_use s = record (asked (Query.is_network_in_use id) s) { cbs = Fn.cb_int_rewind ∷ [] }

  first_run :
      (s : Ctx) → IsFresh s → ltb_ℤ id (pos 0) ≡ false → (remove_network env id s).0 ≡ asked_id s
  unfolding remove_network is_network_id query_kind
  first_run s r h = ground (
    arith,
    ask_and_wait env (Query.is_network_id id) Fn.cb_bool_rewind s r refl (takes _),
    ctx_return-alone (asked_id s) r.no_fault r.no_result,
  )

  -- The state once the network is known to exist.
  abbrev found : Ctx → Ctx
  found s = record s {
    state = false;
    error = Fault.no_error;
    cbs = [];
    count = 1;
    log = Effect.resume true ∷ Effect.rewind ∷ Effect.query (Query.is_network_id id) ∷ s.log;
  }

  deliver-found :
      (a : Answer) (s : Ctx)
      → IsFresh s
      → a.failed ≡ false
      → a.rows ≡ 1
      → deliver env (Query.is_network_id id) a (asked_id s) ≡ found s
  unfolding query_kind cb_bool_rewind rewind mark_cb
  deliver-found a s r h k =
      deliver-bool_rewind env (Query.is_network_id id) a (asked_id s) refl
        (record { alive = r.alive; no_fault = r.no_fault; chain = refl }) h (ground arith)
      ∙ ground arith

  second_run :
      (s : Ctx)
      → s.count ≡ 1
      → s.error ≡ Fault.no_error
      → s.dead ≡ false
      → s.cbs ≡ []
      → s.ret_set ≡ false
      → (remove_network env id s).0 ≡ asked_use s
  unfolding remove_network query_kind
  second_run s h0 h1 h2 h3 h4 = ground (
    arith,
    db_call-asked env (Query.is_network_in_use id) s refl (takes _),
    ctx_cb_add-alone Fn.cb_int_rewind (asked (Query.is_network_in_use id) s) h2 h1 h3,
    ctx_return-alone (asked_use s) h1 h4,
  )

  deliver-use :
      (a : Answer) (s : Ctx)
      → s.dead ≡ false
      → s.error ≡ Fault.no_error
      → a.failed ≡ false
      → a.rows ≤ 1
      → deliver env (Query.is_network_in_use id) a (asked_use s)
        ≡ cb_int_rewind
            (Value.bool (not (a.rows == 0)))
            (answered Fn.cb_int_rewind a (asked_use s)).0
  unfolding query_kind
  deliver-use a s h0 h1 h k =
      deliver-int_rewind env (Query.is_network_in_use id) a (asked_use s) refl
        (record { alive = h0; no_fault = h1; chain = refl }) h k

  -- The third run, by the fault that the answer left.
  third_missing :
      (t : Ctx)
      → t.count ≡ 2
      → t.error ≡ Fault.unknown_resource
      → t.has_content ≡ true
      → ((remove_network env id t).0.log ≡ Effect.resume false ∷ t.log)
        × ((remove_network env id t).0.content_fault ≡ Fault.resource_in_use)
  unfolding remove_network ctx_return set_fault
  third_missing t h0 h1 h2 = simp (h0, h1, h2) (refl, refl)

  third_found :
      (t : Ctx)
      → t.count ≡ 2
      → t.error ≡ Fault.no_error
      → t.ret_set ≡ false
      → ((remove_network env id t).0.log ≡ Effect.query (Query.remove_network id) ∷ t.log)
        × ((remove_network env id t).0.content_fault ≡ t.content_fault)
  unfolding remove_network ctx_return db_call query_kind
  third_found t h0 h1 h2 = simp (h0, h1, h2, takes (Query.remove_network id)) (refl, refl)

-- What `cb_int_rewind` leaves of a live call.
record IsWoken (s t : Ctx) : Type 0 where
  again : t.count ≡ 2
  fault : t.error ≡ s.error
  result : t.ret_set ≡ s.ret_set
  content : t.has_content ≡ s.has_content
  content_fault : t.content_fault ≡ resumed_fault s

cb_int_rewind-IsWoken :
    (v : Value) (s : Ctx)
    → s.count ≡ 1
    → s.dead ≡ false
    → s.has_content ≡ true
    → IsWoken s (cb_int_rewind v s)
unfolding cb_int_rewind mark_cb rewind resume
cb_int_rewind-IsWoken v s h0 h1 h2 = record {
  again = simp (h0, h1, h2) refl;
  fault = simp (h1, h2) refl;
  result = simp (h1, h2) refl;
  content = simp (h1, h2) refl;
  content_fault = simp (h1, h2) refl;
}

module _ (env : Env) (takes : (q : Query) → env.sent q ≡ true) (id : ℤ) where
  -- The state after the answer to the question whether the network is in use.
  abbrev in_use_known : Answer → Ctx → Ctx
  in_use_known a s =
      cb_int_rewind (Value.bool (not (a.rows == 0)))
        (answered Fn.cb_int_rewind a (asked_use env takes id s)).0

  abbrev fault_of : Bool → Fault
  fault_of missing = if missing then Fault.unknown_resource else Fault.no_error

  -- The third run, by whether the answer had no row.
  third_by :
      (missing : Bool) (c : Fault) (t : Ctx)
      → t.count ≡ 2
      → t.error ≡ fault_of missing
      → t.ret_set ≡ false
      → t.has_content ≡ true
      → t.content_fault
        ≡ (if is_error (fault_of missing) && not (is_error c) then fault_of missing else c)
      → ((remove_network env id t).0.log
          ≡ (if missing then Effect.resume false else Effect.query (Query.remove_network id))
            ∷ t.log)
        × ((remove_network env id t).0.content_fault
            ≡ (if missing then Fault.resource_in_use else c))
  third_by true c t h0 h1 h2 h3 h4 = third_missing env takes id t h0 h1 h3
  third_by false c t h0 h1 h2 h3 h4 = let m = third_found env takes id t h0 h1 h2 in (m.0, m.1 ∙ h4)

-- A call that removes a network asks the database whether there is one. Once the answer is that
-- there is, it asks whether the network is in use, and removes it if it is; if it is not, the call
-- is refused with RESOURCE_IN_USE and nothing is removed. The id is not negative, the pool takes every
-- query, and no answer fails or has more than one row.
pub remove_network-inverted :
    (env : Env)
    → ((q : Query) → env.sent q ≡ true)
    → (id : ℤ) → ltb_ℤ id (pos 0) ≡ false
    → (s : Ctx) → IsFresh s
    → s.has_content ≡ true
    → (a b : Answer) → a.failed ≡ false
    → a.rows ≡ 1
    → b.failed ≡ false
    → b.rows ≤ 1
    → let t = deliver env (Query.is_network_id id) a (remove_network env id s).0 in
      let u = deliver env (Query.is_network_in_use id) b (remove_network env id t).0 in
      let v = (remove_network env id u).0 in
      ((remove_network env id s).0.log ≡ Effect.query (Query.is_network_id id) ∷ s.log)
      × ((remove_network env id t).0.log ≡ Effect.query (Query.is_network_in_use id) ∷ t.log)
      × (v.log
          ≡ (if b.rows == 0 then Effect.resume false else Effect.query (Query.remove_network id))
            ∷ u.log)
      × (v.content_fault ≡ (if b.rows == 0 then Fault.resource_in_use else s.content_fault))
remove_network-inverted env takes id p s r c a b ha ka hb kb =
    let w =
      cb_int_rewind-IsWoken (Value.bool (not (b.rows == 0)))
        (answered Fn.cb_int_rewind b (asked_use env takes id (found env takes id s))).0 refl r.alive
        c in
    rw (first_run env takes id s r p) (
      rw (deliver-found env takes id a s r ha ka) (
        rw (second_run env takes id (found env takes id s) refl refl r.alive refl r.no_result) (
          rw (deliver-use env takes id b (found env takes id s) r.alive refl hb kb) (
            let v =
              third_by env takes id (b.rows == 0) s.content_fault
                (in_use_known env takes id b (found env takes id s)) w.again w.fault
                (w.result ∙ r.no_result) (w.content ∙ c) w.content_fault in
            (refl, refl, v.0, v.1)))))
