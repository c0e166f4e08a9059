-- ===== src/Dispatch/Ownership.antt =====
-- The privilege macros over their three runs: who may call a method on a machine.
use ezrpc.Base.{
  zero, suc, ℕ, ◌≡◌, ◌==◌, ◌≤◌, refl, ap, ◌∙◌, arith, true, false, not, [], ◌∷◌, if◌then◌else◌,
}
use ezrpc.Base.Int.{ℤ}
use ezrpc.Rpc.Faults.{Fault}
use ezrpc.Rpc.State.{CStr, Ctx, Fn, Query, Effect}
use ezrpc.Rpc.Macros.{ctx_return, mark_cb, rewind}
use ezrpc.Rpc.Callbacks.{cb_bool_rewind, cb_auth_rewind}
use ezrpc.Rpc.Database.{Answer, query_kind}
use ezrpc.Rpc.Env.{Env}
use ezrpc.Rpc.Privileges.{is_user_type, deny, check_exist_and_privs, is_vm, is_vm_owner, check_vm}
use ezrpc.Dispatch.Steps.{
  IsWaiting, missing_fault, deliver-bool_rewind, deliver-auth_rewind, if-not, db_call-asked,
  ctx_return-alone, ctx_cb_add-alone, asked,
}
use ezrpc.Dispatch.Chain.{deliver}

-- A request for a method on a machine, before the first check, by a client that is no super user.
pub record IsRequest (s : Ctx) : Type 0 where
  pub alive : s.dead ≡ false
  pub no_fault : s.error ≡ Fault.no_error
  pub no_result : s.ret_set ≡ false
  pub no_chain : s.cbs ≡ []
  pub no_check : s.checked ≡ false
  pub no_auth : s.auth ≡ false
  pub first : s.count ≡ 0
  pub no_super : is_user_type 0 s.user_type ≡ false

module _ (env : Env) (takes : (q : Query) → env.sent q ≡ true) (uuid : CStr)
    (valid : env.validate_uuid uuid ≡ true) (func : Ctx → Ctx) where
  is_vm-asked :
      (s : Ctx)
      → s.error ≡ Fault.no_error
      → s.ret_set ≡ false
      → is_vm env uuid s ≡ asked (Query.is_vm uuid) s
  unfolding is_vm query_kind
  is_vm-asked s h k = ground (
    arith,
    valid,
    db_call-asked env (Query.is_vm uuid) s refl (takes _),
    ctx_return-alone (asked (Query.is_vm uuid) s) h k,
  )

  is_vm_owner-asked :
      (uid : ℤ) (s : Ctx)
      → s.error ≡ Fault.no_error
      → s.ret_set ≡ false
      → is_vm_owner env uuid uid s ≡ asked (Query.is_vm_owner uuid uid) s
  unfolding is_vm_owner query_kind
  is_vm_owner-asked uid s h k =
      ap (λ (t : Ctx). (ctx_return t).0)
        (db_call-asked env (Query.is_vm_owner uuid uid) s refl (takes _))
      ∙ ctx_return-alone (asked (Query.is_vm_owner uuid uid) s) h k

  -- Run 1 asks whether the machine exists.
  first_run :
      (s : Ctx)
      → IsRequest s
      → check_vm env uuid func s
        ≡ record (asked (Query.is_vm uuid) s) { cbs = Fn.cb_bool_rewind ∷ [] }
  unfolding check_vm check_exist_and_privs
  first_run s r = ground (
    arith,
    is_vm-asked s r.no_fault r.no_result,
    ctx_cb_add-alone Fn.cb_bool_rewind (asked (Query.is_vm uuid) s) r.alive r.no_fault r.no_chain,
  )

  -- Run 2 asks whether the client owns it.
  second_run :
      (s : Ctx)
      → s.error ≡ Fault.no_error
      → s.dead ≡ false
      → s.ret_set ≡ false
      → s.cbs ≡ []
      → s.checked ≡ false
      → s.auth ≡ false
      → s.count ≡ 1
      → is_user_type 0 s.user_type ≡ false
      → check_vm env uuid func s ≡ record (asked (Query.is_vm_owner uuid s.session.uid) s) {
        cbs = Fn.cb_auth_rewind ∷ [];
        checked = true;
      }
  unfolding check_vm check_exist_and_privs
  second_run s h1 h2 h3 h4 h5 h6 h7 h8 = ground (
    arith,
    is_vm_owner-asked s.session.uid s h1 h3,
    ctx_cb_add-alone Fn.cb_auth_rewind (asked (Query.is_vm_owner uuid s.session.uid) s) h2 h1 h4,
  )

  -- Run 2 where the machine does not exist.
  missing_run :
      (s : Ctx)
      → s.error ≡ Fault.unknown_resource
      → s.checked ≡ false
      → s.auth ≡ false
      → check_vm env uuid func s ≡ deny s
  unfolding check_vm check_exist_and_privs
  missing_run s h k l = ground arith

  -- The last run.
  last_run :
      (s : Ctx) → s.checked ≡ true → check_vm env uuid func s ≡ (if s.auth then func s else deny s)
  unfolding check_vm check_exist_and_privs
  last_run s h = ground arith

  -- The state once the answer on the machine has been delivered.
  abbrev looked_up : Answer → Ctx → Ctx
  looked_up a s = record s {
    state = false;
    error = missing_fault a;
    cbs = [];
    count = 1;
    log = Effect.resume true ∷ Effect.rewind ∷ Effect.query (Query.is_vm uuid) ∷ s.log;
  }

  deliver-is_vm :
      (a : Answer) (s : Ctx)
      → IsRequest s
      → a.failed ≡ false
      → a.rows ≤ 1
      → deliver env (Query.is_vm uuid) a (check_vm env uuid func s) ≡ looked_up a s
  unfolding query_kind cb_bool_rewind rewind mark_cb
  deliver-is_vm a s r h k =
      ap (deliver env (Query.is_vm uuid) a) (first_run s r)
      ∙ deliver-bool_rewind env (Query.is_vm uuid) a _ refl
          (record { alive = r.alive; no_fault = r.no_fault; chain = refl }) h k
      ∙ ground arith

  deliver-is_vm_owner :
      (a : Answer) (s : Ctx)
      → IsWaiting Fn.cb_auth_rewind s
      → a.failed ≡ false
      → a.rows ≤ 1
      → let t = deliver env (Query.is_vm_owner uuid s.session.uid) a s in
        (t.auth ≡ not (a.rows == 0)) × (t.checked ≡ s.checked)
  unfolding query_kind cb_auth_rewind rewind mark_cb
  deliver-is_vm_owner a s w h k =
      rw (deliver-auth_rewind env (Query.is_vm_owner uuid s.session.uid) a s refl w h k)
        (ground arith)

  -- The request after the machine has been found.
  record IsFound (s : Ctx) : Type 0 where
    alive : s.dead ≡ false
    no_fault : s.error ≡ Fault.no_error
    no_result : s.ret_set ≡ false
    no_chain : s.cbs ≡ []
    no_check : s.checked ≡ false
    no_auth : s.auth ≡ false
    second : s.count ≡ 1
    no_super : is_user_type 0 s.user_type ≡ false

  owner_answer :
      (a : Answer) (s : Ctx)
      → IsFound s
      → a.failed ≡ false
      → a.rows ≤ 1
      → let t = deliver env (Query.is_vm_owner uuid s.session.uid) a (check_vm env uuid func s) in
        (t.auth ≡ not (a.rows == 0)) × (t.checked ≡ true)
  owner_answer a s f h k =
      rw
        (second_run s f.no_fault f.alive f.no_result f.no_chain f.no_check f.no_auth f.second
          f.no_super)
        (deliver-is_vm_owner a _ (record { alive = f.alive; no_fault = f.no_fault; chain = refl }) h
          k)

  third_run :
      (a : Answer) (s : Ctx)
      → IsFound s
      → a.failed ≡ false
      → a.rows ≤ 1
      → let t = deliver env (Query.is_vm_owner uuid s.session.uid) a (check_vm env uuid func s) in
        check_vm env uuid func t ≡ (if a.rows == 0 then deny t else func t)
  third_run a s f h k =
      let o = owner_answer a s f h k in last_run _ o.1 ∙ if-not (a.rows == 0) _ _ _ o.0

  looked_up-IsFound : (a : Answer) (s : Ctx) → IsRequest s → a.rows ≡ 1 → IsFound (looked_up a s)
  looked_up-IsFound a s r h = record {
    alive = r.alive;
    no_fault = rw h refl;
    no_result = r.no_result;
    no_chain = refl;
    no_check = r.no_check;
    no_auth = r.no_auth;
    second = refl;
    no_super = r.no_super;
  }

either_run :
    (run : Ctx → Ctx) {s t u v : Ctx} (n : ℕ)
    → n ≤ 1
    → (n ≡ 0 → run s ≡ u)
    → (n ≡ 1 → run t ≡ v)
    → run (if n == 0 then s else t) ≡ (if n == 0 then u else v)
either_run run zero b h k = h refl
either_run run (suc zero) b h k = k refl
either_run run (suc (suc n)) b h k = ground arith

by_rows {ℓ} :
    {A : Type ℓ} {x u v : A} (n : ℕ)
    → n ≤ 1
    → (n ≡ 0 → x ≡ u)
    → (n ≡ 1 → x ≡ v)
    → x ≡ (if n == 0 then u else v)
by_rows zero b h k = h refl
by_rows (suc zero) b h k = k refl
by_rows (suc (suc n)) b h k = ground arith

-- What the second run sends.
second_log :
    (env : Env) (takes : (q : Query) → env.sent q ≡ true) (uuid : CStr)
    (valid : env.validate_uuid uuid ≡ true) (func : Ctx → Ctx) (a : Answer) (s : Ctx)
    → IsRequest s
    → a.rows ≤ 1
    → let t = looked_up env takes uuid valid func a s in
      (check_vm env uuid func t).log ≡ (
        if a.rows == 0
        then (deny t).log
        else Effect.query (Query.is_vm_owner uuid t.session.uid) ∷ t.log)
second_log env takes uuid valid func a s r h =
    let t : Ctx = looked_up env takes uuid valid func a s in
    by_rows a.rows h
      (λ none.
        ap (λ (t : Ctx). t.log)
          (missing_run env takes uuid valid func t (rw none refl) r.no_check r.no_auth))
      (λ one.
        let f = looked_up-IsFound env takes uuid valid func a s r one in
        ap (λ (t : Ctx). t.log)
          (second_run env takes uuid valid func t f.no_fault f.alive f.no_result f.no_chain
            f.no_check f.no_auth f.second f.no_super))

-- A method on a machine with a valid uuid, for a client that is no super user, over the three runs of
-- the request; the pool takes every query, and no answer fails or has more than one row.
-- The first sends one query, whether the machine exists; if it does not, the second refuses. If it
-- does, the second sends one query, whether the client owns the machine, and the third calls the
-- method exactly if so and refuses otherwise.
pub check_vm-runs :
    (env : Env)
    → ((q : Query) → env.sent q ≡ true)
    → (uuid : CStr) → env.validate_uuid uuid ≡ true
    → (func : Ctx → Ctx) (s : Ctx) → IsRequest s
    → (exists owns : Answer) → exists.failed ≡ false
    → exists.rows ≤ 1
    → owns.failed ≡ false
    → owns.rows ≤ 1
    → let s2 = deliver env (Query.is_vm uuid) exists (check_vm env uuid func s) in
      let s3 =
        deliver env (Query.is_vm_owner uuid s2.session.uid) owns (check_vm env uuid func s2) in
      ((check_vm env uuid func s).log ≡ Effect.query (Query.is_vm uuid) ∷ s.log)
      × ((check_vm env uuid func s2).log ≡ (
          if exists.rows == 0
          then (deny s2).log
          else Effect.query (Query.is_vm_owner uuid s.session.uid) ∷ s2.log))
      × (check_vm env uuid func (if exists.rows == 0 then s2 else s3)
          ≡ (if exists.rows == 0 then deny s2 else if owns.rows == 0 then deny s3 else func s3))
check_vm-runs env takes uuid valid func s r exists owns h1 h2 h3 h4 =
    rw (deliver-is_vm env takes uuid valid func exists s r h1 h2) (
      ap (λ (t : Ctx). t.log) (first_run env takes uuid valid func s r),
      second_log env takes uuid valid func exists s r h2,
      either_run (check_vm env uuid func) exists.rows h2
          (λ none.
            missing_run env takes uuid valid func (looked_up env takes uuid valid func exists s)
              (rw none refl) r.no_check r.no_auth)
          (λ one.
            third_run env takes uuid valid func owns (looked_up env takes uuid valid func exists s)
              (looked_up-IsFound env takes uuid valid func exists s r one) h3 h4),
    )
