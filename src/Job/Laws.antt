-- ===== src/Job/Laws.antt =====
-- What becomes of a job that is added.
use ezrpc.Base.{
  ◌≡◌, ◌==◌, ◌||◌, not, Bool, refl, ap, ◌∙◌, arith, true, false, [], ◌∷◌, if◌then◌else◌,
}
use ezrpc.Base.Int.{ℤ, pos, ltb_ℤ}
use ezrpc.Rpc.Faults.{Fault}
use ezrpc.Rpc.State.{Ctx, Fn, Value, Query, Effect, Job, is_null}
use ezrpc.Rpc.Macros.{ctx_return, ctx_cb_add, mark_cb, set_param, drop_param, resume}
use ezrpc.Rpc.Database.{Answer, Delivery, qej, query_kind, run_db_cb, event_cb}
use ezrpc.Rpc.Env.{Env}
use ezrpc.Dispatch.Steps.{
  IsWaiting, IsFresh, asked, db_call-asked, ctx_cb_add-alone, ctx_return-alone,
}
use ezrpc.Dispatch.Chain.{call_fn, run_chain, go_on, follow, deliver}
use ezrpc.Job.Calls.{job_add, jobs_cb_add}

-- The fault that the answer leaves.
abbrev stored_fault : Answer → Fault
stored_fault a = if a.affected == 0 then Fault.unknown_resource else Fault.no_error

event_cb-job_add :
    (a : Answer) (s : Ctx)
    → IsWaiting Fn.jobs_cb_add s
    → a.failed ≡ false
    → event_cb qej a s ≡ (
      record s { state = false; error = stored_fault a },
      Delivery.call Fn.jobs_cb_add (Value.bool (not (a.affected == 0))),
    )
unfolding event_cb run_db_cb
event_cb-job_add a s w h = ground arith

deliver-job_add :
    (env : Env) (q : Query) (a : Answer) (s : Ctx)
    → query_kind q ≡ qej
    → IsWaiting Fn.jobs_cb_add s
    → a.failed ≡ false
    → deliver env q a s
      ≡ jobs_cb_add env
          (Value.bool (not (a.affected == 0)))
          (record s { state = false; error = stored_fault a })
unfolding deliver follow run_chain call_fn go_on
deliver-job_add env q a s e w h = rw (e, event_cb-job_add a s w h, w.chain) refl

-- The state that waits for the job to be stored.
abbrev adding : Job → ℤ → Ctx → Ctx
adding job uid s =
    set_param Fn.jobs_cb_add (Value.int uid)
      (record (asked (Query.add_job (record job { uid = uid })) s) { cbs = Fn.jobs_cb_add ∷ [] })

starts_adding :
    (env : Env) (job : Job) (uid : ℤ) (s : Ctx)
    → env.sent (Query.add_job (record job { uid = uid })) ≡ true
    → ltb_ℤ uid (pos 0) ≡ false
    → IsFresh s
    → (job_add env job uid s).0 ≡ adding job uid s
unfolding job_add query_kind set_param
starts_adding env job uid s sent p r =
    let q = Query.add_job (record job { uid = uid }) in
    rw p (
      ap (λ (t : Ctx). (ctx_return (set_param Fn.jobs_cb_add (Value.int uid) t)).0)
        (ap (ctx_cb_add Fn.jobs_cb_add) (db_call-asked env q s refl sent)
          ∙ ctx_cb_add-alone Fn.jobs_cb_add (asked q s) r.alive r.no_fault r.no_chain)
      ∙ ctx_return-alone (adding job uid s) r.no_fault r.no_result)

-- The callback, on the parameter that was set.
jobs_cb_add-loses :
    (env : Env) (v : Value) (missing : Bool) (s : Ctx)
    → s.dead ≡ false
    → s.error ≡ (if missing then Fault.unknown_resource else Fault.no_error)
    → s.has_content ≡ true
    → s.content_fault ≡ Fault.no_error
    → (jobs_cb_add env v s).log
      ≡ (if missing || is_null (s.params Fn.jobs_cb_add)
          then Effect.resume false
          else Effect.undefined)
        ∷ s.log
unfolding jobs_cb_add mark_cb drop_param resume set_param
jobs_cb_add-loses env v true s h0 h1 h2 h3 = ground arith
jobs_cb_add-loses env v false s h0 h1 h2 h3 = ground arith

-- Adding a job for a user whose id is not negative never gives the caller its job, whatever the
-- database answers without failing: where it has not stored the job, the call is resumed with false;
-- where it has, the call of user 0 is resumed with false, and for every other user the user's id is
-- read through as a pointer.
pub job_add-loses :
    (env : Env) (job : Job) (uid : ℤ) (s : Ctx)
    → env.sent (Query.add_job (record job { uid = uid })) ≡ true
    → ltb_ℤ uid (pos 0) ≡ false
    → IsFresh s
    → s.has_content ≡ true
    → s.content_fault ≡ Fault.no_error
    → (a : Answer) → a.failed ≡ false
    → let q = Query.add_job (record job { uid = uid }) in
      (deliver env q a (job_add env job uid s).0).log
      ≡ (if a.affected == 0 || is_null (Value.int uid)
          then Effect.resume false
          else Effect.undefined)
        ∷ Effect.query q
        ∷ s.log
unfolding query_kind set_param
job_add-loses env job uid s sent p r c d a h =
    rw
      (
        starts_adding env job uid s sent p r,
        deliver-job_add env (Query.add_job (record job { uid = uid })) a (adding job uid s) refl
            (record { alive = r.alive; no_fault = r.no_fault; chain = refl }) h,
      )
      (jobs_cb_add-loses env (Value.bool (not (a.affected == 0))) (a.affected == 0) _ r.alive refl c
        d)
