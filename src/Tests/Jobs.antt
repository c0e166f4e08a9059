-- ===== src/Tests/Jobs.antt =====
-- Jobs.
use ezrpc.Base.{◌≡◌, false, none, some, refl, [], ◌∷◌}
use ezrpc.Base.Int.{pos, negsuc}
use ezrpc.Rpc.State.{Query, Effect, Value, Job, lit}
use ezrpc.Rpc.Database.{Answer}
use ezrpc.Dispatch.Steps.{IsFresh}
use ezrpc.Dispatch.Chain.{deliver}
use ezrpc.Job.Calls.{job_add}
use ezrpc.Job.Laws.{job_add-loses}
use ezrpc.Tests.{test_env, test_ctx}

test_ctx-IsFresh : IsFresh test_ctx
test_ctx-IsFresh = record {
  alive = refl;
  no_fault = refl;
  no_result = refl;
  no_chain = refl;
  first = refl;
}

abbrev reboot : Job
reboot = record {
  id = negsuc 0;
  uid = pos 0;
  resource = none;
  module_name = some (lit "xen");
  module_function = some (lit "rebootVM");
  input_string = none;
  target_vm = some (lit "6f1c");
  target_node = none;
  target_host = none;
  extra = none;
  dependencies = [];
}

abbrev stored : Answer
stored = record { failed = false; rows = 0; affected = 1; value = Value.int (pos 12) }

-- User 0.
job_add-loses_example :
    (deliver test_env
      (Query.add_job reboot)
      stored
      (job_add test_env reboot (pos 0) test_ctx).0).log
    ≡ Effect.resume false ∷ Effect.query (Query.add_job reboot) ∷ []
job_add-loses_example =
    job_add-loses test_env reboot (pos 0) test_ctx refl refl test_ctx-IsFresh refl refl stored refl
