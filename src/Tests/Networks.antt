-- ===== src/Tests/Networks.antt =====
-- Networks and their jobs.
use ezrpc.Base.{◌≡◌, false, refl, arith, none, some, [], ◌∷◌}
use ezrpc.Base.Int.{pos, negsuc}
use ezrpc.Rpc.Faults.{Fault}
use ezrpc.Rpc.State.{Ctx, Query, Effect, Network, lit}
use ezrpc.Dispatch.Chain.{deliver}
use ezrpc.Network.Calls.{remove_network}
use ezrpc.Network.Remove.{remove_network-inverted}
use ezrpc.Network.JobString.{Info, JobString, network_text, network_job_string}
use ezrpc.Network.JobStringLaws.{network_job_string-swapped}
use ezrpc.Dispatch.Steps.{IsFresh}
use ezrpc.Tests.{test_env, test_ctx, one_row, no_row}

test_ctx-IsFresh : IsFresh test_ctx
test_ctx-IsFresh = record {
  alive = refl;
  no_fault = refl;
  no_result = refl;
  no_chain = refl;
  first = refl;
}

abbrev known : Ctx
known =
    deliver test_env (Query.is_network_id (pos 3)) one_row
      (remove_network test_env (pos 3) test_ctx).0

abbrev unused : Ctx
unused =
    deliver test_env (Query.is_network_in_use (pos 3)) no_row
      (remove_network test_env (pos 3) known).0

-- The network is not in use.
remove_network-inverted_example :
    ((remove_network test_env (pos 3) test_ctx).0.log
      ≡ Effect.query (Query.is_network_id (pos 3)) ∷ test_ctx.log)
    × ((remove_network test_env (pos 3) known).0.log
        ≡ Effect.query (Query.is_network_in_use (pos 3)) ∷ known.log)
    × ((remove_network test_env (pos 3) unused).0.log ≡ Effect.resume false ∷ unused.log)
    × ((remove_network test_env (pos 3) unused).0.content_fault ≡ Fault.resource_in_use)
remove_network-inverted_example =
    remove_network-inverted test_env (λ q. refl) (pos 3) refl test_ctx test_ctx-IsFresh refl one_row
      no_row refl refl refl (omega arith)

abbrev lan : Network
lan = record {
  id = pos 3;
  mid = negsuc 0;
  name = some (lit "lan");
  host = none;
  type = none;
  vlans = pos 10 ∷ pos 20 ∷ [];
  network = none;
  netmask = none;
  gateway = none;
  mac = some (lit "00:16:3e:00:00:02");
  interface = some (lit "eth1");
}

-- An interface is attached, and its MAC address is not in the string.
network_job_string-swapped_example :
    network_job_string test_env
      (λ v. lit "7")
      none
      (lit "attachNetIf")
      (Info.mac (lit "02:00"))
      (some lan)
    ≡ JobString.text (lit "iface=eth1::mac=00:16:3e:00:00:02::vlans=7,7")
unfolding network_text
network_job_string-swapped_example =
    network_job_string-swapped test_env (λ a b. refl) (λ v. lit "7") none (lit "attachNetIf")
      (Info.mac (lit "02:00")) (some lan)
