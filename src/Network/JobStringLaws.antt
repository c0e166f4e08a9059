-- ===== src/Network/JobStringLaws.antt =====
-- Which function gets which arguments.
use ezrpc.Base.{
  ◌≡◌, refl, ap, sym, ◌∙◌, Bool, true, false, Option, some, drop, arith, Bool-cases, inl, inr,
  if◌then◌else◌,
}
use ezrpc.Base.Int.{ℤ}
use ezrpc.Rpc.State.{Str, Network, lit}
use ezrpc.Rpc.Env.{Env, bytes_eq, contains}
use ezrpc.Device.Vif.{NetIf}
use ezrpc.Device.Compare.{bytes_eq-eq}
use ezrpc.Network.JobString.{Info, JobString, network_text, network_job_string}

abbrev on_network : Str → Bool
on_network function = contains (drop 6 function) (lit "Network")

contradiction : {b : Bool} → true ≡ false → b ≡ false
contradiction h = ground arith

other_name :
    (function name : Str)
    → on_network function ≡ true
    → on_network name ≡ false
    → bytes_eq function name ≡ false
other_name function name h k = elim (Bool-cases (bytes_eq function name)) [
  | inl e ↦ contradiction (sym h ∙ ap on_network (bytes_eq-eq function name e) ∙ k)
  | inr e ↦ e
]

-- The string of a job is the text of a network where the name of its function, from the seventh
-- character on, does not contain "Network", which are the functions on interfaces; for every other
-- function it is never set. What is passed as `info` is not used.
pub network_job_string-swapped :
    (env : Env)
    → ((a b : Str) → env.same (some a) (some b) ≡ bytes_eq a b)
    → (show : ℤ → Str) (stored : Option NetIf) (function : Str) (info : Info) (net : Option Network)
    → network_job_string env show stored function info net ≡ (
        if contains (drop 6 function) (lit "Network")
        then JobString.unset
        else network_text show function net)
unfolding network_job_string
network_job_string-swapped env same show stored function info net =
    elim (Bool-cases (on_network function)) [
      | inl h ↦
          simp
            (
              h,
              same function (lit "attachNetIf"),
              other_name function (lit "attachNetIf") h refl,
              same function (lit "detachNetIf"),
              other_name function (lit "detachNetIf") h refl,
              same function (lit "addNetIf"),
              other_name function (lit "addNetIf") h refl,
              same function (lit "removeNetIf"),
              other_name function (lit "removeNetIf") h refl,
              same function (lit "modifyNetIf"),
              other_name function (lit "modifyNetIf") h refl,
            )
            refl
      | inr h ↦ simp h refl
    ]
