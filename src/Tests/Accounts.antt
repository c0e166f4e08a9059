-- ===== src/Tests/Accounts.antt =====
-- Groups that get a name, attributes that are set, sessions that are logged out, and salts.
use ezrpc.Base.{ℕ, ◌≡◌, ◌≤◌, ◌<◌, refl, arith, ◌⊎◌, true, false, none, some, [], ◌∷◌}
use ezrpc.Base.Int.{pos}
use ezrpc.Rpc.Faults.{Fault, is_error}
use ezrpc.Rpc.State.{Str, Ctx, Fn, Query, Effect, User, UserGroup, lit}
use ezrpc.User.Accounts.{set_user_attribute}
use ezrpc.User.Fields.{bad_email}
use ezrpc.User.Add.{bad_user, add_user}
use ezrpc.User.AddLaws.{add_user-fails}
use ezrpc.Group.Calls.{rename_user_group, add_user_group}
use ezrpc.Group.Laws.{rename_user_group-runs}
use ezrpc.Auth.Salt.{generate_random_salt}
use ezrpc.Auth.Alphabet.{IsSalt, generate_random_salt-IsSalt}
use ezrpc.Dispatch.Steps.{IsFresh}
use ezrpc.Dispatch.Chain.{deliver}
use ezrpc.Tests.{test_env, test_ctx, no_row}

test_ctx-IsFresh : IsFresh test_ctx
test_ctx-IsFresh = record {
  alive = refl;
  no_fault = refl;
  no_result = refl;
  no_chain = refl;
  first = refl;
}

abbrev named : Ctx
named =
    deliver test_env (Query.is_user_group_by_name (some (lit "ops"))) no_row
      (rename_user_group test_env (pos 4) (some (lit "ops")) test_ctx).0

-- The name is free.
rename_user_group-runs_example :
    ((rename_user_group test_env (pos 4) (some (lit "ops")) test_ctx).0.log
      ≡ Effect.query (Query.is_user_group_by_name (some (lit "ops"))) ∷ test_ctx.log)
    × ((rename_user_group test_env (pos 4) (some (lit "ops")) named).0.log
        ≡ Effect.query (Query.rename_user_group (pos 4) (some (lit "ops"))) ∷ named.log)
    × ((rename_user_group test_env (pos 4) (some (lit "ops")) named).0.content_fault
        ≡ Fault.no_error)
rename_user_group-runs_example =
    rename_user_group-runs test_env (λ q. refl) (pos 4) (some (lit "ops")) test_ctx test_ctx-IsFresh
      refl no_row refl (omega arith)

abbrev ops : UserGroup
ops = record { gid = pos 0; privilege = pos 1; name = lit "ops"; desc = [] }

abbrev adding : Ctx
adding =
    deliver test_env (Query.is_user_group_by_name (some (lit "ops"))) no_row
      (add_user_group test_env ops test_ctx).0

abbrev set_active : Ctx
set_active = (set_user_attribute test_env (pos 7) (some (lit "active")) (lit "1") test_ctx).0

abbrev two_sessions : Ctx
two_sessions = record test_ctx {
  count = 2;
  cbs = Fn.user_cb_logout_deauth ∷ Fn.user_cb_logout_deauth ∷ [];
}

abbrev five : ℕ
five = 5

generate_random_salt-IsSalt_example :
    ((generate_random_salt test_env 5 ≡ none) × ((five ≡ 0) ⊎ (256 ≤ five)))
    ⊎ ((s : Str) × (generate_random_salt test_env 5 ≡ some s) × IsSalt 5 s × (0 < 5) × (5 < 256))
generate_random_salt-IsSalt_example = generate_random_salt-IsSalt test_env 5

abbrev bob : User
bob = record {
  uid = pos 0;
  username = lit "bob";
  givenname = lit "Bob";
  email = lit "bob@x.org";
  active = pos 1;
  type = pos 3;
  language = lit "1";
}

abbrev adding_bob : Ctx
adding_bob =
    deliver test_env (Query.is_user_name (some (lit "bob"))) no_row
      (add_user test_env bob test_ctx).0

bob_good : bad_user test_env bob ≡ false
unfolding bad_user bad_email
bob_good = refl

-- The name is free.
add_user-fails_example :
    (adding_bob.log
      ≡ Effect.resume false ∷ Effect.query (Query.is_user_name (some (lit "bob"))) ∷ [])
    × (is_error adding_bob.content_fault ≡ true)
add_user-fails_example =
    add_user-fails test_env bob test_ctx refl bob_good test_ctx-IsFresh refl no_row refl
      (omega arith) (λ e. ground arith)
