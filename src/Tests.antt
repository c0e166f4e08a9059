-- ===== src/Tests.antt =====
-- Concrete requests and answers of the outside world, on which the examples run.
mod Access
mod Accounts
mod Hashes
mod Proxying
mod Devices
mod Networks
mod Jobs
mod Configs
mod Consoles
mod Machines
use Prim.Native.Nat.{min}
use ezrpc.Base.{ℕ, Bool, true, false, none, some, [], ◌∷◌, length, refl}
use ezrpc.Base.Int.{pos, negsuc}
use ezrpc.Rpc.Faults.{Fault}
use ezrpc.Rpc.State.{Str, CStr, Ctx, Fn, Value, Session, lit}
use ezrpc.Rpc.Database.{Answer}
use ezrpc.Rpc.Env.{Env, bytes_eq, StrlenBounded}

abbrev pub same_text : CStr → CStr → Bool
same_text none none = true
same_text (some a) (some b) = bytes_eq a b
same_text _ _ = false

abbrev pub is_text : CStr → Bool
is_text none = false
is_text (some []) = false
is_text (some (c ∷ cs)) = true

abbrev pub test_uuid : Str
test_uuid = lit "6f1c"

-- Every query is sent, every string that is not empty is well-formed, PAM and /dev/random fail.
abbrev pub test_env : Env
test_env = record {
  sent = λ q. true;
  validate_uuid = is_text;
  validate_ip = is_text;
  same = same_text;
  same_nocase = same_text;
  strlen_bounded = λ s n. min (length s) n;
  strtol = λ s. pos 0;
  strtol_failed = λ s. false;
  now = pos 1000;
  header = λ s. none;
  net_ip = some (lit "10.0.0.1");
  new_uuid = test_uuid;
  is_get = false;
  dev_random = λ n. none;
  random = λ n. n;
  pam_start = λ s. false;
  pam_authenticate = λ s p. false;
  pam_acct_mgmt = λ s p. false;
}

abbrev pub test_session : Session
test_session = record {
  authenticated = false;
  uid = pos 7;
  username = some (lit "ann");
  session_id = some test_uuid;
  client_host = some (lit "10.0.0.9");
  referrer = none;
  failures = pos 2;
  timestamp = pos 900;
  status = Fault.not_authorized;
}

abbrev pub test_ctx : Ctx
test_ctx = record {
  cbs = [];
  params = λ k. Value.null;
  retval = Value.null;
  data_ptr = Value.null;
  data2 = Value.null;
  job = Fn.no_fn;
  error = Fault.no_error;
  count = 0;
  user_type = pos 3;
  state = false;
  ret = false;
  ret_set = false;
  dead = false;
  checked = false;
  auth = false;
  sso = false;
  session = test_session;
  has_content = true;
  has_retval_cb = true;
  method = some (lit "VM.start");
  content_fault = Fault.no_error;
  content_retval = none;
  cookie = some test_uuid;
  log = [];
}

-- An answer with one row, and one without.
abbrev pub one_row : Answer
one_row = record { failed = false; rows = 1; affected = 0; value = Value.int (pos 7) }

abbrev pub no_row : Answer
no_row = record { failed = false; rows = 0; affected = 0; value = Value.null }

-- `eina_strlen_bounded` of the test keeps to its documentation.
strlen_test : StrlenBounded test_env
strlen_test s n = refl
