-- ===== src/Rpc/Faults.antt =====
-- The error codes of src/servlets/azy/zentific-server.azy that the modelled code sets or tests.
-- `ctx->error` and `session->status` hold one of these; `no_error` is the 0 of both.
use ezrpc.Base.{ℕ, ◌==◌, Bool, true, false}

pub data Fault : Type 0 where
  no_error : Fault
  not_authorized invalid_session expired_session valid_session : Fault
  max_login_failures invalid_parameter unknown_resource entity_already_exists : Fault
  not_authenticated resource_in_use server_failure user_password : Fault
  db_multi db_query db_fail : Fault
  job_creation_failed scheduler_not_found scheduler_connect_error : Fault
  console_locked console_disconnect_failed console_daemon_not_found : Fault
  console_connect_failed node_unconfigured not_implemented : Fault

-- The number that the `.azy` file gives each code.
abbrev pub fault_code : Fault → ℕ
fault_code Fault.no_error = 0
fault_code Fault.not_authorized = 1
fault_code Fault.invalid_session = 2
fault_code Fault.expired_session = 3
fault_code Fault.valid_session = 4
fault_code Fault.max_login_failures = 5
fault_code Fault.invalid_parameter = 6
fault_code Fault.unknown_resource = 15
fault_code Fault.entity_already_exists = 16
fault_code Fault.node_unconfigured = 17
fault_code Fault.not_authenticated = 18
fault_code Fault.resource_in_use = 19
fault_code Fault.job_creation_failed = 25
fault_code Fault.console_locked = 9
fault_code Fault.console_disconnect_failed = 27
fault_code Fault.console_daemon_not_found = 28
fault_code Fault.console_connect_failed = 29
fault_code Fault.not_implemented = 97
fault_code Fault.server_failure = 99
fault_code Fault.user_password = 700
fault_code Fault.scheduler_not_found = 1018
fault_code Fault.scheduler_connect_error = 1020
fault_code Fault.db_multi = 1030
fault_code Fault.db_query = 1031
fault_code Fault.db_fail = 1032

abbrev pub fault_eq : Fault → Fault → Bool
fault_eq a b = fault_code a == fault_code b

-- `if (ctx->error)`.
abbrev pub is_error : Fault → Bool
is_error Fault.no_error = false
is_error _ = true
