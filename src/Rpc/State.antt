-- ===== src/Rpc/State.antt =====
-- `Zentific_Ctx` of include/ztypes.h, with the parts of its module that the code reaches through
-- `ctx->parent`: the session, the content of the call and the cookie.
--
-- What the code asks of other programs (a query sent, a resume, a rewind, a job, a connection to a
-- scheduler) is an entry of `log`, the newest first.
use ezrpc.Base.{ℕ, suc, ◌+◌, ◌-◌, ◌%◌, ◌^◌, ◌==◌, Bool, true, false, Option, none, some, List}
use ezrpc.Base.{not}
use ezrpc.Base.Int.{ℤ, pos, negsuc}
pub use ezrpc.Rpc.Records.{Str, CStr, lit, Session, User, UserGroup, Network, Job}
pub use ezrpc.Rpc.Query.{Query}
use ezrpc.Rpc.Faults.{Fault}

-- Functions that stand on the callback chain, are run as jobs, or name a slot of `ctx->params`.
pub data Fn : Type 0 where
  no_fn : Fn
  cb_bool_job cb_int_job cb_pointer_job cb_int_rewind cb_bool_rewind cb_auth_rewind : Fn
  cb_pointer_return cb_int_return cb_job_target_node_addr cb_job_target_host : Fn
  cb_job_module_name : Fn
  session_cb_error_clear session_get_client_ip_cb session_checkuuid_cb : Fn
  session_checkuuid_get_cb session_check_cb session_get_cb session_pre_call_cb_super : Fn
  session_pre_call_cb_get_session session_pre_call_cb_ip session_pre_call_sso : Fn
  session_pre_call_sso_check auth auth_db login_cb_uid : Fn
  user_cb_name user_cb_lang user_cb_logout_deauth user_cb_logoutsessions : Fn
  user_cb_superuser user_cb_generatepw group_cb_modify group_cb_add : Fn
  jobs_cb_address jobs_cb_add jobs_cb_get jobs_cb_resource jobs_fill : Fn
  jobs_cancel ptr_job_cb ptr_int_cb jobs_cb_connect jobs_cb_disconnect : Fn
  connect_text_console connect_graphical_console acquire_console_lock : Fn
  get_console_lock_user get_supported_consoles update_vms vm_cb_update : Fn

-- What is passed to a callback or kept in `ctx->params`. `null` is also the integer 0 there.
pub data Value : Type 0 where
  null : Value
  bool : Bool → Value
  int : ℤ → Value
  text : Str → Value
  texts : List Str → Value
  fn : Fn → Value
  session : Session → Value
  group : UserGroup → Value
  user : User → Value
  job : Job → Value
  process : Value  -- what ecore_exe_run returns
  stale : Value  -- the address of a variable of a function that has returned

-- The programs that a console runs, by what is printed into their command lines.
pub data Command : Type 0 where
  shellinaboxd : CStr → CStr → Value → Value → ℤ → Command
  ssh : CStr → ℤ → Value → Value → Command
  zproxy : ℤ → ℤ → CStr → CStr → Command

-- One entry of the log.
pub data Effect : Type 0 where
  query : Query → Effect  -- a query handed to the database pool
  resume : Bool → Effect  -- azy_server_module_events_resume
  rewind : Effect  -- azy_server_module_events_rewind
  job : Fn → Effect  -- ecore_job_add
  cookie_set : CStr → Effect  -- azy_server_module_session_set
  connect : CStr → Effect  -- ecore_con_server_connect
  server_send : Str → Effect  -- ecore_con_server_send
  server_del : Effect  -- ecore_con_server_del
  timer_add : Effect  -- ecore_timer_add, ecore_timer_interval_set, ecore_timer_del
  timer_interval : Effect
  timer_del : Effect
  thread : Effect  -- ecore_thread_run
  exe : Command → Effect  -- ecore_exe_run, ecore_exe_pipe_run
  undefined : Effect  -- NULL, or a byte past the end of a string, is read

pub record Ctx : Type 0 where
  pub cbs : List Fn
  pub params : Fn → Value
  pub retval : Value
  pub data_ptr : Value  -- `data`
  pub data2 : Value
  pub job : Fn
  pub error : Fault
  pub count : ℕ  -- unsigned int
  pub user_type : ℤ
  pub state : Bool
  pub ret : Bool
  pub ret_set : Bool
  pub dead : Bool
  pub checked : Bool
  pub auth : Bool
  pub sso : Bool
  pub session : Session  -- SES
  pub has_content : Bool  -- ERROR != NULL
  pub has_retval_cb : Bool  -- azy_content_retval_cb_get(ERROR) != NULL
  pub method : CStr  -- azy_content_method_full_get(ERROR)
  pub content_fault : Fault  -- the fault set on ERROR, if any
  pub content_retval : Option Value  -- the value set on ERROR, if any
  pub cookie : CStr  -- azy_server_module_session_get
  pub log : List Effect

-- `count++` and `--count` of an `unsigned int`.
abbrev pub incr : ℕ → ℕ
incr n = (n + 1) % 2 ^ 32

abbrev pub decr : ℕ → ℕ
decr n = (n + (2 ^ 32 - 1)) % 2 ^ 32

-- What the pointer of a parameter reads as where the code casts it to an integer.
abbrev pub as_int : Value → ℤ
as_int (Value.int n) = n
as_int _ = pos 0

-- An argument of any callback that is declared `Eina_Bool` (unsigned char): the callbacks are called
-- through `void (*)()`, so the callee reads the low byte of what was passed.
abbrev pub as_bool : Value → Bool
as_bool (Value.bool b) = b
as_bool (Value.int (pos n)) = not (n % 256 == 0)
as_bool (Value.int (negsuc n)) = not (suc n % 256 == 0)
as_bool Value.null = false
as_bool _ = true

abbrev pub as_text : Value → CStr
as_text (Value.text s) = some s
as_text _ = none

abbrev pub is_null : Value → Bool
is_null Value.null = true
is_null (Value.int (pos n)) = n == 0
is_null (Value.bool b) = not b
is_null _ = false
