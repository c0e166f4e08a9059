-- ===== src/Rpc/Slots.antt =====
-- Which slot of `ctx->params` a function name is: the hash is keyed by `__func__`.
use ezrpc.Base.{ℕ, ◌==◌, Bool}
use ezrpc.Rpc.State.{Fn}

-- A number for each name, so that names compare as the hash compares its keys.
abbrev pub slot : Fn → ℕ
slot Fn.no_fn = 0
slot Fn.cb_bool_job = 1
slot Fn.cb_int_job = 2
slot Fn.cb_pointer_job = 3
slot Fn.cb_int_rewind = 4
slot Fn.cb_bool_rewind = 5
slot Fn.cb_auth_rewind = 6
slot Fn.cb_pointer_return = 7
slot Fn.cb_int_return = 8
slot Fn.cb_job_target_node_addr = 9
slot Fn.cb_job_target_host = 10
slot Fn.cb_job_module_name = 11
slot Fn.session_cb_error_clear = 12
slot Fn.session_get_client_ip_cb = 13
slot Fn.session_checkuuid_cb = 14
slot Fn.session_checkuuid_get_cb = 15
slot Fn.session_check_cb = 16
slot Fn.session_get_cb = 17
slot Fn.session_pre_call_cb_super = 18
slot Fn.session_pre_call_cb_get_session = 19
slot Fn.session_pre_call_cb_ip = 20
slot Fn.session_pre_call_sso = 21
slot Fn.session_pre_call_sso_check = 22
slot Fn.auth = 23
slot Fn.auth_db = 24
slot Fn.login_cb_uid = 25
slot Fn.user_cb_name = 26
slot Fn.user_cb_lang = 27
slot Fn.user_cb_logout_deauth = 28
slot Fn.user_cb_logoutsessions = 29
slot Fn.user_cb_superuser = 30
slot Fn.user_cb_generatepw = 31
slot Fn.group_cb_modify = 32
slot Fn.group_cb_add = 33
slot Fn.jobs_cb_address = 34
slot Fn.jobs_cb_add = 35
slot Fn.jobs_cb_get = 36
slot Fn.jobs_cb_resource = 37
slot Fn.jobs_fill = 38
slot Fn.jobs_cancel = 39
slot Fn.ptr_job_cb = 40
slot Fn.ptr_int_cb = 41
slot Fn.jobs_cb_connect = 42
slot Fn.jobs_cb_disconnect = 43
slot Fn.connect_text_console = 44
slot Fn.connect_graphical_console = 45
slot Fn.acquire_console_lock = 46
slot Fn.get_console_lock_user = 47
slot Fn.get_supported_consoles = 48
slot Fn.update_vms = 49
slot Fn.vm_cb_update = 50

abbrev pub fn_eq : Fn → Fn → Bool
fn_eq a b = slot a == slot b
