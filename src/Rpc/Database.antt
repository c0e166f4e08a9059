-- ===== src/Rpc/Database.antt =====
-- How a call reaches the database pool and how its answer comes back: the query macros and
-- `event_cb` (include/zrpcdb.h, db_sources/mysql/zrpcdb.c) and the callbacks of include/zrpcdb.x.
-- The text of the queries and the conversion of rows are not modelled: an `Answer` holds the
-- number of rows and the converted value.
use ezrpc.Base.{ℕ, ◌==◌, ltb, Bool, true, false, not, ◌&&◌, ◌||◌, List, [], ◌∷◌, if◌then◌else◌}
use ezrpc.Base.Int.{negsuc}
use ezrpc.Rpc.Faults.{Fault, is_error}
use ezrpc.Rpc.State.{Ctx, Fn, Value, Query, Effect}
use ezrpc.Rpc.Macros.{emit}

-- The database-level callback that `QID_CB_ADD` queues.
pub data DbCb : Type 0 where
  no_cb cb_ptr cb_int cb_bool cb_exec cb_exec_exists : DbCb

-- What a query macro registers: `ctx->state` set, a converter in `type_cbs` (a SELECT), a callback
-- in `db_cbs`.
pub record QueryKind : Type 0 where
  pub single : Bool
  pub select : Bool
  pub end_cb : DbCb

abbrev pub qsa : QueryKind  -- QS, QSA
qsa = record { single = true; select = true; end_cb = DbCb.cb_ptr }

abbrev pub qssa : QueryKind  -- QSS, QSSA, QIS, QISA
qssa = record { single = false; select = true; end_cb = DbCb.cb_ptr }

abbrev pub qia : QueryKind  -- QB, QBA, QI, QIA
qia = record { single = true; select = true; end_cb = DbCb.cb_int }

abbrev pub qiab : QueryKind  -- QIAB
qiab = record { single = true; select = true; end_cb = DbCb.cb_bool }

abbrev pub qe : QueryKind  -- QE
qe = record { single = false; select = false; end_cb = DbCb.cb_exec }

abbrev pub qej : QueryKind  -- QEJ
qej = record { single = true; select = false; end_cb = DbCb.cb_exec }

abbrev pub qee : QueryKind  -- QEE
qee = record { single = false; select = false; end_cb = DbCb.cb_exec_exists }

abbrev pub qeje : QueryKind  -- defineNetwork: as QEJ, with zrpcdb_cb_exec_exists
qeje = record { single = true; select = false; end_cb = DbCb.cb_exec_exists }

abbrev pub bare : QueryKind  -- QUERY with no QID_CB_ADD
bare = record { single = false; select = true; end_cb = DbCb.no_cb }

-- The macro that each database function ends in (db_sources/mysql/zrpcdb_*.c).
unfoldable pub query_kind : Query → QueryKind
query_kind (Query.get_config_value _) = qsa
query_kind (Query.get_session _) = bare
query_kind (Query.get_auth _) = bare
query_kind (Query.get_sessions_by_uid _) = qssa
query_kind (Query.get_sessions_by_name _) = qssa
query_kind (Query.is_user_uid _) = qia
query_kind (Query.is_active _) = qia
query_kind (Query.get_user _) = qssa
query_kind (Query.get_user_type _) = qia
query_kind (Query.get_username _) = qsa
query_kind (Query.get_language_code _) = qsa
query_kind (Query.is_user_group _) = qia
query_kind (Query.get_user_uid _) = qia
query_kind (Query.get_active_user_uid _) = qia
query_kind (Query.is_user_name _) = qia
query_kind (Query.is_active_by_name _) = qia
query_kind (Query.get_user_by_name _) = qssa
query_kind (Query.get_user_type_by_name _) = qia
query_kind (Query.is_user_group_by_name _) = qia
query_kind (Query.get_user_group_id _) = qia
query_kind (Query.add_user_group _) = qej
query_kind (Query.is_vm _) = qiab
query_kind (Query.is_node _) = qia
query_kind (Query.is_vm_owner _ _) = qiab
query_kind (Query.is_node_owner _ _) = qiab
query_kind (Query.is_network _) = qiab
query_kind (Query.is_network_id _) = qiab
query_kind (Query.is_network_in_use _) = qiab
query_kind (Query.is_disk _ _) = qiab
query_kind (Query.is_net_if _ _) = qiab
query_kind (Query.get_network _) = bare
query_kind (Query.get_networks_by_node _) = bare
query_kind (Query.get_all_networks _ _) = bare
query_kind (Query.get_all_networks_full _ _) = bare
query_kind (Query.get_all_networks_by_type _ _ _) = bare
query_kind (Query.get_all_networks_sorted _ _ _ _) = qssa
query_kind (Query.get_all_networks_full_sorted _ _ _ _) = bare
query_kind (Query.get_nodes_by_network _) = qssa
query_kind (Query.get_network_control_module _) = qia
query_kind Query.get_network_control_modules = qssa
query_kind Query.get_network_control_modules_full = bare
query_kind (Query.get_network_id_by_name _) = qia
query_kind Query.get_network_count = qssa
query_kind (Query.get_vm_disks _) = bare
query_kind (Query.get_vm_disk _ _) = bare
query_kind (Query.get_num_vm_disks _) = qia
query_kind (Query.get_num_vm_vifs _) = qia
query_kind (Query.get_vm_vifs _) = bare
query_kind (Query.get_vm_vif_by_mac _ _) = bare
query_kind (Query.create_disk _ _ _) = qee
query_kind (Query.create_net_if _ _) = qee
query_kind (Query.get_job _ _) = bare
query_kind Query.get_jobs = qssa
query_kind (Query.get_jobs_by_uid _) = qssa
query_kind (Query.get_jobs_by_uuid _) = qssa
query_kind (Query.get_recent_jobs _) = qssa
query_kind (Query.get_recent_jobs_by_uid _ _) = qssa
query_kind (Query.add_job _) = qej
query_kind (Query.get_jobs_by_ids _ _) = qssa
query_kind (Query.get_jobs_status _ _) = qssa
query_kind (Query.get_job_status _ _) = qia
query_kind (Query.is_job _) = qiab
query_kind (Query.get_scheduler_address_by_job _) = qsa
query_kind (Query.get_vm_attribute _ _) = qsa
query_kind (Query.get_node_attribute _ _) = qsa
query_kind (Query.define_network _) = qeje
query_kind (Query.get_all_users_sorted _ _ _ _) = qssa
query_kind Query.get_logged_in_users = qssa
query_kind Query.get_logged_in_usernames = qssa
query_kind Query.get_user_count = qssa
query_kind (Query.is_user_group_member _ _) = qia
query_kind (Query.get_user_group _) = bare
query_kind (Query.get_user_group_members _) = qssa
query_kind (Query.get_user_group_by_name _) = bare
query_kind (Query.get_user_group_members_by_name _) = qssa
query_kind (Query.is_user_group_member_by_name _ _) = qiab
query_kind (Query.is_user_group_member_by_name_and_username _ _) = qiab
query_kind (Query.get_all_user_groups_sorted _ _ _ _) = qssa
query_kind (Query.get_all_user_groups _ _) = qssa
query_kind (Query.get_all_user_group_names _ _) = qssa
query_kind (Query.get_all_user_groups_full_sorted _ _ _ _) = bare
query_kind (Query.get_all_user_groups_full _ _) = bare
query_kind (Query.get_user_groups_by_uid _) = qssa
query_kind (Query.get_user_groups_by_name _) = qssa
query_kind (Query.get_user_group_names_by_uid _) = qssa
query_kind (Query.get_user_group_names_by_name _) = qsa
query_kind (Query.get_user_group_name _) = qsa
query_kind Query.get_user_group_count = qssa
query_kind (Query.get_vm_stat _ _) = qsa
query_kind (Query.get_vm_parent_address _) = qsa
query_kind (Query.get_user_name_by_session _) = qsa
query_kind (Query.get_console_lock_session _ _) = qsa
query_kind (Query.get_console_client_host _ _) = qsa
query_kind (Query.get_console_node_host _ _) = qsa
query_kind (Query.get_console_type _ _) = qsa
query_kind (Query.has_console_lock _ _) = qia
query_kind (Query.get_graphical_console_port _) = qia
query_kind (Query.get_graphical_console_tunnel_port _) = qssa
query_kind (Query.get_text_console_port _) = qssa
query_kind (Query.get_console_lock_vms_by_session _) = qssa
query_kind (Query.get_node_control_module _) = qsa
query_kind (Query.get_vm_by_rev _ _) = bare
query_kind _ = qe

-- A call of the database object. `sent q` tells whether the pool took the query
-- (`esql_query_args` returned an id); if not, `QUERY` sets `DB_FAIL`.
unfoldable pub db_call : (Query → Bool) → Query → Ctx → Ctx
unfolding query_kind
db_call sent q s =
    let t = record s { state = s.state || (query_kind q).single } in
    if sent q then emit (Effect.query q) t else record t { error = Fault.db_fail }

-- The answer to a query.
pub record Answer : Type 0 where
  pub failed : Bool  -- esql_res_error_get
  pub rows : ℕ  -- esql_res_rows_count
  pub affected : ℕ  -- esql_res_rows_affected
  pub value : Value  -- cb(res), or the id of the row inserted

-- What the database layer does with an answer: a callback is called with a value (`call`), the
-- head of the chain was NULL and is removed (`dropped`), or an event is raised.
pub data Delivery : Type 0 where
  call : Fn → Value → Delivery
  dropped result_event error_event : Delivery

-- `ZRPCDB_HANDLE_RET` once the error is set, and the end of `zrpcdb_cb_exec`.
abbrev pub hand_over : List Fn → Ctx → Value → Value → Value → Ctx × Delivery
hand_over [] s good bad last = (record s { retval = last }, Delivery.result_event)
hand_over (Fn.no_fn ∷ fs) s good bad last = (record s { cbs = fs }, Delivery.dropped)
hand_over (f ∷ fs) s good bad last = (s, Delivery.call f (if is_error s.error then bad else good))

abbrev pub mark_missing : ℕ → Fault → Ctx → Ctx
mark_missing n e s = if n == 0 && not (is_error s.error) then record s { error = e } else s

-- `zrpcdb_cb_ptr`, `zrpcdb_cb_int`, `zrpcdb_cb_bool`, `zrpcdb_cb_exec`, `zrpcdb_cb_exec_exists`.
unfoldable pub run_db_cb : DbCb → Answer → Ctx → Ctx × Delivery
run_db_cb DbCb.cb_ptr a s =
    let t = mark_missing a.rows Fault.unknown_resource s in
    hand_over t.cbs t a.value Value.null a.value
run_db_cb DbCb.cb_int a s =
    let t = mark_missing a.rows Fault.unknown_resource s in
    hand_over t.cbs t a.value (Value.int (negsuc 0)) Value.stale
run_db_cb DbCb.cb_bool a s =
    let t = mark_missing a.rows Fault.unknown_resource s in
    hand_over t.cbs t (Value.bool true) (Value.bool false) (Value.bool (not (is_error t.error)))
run_db_cb DbCb.cb_exec a s =
    let t = mark_missing a.affected Fault.unknown_resource s in
    hand_over t.cbs t (Value.bool true) (Value.bool false) (Value.bool (not (is_error t.error)))
run_db_cb DbCb.cb_exec_exists a s =
    let t = mark_missing a.rows Fault.entity_already_exists s in
    hand_over t.cbs t (Value.bool true) (Value.bool false) (Value.bool (not (is_error t.error)))
run_db_cb DbCb.no_cb a s = (s, Delivery.dropped)

abbrev pub no_end_cb : DbCb → Bool
no_end_cb DbCb.no_cb = true
no_end_cb _ = false

-- The end of `event_cb` where no database-level callback is queued.
abbrev pub hand_over_raw : List Fn → Bool → Value → Ctx → Ctx × Delivery
hand_over_raw [] state v s = (record s { state = state; retval = v }, Delivery.result_event)
hand_over_raw (f ∷ fs) state v s = (s, Delivery.call f v)

-- `event_cb`.
unfoldable pub event_cb : QueryKind → Answer → Ctx → Ctx × Delivery
unfolding run_db_cb
event_cb k a s =
    let t = record s { state = false } in
    if a.failed
    then (record t { error = Fault.db_query }, Delivery.error_event)
    else if k.select && (s.state && ltb 1 a.rows)
    then (record t { error = Fault.db_multi; state = s.state }, Delivery.error_event)
    else if no_end_cb k.end_cb
    then hand_over_raw t.cbs s.state a.value t
    else run_db_cb k.end_cb a t
