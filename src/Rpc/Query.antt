-- ===== src/Rpc/Query.antt =====
-- The calls of the database object, `db->name(db, ctx, …)`, with their arguments.
use ezrpc.Base.{Bool, List}
use ezrpc.Base.Int.{ℤ}
use ezrpc.Rpc.Records.{Str, CStr, Session, User, UserGroup, Network, Job}

pub data Query : Type 0 where
  get_config_value : Str → Query
  get_session remove_session deauth_session get_sessions_by_name : CStr → Query
  set_session : Session → Query
  set_last_login get_auth is_user_uid is_active get_user get_user_type remove_user : ℤ → Query
  get_username get_sessions_by_uid get_language_code is_user_group remove_user_group : ℤ → Query
  get_user_uid get_active_user_uid is_user_name is_active_by_name remove_user_by_name : CStr → Query
  get_user_by_name get_user_type_by_name is_user_group_by_name get_user_group_id : CStr → Query
  modify_user : ℤ → User → Query
  modify_user_by_name : CStr → User → Query
  set_password : ℤ → Str → Str → Query
  set_password_by_name : CStr → Str → Str → Query
  set_user_attribute : ℤ → CStr → CStr → Query
  set_user_attribute_by_name : CStr → CStr → CStr → Query
  add_user : User → Query
  modify_user_group : ℤ → UserGroup → Query
  modify_user_group_by_name : CStr → UserGroup → Query
  add_to_user_group remove_from_user_group : ℤ → ℤ → Query
  rename_user_group : ℤ → CStr → Query
  rename_user_group_by_name : CStr → CStr → Query
  remove_user_group_by_name : CStr → Query
  add_user_group : UserGroup → Query
  is_vm is_node : CStr → Query
  is_vm_owner is_node_owner : CStr → ℤ → Query
  get_jobs : Query
  add_job : Job → Query
  get_job get_job_status get_recent_jobs_by_uid : ℤ → ℤ → Query
  get_jobs_by_uid get_recent_jobs is_job get_scheduler_address_by_job : ℤ → Query
  get_jobs_by_uuid : CStr → Query
  get_jobs_by_ids get_jobs_status : List ℤ → ℤ → Query
  get_vm_attribute get_node_attribute : CStr → Str → Query
  get_network_count get_network_control_modules get_network_control_modules_full : Query
  is_network_id is_network_in_use remove_network get_network get_network_control_module : ℤ → Query
  get_nodes_by_network : ℤ → Query
  set_network_control_module get_all_networks get_all_networks_full : ℤ → ℤ → Query
  get_networks_by_node get_network_id_by_name get_num_vm_disks get_num_vm_vifs : CStr → Query
  get_vm_disks get_vm_vifs : CStr → Query
  is_disk get_vm_disk is_net_if create_net_if get_vm_vif_by_mac : CStr → CStr → Query
  create_disk : CStr → CStr → ℤ → Query
  get_all_networks_by_type : CStr → ℤ → ℤ → Query
  get_all_networks_sorted get_all_networks_full_sorted : CStr → Bool → ℤ → ℤ → Query
  is_network define_network : Network → Query
  get_vm_stat : CStr → Str → Query
  ignore_vm remove_vm get_node_control_module : CStr → Query
  get_vm_by_rev : CStr → ℤ → Query
  get_vm_parent_address get_graphical_console_tunnel_port get_graphical_console_port : CStr → Query
  get_text_console_port get_user_name_by_session get_console_lock_vms_by_session : CStr → Query
  has_console_lock get_console_lock_session get_console_client_host : CStr → CStr → Query
  get_console_node_host get_console_type : CStr → CStr → Query
  acquire_console_lock : CStr → Session → CStr → CStr → Query
  release_console_lock : CStr → CStr → CStr → Query
  save_graphical_console_port : CStr → ℤ → ℤ → Query
  save_text_console_port : CStr → ℤ → Query
  get_all_users_sorted get_all_user_groups_sorted : CStr → Bool → ℤ → ℤ → Query
  get_all_user_groups_full_sorted : CStr → Bool → ℤ → ℤ → Query
  get_logged_in_users get_logged_in_usernames get_user_count get_user_group_count : Query
  is_user_group_member get_all_user_groups get_all_user_group_names : ℤ → ℤ → Query
  get_all_user_groups_full : ℤ → ℤ → Query
  get_user_group get_user_group_members get_user_groups_by_uid : ℤ → Query
  get_user_group_names_by_uid get_user_group_name : ℤ → Query
  get_user_group_by_name get_user_group_members_by_name get_user_groups_by_name : CStr → Query
  get_user_group_names_by_name : CStr → Query
  is_user_group_member_by_name add_to_user_group_by_name : ℤ → CStr → Query
  remove_from_user_group_by_name : ℤ → CStr → Query
  is_user_group_member_by_name_and_username : CStr → CStr → Query
  add_to_user_group_by_name_and_username : CStr → CStr → Query
  remove_from_user_group_by_name_and_username : CStr → CStr → Query
