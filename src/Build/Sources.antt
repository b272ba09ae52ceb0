-- ===== src/Build/Sources.antt =====
-- CMakeLists.txt: the sources and the two programs.
use monitor_system.Base.{List, [], ◌∷◌, ◌++◌}
use monitor_system.Build.{Placed, placed}
use monitor_system.Build.Headers.{Dir}
use monitor_system.Build.ClientSources.{
  client_cpp, client_main_line, collect_local_data_cpp, check_for_mem_line, check_for_cpu_line,
  check_for_disk_line, check_for_sys_line, login_cpp, login_line, relogin_line, try_to_relogin_line,
  send_data_to_server_cpp, check_data_and_send_to_msg_queue_line, send_data_to_server_line,
  send_file_cpp, do_with_file_line, open_file_line, empty_file_line,
}
use monitor_system.Build.ServerSources.{
  common_cpp, socket_create_line, socket_connect_line, socket_create_udp_line, socket_udp_line,
  check_user_line, accept_udp_line, socket_connect_udp_line, conf_buf_line, get_conf_value_line,
  server_cpp, server_main_line, server_func_cpp, deal_with_monitor_msg_line, do_task_line,
  do_dispatch_line, heart_beat_line, check_online_line, do_login_line, udp_deal_with_line,
  add_to_reactor_line, set_alarm_line, db_connection_pool_cpp, sql_pool_create_line,
  create_db_connect_line, sql_pool_destroy_line, get_db_connect_line, release_node_line,
  change_node_num_line, thread_poll_cpp, task_queue_init_line, is_empty_line, length_line,
  push_line, pop_line, clear_line,
}

-- The sources, by their names without `.cpp`.
pub data Source : Type 0 where
  client : Source
  collect_local_data : Source
  login : Source
  send_data_to_server : Source
  send_file : Source
  common : Source
  server : Source
  server_func : Source
  db_connection_pool : Source
  thread_poll : Source

abbrev pub source_lines : Source → List (Placed Dir)
source_lines Source.client = placed Dir.client_dir (client_cpp ++ (client_main_line ∷ []))
source_lines Source.collect_local_data = placed Dir.client_dir (
    collect_local_data_cpp
    ++ (check_for_mem_line ∷ check_for_cpu_line ∷ check_for_disk_line ∷ check_for_sys_line ∷ []))
source_lines Source.login =
    placed Dir.client_dir (login_cpp ++ (login_line ∷ relogin_line ∷ try_to_relogin_line ∷ []))
source_lines Source.send_data_to_server = placed Dir.client_dir (
    send_data_to_server_cpp
    ++ (check_data_and_send_to_msg_queue_line ∷ send_data_to_server_line ∷ []))
source_lines Source.send_file =
    placed Dir.client_dir
      (send_file_cpp ++ (do_with_file_line ∷ open_file_line ∷ empty_file_line ∷ []))
source_lines Source.common = placed Dir.common_dir (
    common_cpp
    ++ (socket_create_line ∷ socket_connect_line ∷ socket_create_udp_line ∷ socket_udp_line
        ∷ check_user_line ∷ accept_udp_line ∷ socket_connect_udp_line ∷ conf_buf_line
        ∷ get_conf_value_line ∷ []))
source_lines Source.server = placed Dir.server_dir (server_cpp ++ (server_main_line ∷ []))
source_lines Source.server_func = placed Dir.server_dir (
    server_func_cpp
    ++ (deal_with_monitor_msg_line ∷ do_task_line ∷ do_dispatch_line ∷ heart_beat_line
        ∷ check_online_line ∷ do_login_line ∷ udp_deal_with_line ∷ add_to_reactor_line
        ∷ set_alarm_line ∷ []))
source_lines Source.db_connection_pool = placed Dir.pool_dir (
    db_connection_pool_cpp
    ++ (sql_pool_create_line ∷ create_db_connect_line ∷ sql_pool_destroy_line ∷ get_db_connect_line
        ∷ release_node_line ∷ change_node_num_line ∷ []))
source_lines Source.thread_poll = placed Dir.queue_dir (
    thread_poll_cpp
    ++ (task_queue_init_line ∷ is_empty_line ∷ length_line ∷ push_line ∷ pop_line ∷ clear_line
        ∷ []))

pub data Program : Type 0 where
  client_program : Program
  server_program : Program

-- `CLIENT_DEP` and `SERVER_DEP`, without common/cJSON.
abbrev pub sources : Program → List Source
sources Program.client_program =
    Source.client ∷ Source.common ∷ Source.send_file ∷ Source.collect_local_data ∷ Source.login
    ∷ Source.send_data_to_server ∷ []
sources Program.server_program =
    Source.server ∷ Source.server_func ∷ Source.common ∷ Source.db_connection_pool
    ∷ Source.thread_poll ∷ []
