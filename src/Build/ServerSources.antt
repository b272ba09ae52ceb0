-- ===== src/Build/ServerSources.antt =====
-- The top level of common/common.cpp and of the sources of server/: what stands before their functions,
-- and what they define behind it, without the bodies of functions.
use monitor_system.Base.{List, [], ◌∷◌, codes}
use monitor_system.Message.{token_len}
use monitor_system.Build.{
  void, int, char, named, pointer, const, array, Line, include, external, define, extern, variable,
  function,
}

abbrev pub common_cpp : List Line
common_cpp = include (codes "head.h") ∷ []

abbrev pub socket_create_line : Line
socket_create_line = function int (codes "socket_create") (int ∷ [])

abbrev pub socket_connect_line : Line
socket_connect_line = function int (codes "socket_connect") ((pointer (const char)) ∷ int ∷ [])

abbrev pub socket_create_udp_line : Line
socket_create_udp_line = function int (codes "socket_create_udp") (int ∷ [])

abbrev pub socket_udp_line : Line
socket_udp_line = function int (codes "socket_udp") ([])

abbrev pub check_user_line : Line
check_user_line = function int (codes "check_user") ((pointer (const char)) ∷ int ∷ [])

abbrev pub accept_udp_line : Line
accept_udp_line = function int (codes "accept_udp") (int ∷ int ∷ [])

abbrev pub socket_connect_udp_line : Line
socket_connect_udp_line =
    function int (codes "socket_connect_udp")
      ((pointer (const char)) ∷ int ∷ (pointer (const char)) ∷ [])

abbrev pub conf_buf_line : Line
conf_buf_line = variable (array 512 char) (codes "conf_buf")

abbrev pub get_conf_value_line : Line
get_conf_value_line =
    function (pointer char) (codes "get_conf_value")
      ((pointer (const char)) ∷ (pointer (const char)) ∷ [])

abbrev pub server_cpp : List Line
server_cpp =
    include (codes "head.h")
    ∷ include (codes "function.h")
    ∷ external (codes "map")
    ∷ variable (pointer (const char)) (codes "config")
    ∷ variable (array token_len char) (codes "token")
    ∷ variable int (codes "port")
    ∷ variable (pointer (named (codes "SQL_CONN_POOL"))) (codes "sq_conn_poll")
    ∷ variable (named (codes "std::map<int, struct client_ds *>")) (codes "clients")
    ∷ variable int (codes "thread_num")
    ∷ variable int (codes "task_queue_size")
    ∷ variable int (codes "epollfd")
    ∷ variable int (codes "server_listen")
    ∷ variable int (codes "udp_epollfd")
    ∷ variable int (codes "udp_server_listen")
    ∷ []

abbrev pub server_main_line : Line
server_main_line = function int (codes "main") (int ∷ (pointer (pointer char)) ∷ [])

abbrev pub server_func_cpp : List Line
server_func_cpp =
    include (codes "head.h")
    ∷ include (codes "function.h")
    ∷ external (codes "map")
    ∷ define (codes "MAXEVENTS") (codes "5")
    ∷ extern (array token_len char) (codes "token")
    ∷ extern (named (codes "std::map<int, struct client_ds *>")) (codes "clients")
    ∷ extern int (codes "epollfd")
    ∷ extern int (codes "server_listen")
    ∷ extern int (codes "udp_epollfd")
    ∷ extern int (codes "port")
    ∷ extern (pointer (named (codes "SQL_CONN_POOL"))) (codes "sq_conn_poll")
    ∷ []

abbrev pub deal_with_monitor_msg_line : Line
deal_with_monitor_msg_line =
    function void (codes "deal_with_monitor_msg")
      ((pointer (named (codes "monitor_msg_ds"))) ∷ (pointer (named (codes "MYSQL"))) ∷ [])

abbrev pub do_task_line : Line
do_task_line = function (pointer void) (codes "do_task") ((pointer void) ∷ [])

abbrev pub do_dispatch_line : Line
do_dispatch_line = function (pointer void) (codes "do_dispatch") ((pointer void) ∷ [])

abbrev pub heart_beat_line : Line
heart_beat_line = function void (codes "heart_beat") (int ∷ [])

abbrev pub check_online_line : Line
check_online_line =
    function int (codes "check_online") ((pointer (named (codes "sockaddr_in"))) ∷ [])

abbrev pub do_login_line : Line
do_login_line = function (pointer void) (codes "do_login") ((pointer void) ∷ [])

abbrev pub udp_deal_with_line : Line
udp_deal_with_line = function (pointer void) (codes "udp_deal_with") ((pointer void) ∷ [])

abbrev pub add_to_reactor_line : Line
add_to_reactor_line = function int (codes "add_to_reactor") (int ∷ int ∷ [])

abbrev pub set_alarm_line : Line
set_alarm_line = function void (codes "set_alarm") (int ∷ int ∷ [])

abbrev pub db_connection_pool_cpp : List Line
db_connection_pool_cpp = include (codes "head.h") ∷ include (codes "db_connection_pool.h") ∷ []

abbrev pub sql_pool_create_line : Line
sql_pool_create_line =
    function (pointer (named (codes "SQL_CONN_POOL"))) (codes "sql_pool_create") (
      int
      ∷ (pointer (const char))
      ∷ int
      ∷ (pointer (const char))
      ∷ (pointer (const char))
      ∷ (pointer (const char))
      ∷ [])

abbrev pub create_db_connect_line : Line
create_db_connect_line =
    function int (codes "create_db_connect")
      ((pointer (named (codes "SQL_CONN_POOL"))) ∷ (pointer (named (codes "SQL_NODE"))) ∷ [])

abbrev pub sql_pool_destroy_line : Line
sql_pool_destroy_line =
    function void (codes "sql_pool_destroy") ((pointer (named (codes "SQL_CONN_POOL"))) ∷ [])

abbrev pub get_db_connect_line : Line
get_db_connect_line =
    function (pointer (named (codes "SQL_NODE"))) (codes "get_db_connect")
      ((pointer (named (codes "SQL_CONN_POOL"))) ∷ [])

abbrev pub release_node_line : Line
release_node_line =
    function void (codes "release_node")
      ((pointer (named (codes "SQL_CONN_POOL"))) ∷ (pointer (named (codes "SQL_NODE"))) ∷ [])

abbrev pub change_node_num_line : Line
change_node_num_line =
    function (pointer (named (codes "SQL_CONN_POOL"))) (codes "changeNodeNum")
      ((pointer (named (codes "SQL_CONN_POOL"))) ∷ int ∷ [])

abbrev pub thread_poll_cpp : List Line
thread_poll_cpp = include (codes "head.h") ∷ []

abbrev pub task_queue_init_line : Line
task_queue_init_line =
    function (pointer (named (codes "task_queue"))) (codes "task_queue_init") (int ∷ [])

abbrev pub is_empty_line : Line
is_empty_line = function int (codes "is_empty") ((pointer (named (codes "task_queue"))) ∷ [])

abbrev pub length_line : Line
length_line = function int (codes "length") ((pointer (named (codes "task_queue"))) ∷ [])

abbrev pub push_line : Line
push_line =
    function int (codes "push") ((pointer (named (codes "task_queue"))) ∷ (pointer void) ∷ [])

abbrev pub pop_line : Line
pop_line = function (pointer void) (codes "pop") ((pointer (named (codes "task_queue"))) ∷ [])

abbrev pub clear_line : Line
clear_line = function void (codes "clear") ((pointer (named (codes "task_queue"))) ∷ [])
