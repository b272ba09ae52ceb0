-- ===== src/Build/ClientSources.antt =====
-- The top level of the sources of client/: what stands before their functions, and the functions that
-- they define, without the bodies.
use monitor_system.Base.{List, [], ◌∷◌, codes}
use monitor_system.Message.{token_len}
use monitor_system.Build.{
  void, int, char, named, pointer, const, array, Line, include, extern, variable, function,
}

abbrev pub client_cpp : List Line
client_cpp =
    include (codes "head.h")
    ∷ include (codes "common.h")
    ∷ include (codes "function.h")
    ∷ variable (array 20 char) (codes "server_ip")
    ∷ variable (array 20 char) (codes "token")
    ∷ variable int (codes "server_port")
    ∷ variable int (codes "msg_id")
    ∷ variable int (codes "sockfd")
    ∷ variable int (codes "udp_sockfd")
    ∷ variable (pointer (const char)) (codes "config")
    ∷ variable (pointer (const char)) (codes "mem_persistence")
    ∷ variable (pointer (const char)) (codes "cpu_persistence")
    ∷ variable (pointer (const char)) (codes "disk_persistence")
    ∷ variable (pointer (const char)) (codes "sys_persistence")
    ∷ []

abbrev pub client_main_line : Line
client_main_line = function int (codes "main") (int ∷ (pointer (pointer char)) ∷ [])

abbrev pub collect_local_data_cpp : List Line
collect_local_data_cpp =
    include (codes "head.h")
    ∷ include (codes "function.h")
    ∷ variable (array 100 char) (codes "cpu_buf")
    ∷ variable (array 100 char) (codes "mem_buf")
    ∷ variable (array 100 char) (codes "disk_buf")
    ∷ variable (array 200 char) (codes "sys_buf")
    ∷ extern int (codes "sockfd")
    ∷ []

abbrev pub check_for_mem_line : Line
check_for_mem_line = function void (codes "check_for_mem") ([])

abbrev pub check_for_cpu_line : Line
check_for_cpu_line = function void (codes "check_for_cpu") ([])

abbrev pub check_for_disk_line : Line
check_for_disk_line = function void (codes "check_for_disk") ([])

abbrev pub check_for_sys_line : Line
check_for_sys_line = function void (codes "check_for_sys") ([])

abbrev pub login_cpp : List Line
login_cpp =
    include (codes "head.h")
    ∷ include (codes "function.h")
    ∷ extern (array 20 char) (codes "server_ip")
    ∷ extern (array token_len char) (codes "token")
    ∷ extern int (codes "server_port")
    ∷ extern int (codes "sockfd")
    ∷ variable int (codes "relogin_num")
    ∷ variable int (codes "check_for_relogin")
    ∷ variable int (codes "mem_lines")
    ∷ variable int (codes "cpu_lines")
    ∷ variable int (codes "disk_lines")
    ∷ variable int (codes "sys_lines")
    ∷ extern (pointer char) (codes "mem_persistence")
    ∷ extern (pointer char) (codes "cpu_persistence")
    ∷ extern (pointer char) (codes "disk_persistence")
    ∷ extern (pointer char) (codes "sys_persistence")
    ∷ variable (named (codes "pthread_mutex_t")) (codes "mutex")
    ∷ variable (named (codes "pthread_cond_t")) (codes "cond")
    ∷ []

abbrev pub login_line : Line
login_line = function int (codes "login") ([])

abbrev pub relogin_line : Line
relogin_line = function (pointer void) (codes "relogin") ((pointer void) ∷ [])

abbrev pub try_to_relogin_line : Line
try_to_relogin_line = function void (codes "try_to_relogin") ([])

abbrev pub send_data_to_server_cpp : List Line
send_data_to_server_cpp =
    include (codes "head.h")
    ∷ include (codes "function.h")
    ∷ extern int (codes "sockfd")
    ∷ extern int (codes "udp_sockfd")
    ∷ extern int (codes "msg_id")
    ∷ extern (array 100 char) (codes "mem_buf")
    ∷ extern (array 100 char) (codes "cpu_buf")
    ∷ extern (array 100 char) (codes "disk_buf")
    ∷ extern (array 200 char) (codes "sys_buf")
    ∷ extern (pointer char) (codes "mem_persistence")
    ∷ extern (pointer char) (codes "cpu_persistence")
    ∷ extern (pointer char) (codes "disk_persistence")
    ∷ extern (pointer char) (codes "sys_persistence")
    ∷ []

abbrev pub check_data_and_send_to_msg_queue_line : Line
check_data_and_send_to_msg_queue_line =
    function (pointer void) (codes "check_data_and_send_to_msg_queue") ((pointer void) ∷ [])

abbrev pub send_data_to_server_line : Line
send_data_to_server_line =
    function (pointer void) (codes "send_data_to_server") ((pointer void) ∷ [])

abbrev pub send_file_cpp : List Line
send_file_cpp = include (codes "head.h") ∷ include (codes "function.h") ∷ []

abbrev pub do_with_file_line : Line
do_with_file_line =
    function void (codes "do_with_file") (int ∷ int ∷ (pointer (const char)) ∷ int ∷ [])

abbrev pub open_file_line : Line
open_file_line = function int (codes "open_file") ((pointer (const char)) ∷ [])

abbrev pub empty_file_line : Line
empty_file_line = function void (codes "empty_file") ((pointer (const char)) ∷ [])
