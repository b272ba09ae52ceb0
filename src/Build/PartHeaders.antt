-- ===== src/Build/PartHeaders.antt =====
-- The headers of the two programs and of the parts of the server, line by line: client/function.h,
-- server/function.h, server/thread_pool/thread_poll.h and
-- server/db_connection_pool/db_connection_pool.h.
use monitor_system.Base.{◌+◌, List, [], ◌∷◌, codes}
use monitor_system.DbPool.Nodes.{pool_max_number}
use monitor_system.Build.{
  void, int, char, named, pointer, const, array, Line, external, define, ifndef, endif, forward,
  typedef, struct, enum, prototype,
}

abbrev pub client_function_h : List Line
client_function_h =
    ifndef (codes "MONITOR_SYSTEM_FUNCTION_H")
    ∷ define (codes "MONITOR_SYSTEM_FUNCTION_H") []
    ∷ prototype int (codes "open_file") ((pointer (const char)) ∷ [])
    ∷ prototype void (codes "empty_file") ((pointer (const char)) ∷ [])
    ∷ prototype void (codes "do_with_file") (int ∷ int ∷ (pointer (const char)) ∷ int ∷ [])
    ∷ prototype void (codes "check_for_mem") ([])
    ∷ prototype void (codes "check_for_cpu") ([])
    ∷ prototype void (codes "check_for_disk") ([])
    ∷ prototype void (codes "check_for_sys") ([])
    ∷ prototype (pointer void) (codes "check_data_and_send_to_msg_queue") ((pointer void) ∷ [])
    ∷ prototype (pointer void) (codes "send_data_to_server") ((pointer void) ∷ [])
    ∷ prototype int (codes "login") ([])
    ∷ prototype void (codes "try_to_relogin") ([])
    ∷ prototype (pointer void) (codes "relogin") ((pointer void) ∷ [])
    ∷ endif
    ∷ []

abbrev pub server_function_h : List Line
server_function_h =
    ifndef (codes "MONITOR_SYSTEM_FUNCTION_H")
    ∷ define (codes "MONITOR_SYSTEM_FUNCTION_H") []
    ∷ forward (codes "MYSQL")
    ∷ prototype (pointer void) (codes "do_task") ((pointer void) ∷ [])
    ∷ prototype (pointer void) (codes "do_login") ((pointer void) ∷ [])
    ∷ prototype (pointer void) (codes "do_dispatch") ((pointer void) ∷ [])
    ∷ prototype (pointer void) (codes "udp_deal_with") ((pointer void) ∷ [])
    ∷ prototype void (codes "deal_with_monitor_msg")
        ((pointer (named (codes "monitor_msg_ds"))) ∷ (pointer (named (codes "MYSQL"))) ∷ [])
    ∷ prototype void (codes "heart_beat") (int ∷ [])
    ∷ prototype int (codes "add_to_reactor") (int ∷ int ∷ [])
    ∷ prototype void (codes "set_alarm") (int ∷ int ∷ [])
    ∷ struct (codes "client_ds")
        ((int, codes "isonline") ∷ ((named (codes "sockaddr_in")), codes "addr") ∷ [])
    ∷ endif
    ∷ []

abbrev pub thread_poll_h : List Line
thread_poll_h =
    ifndef (codes "_THREAD_POOL_H")
    ∷ define (codes "_THREAD_POOL_H") []
    ∷ struct (codes "task_queue") (
        ((pointer (named (codes "monitor_msg_ds"))), codes "data")
        ∷ (int, codes "task_queue_size")
        ∷ (int, codes "head")
        ∷ (int, codes "tail")
        ∷ (int, codes "cur_num")
        ∷ ((named (codes "pthread_mutex_t")), codes "task_lock")
        ∷ ((named (codes "pthread_cond_t")), codes "task_cond")
        ∷ [])
    ∷ typedef (named (codes "task_queue")) (codes "task_queue")
    ∷ prototype (pointer (named (codes "task_queue"))) (codes "task_queue_init") (int ∷ [])
    ∷ prototype int (codes "is_empty") ((pointer (named (codes "task_queue"))) ∷ [])
    ∷ prototype int (codes "length") ((pointer (named (codes "task_queue"))) ∷ [])
    ∷ prototype int (codes "push") ((pointer (named (codes "task_queue"))) ∷ (pointer void) ∷ [])
    ∷ prototype (pointer void) (codes "pop") ((pointer (named (codes "task_queue"))) ∷ [])
    ∷ prototype void (codes "clear") ((pointer (named (codes "task_queue"))) ∷ [])
    ∷ endif
    ∷ []

abbrev pub db_connection_pool_h : List Line
db_connection_pool_h =
    external (codes "mysql/mysql.h")
    ∷ ifndef (codes "_DB_CONNECTION_POOL_H")
    ∷ define (codes "_DB_CONNECTION_POOL_H") []
    ∷ ifndef (codes "__SQLPOOL_H_")
    ∷ define (codes "__SQLPOOL_H_") []
    ∷ define (codes "IP_LEN") (codes "15")
    ∷ define (codes "DBNAME_LEN") (codes "64")
    ∷ define (codes "DBUSER_LEN") (codes "64")
    ∷ define (codes "PASSWD_LEN") (codes "64")
    ∷ define (codes "POOL_MAX_NUMBER") (codes "20")
    ∷ typedef (named (codes "_SQL_NODE")) (codes "SQL_NODE")
    ∷ typedef (named (codes "_SQL_CONN_POOL")) (codes "SQL_CONN_POOL")
    ∷ enum (codes "SQL_STATE") (codes "DB_DISCONN" ∷ codes "DB_CONN" ∷ [])
    ∷ struct (codes "_SQL_NODE") (
        ((named (codes "MYSQL")), codes "fd")
        ∷ ((pointer (named (codes "MYSQL"))), codes "mysql_sock")
        ∷ ((named (codes "pthread_mutex_t")), codes "lock")
        ∷ (int, codes "used")
        ∷ (int, codes "index")
        ∷ ((named (codes "SQL_STATE")), codes "sql_state")
        ∷ [])
    ∷ typedef (named (codes "_SQL_NODE")) (codes "SQL_NODE")
    ∷ struct (codes "_SQL_CONN_POOL") (
        (int, codes "shutdown")
        ∷ ((array pool_max_number (named (codes "SQL_NODE"))), codes "sql_pool")
        ∷ (int, codes "pool_number")
        ∷ (int, codes "busy_number")
        ∷ ((array (15 + 1) char), codes "ip")
        ∷ (int, codes "port")
        ∷ ((array (64 + 1) char), codes "db_name")
        ∷ ((array (64 + 1) char), codes "user")
        ∷ ((array (64 + 1) char), codes "passwd")
        ∷ [])
    ∷ typedef (named (codes "_SQL_CONN_POOL")) (codes "SQL_CONN_POOL")
    ∷ prototype (pointer (named (codes "SQL_CONN_POOL"))) (codes "sql_pool_create") (
        int
        ∷ (pointer (const char))
        ∷ int
        ∷ (pointer (const char))
        ∷ (pointer (const char))
        ∷ (pointer (const char))
        ∷ [])
    ∷ prototype int (codes "create_db_connect")
        ((pointer (named (codes "SQL_CONN_POOL"))) ∷ (pointer (named (codes "SQL_NODE"))) ∷ [])
    ∷ prototype void (codes "sql_pool_destroy") ((pointer (named (codes "SQL_CONN_POOL"))) ∷ [])
    ∷ prototype (pointer (named (codes "SQL_NODE"))) (codes "get_db_connect")
        ((pointer (named (codes "SQL_CONN_POOL"))) ∷ [])
    ∷ prototype void (codes "release_node")
        ((pointer (named (codes "SQL_CONN_POOL"))) ∷ (pointer (named (codes "SQL_NODE"))) ∷ [])
    ∷ prototype (pointer (named (codes "SQL_CONN_POOL"))) (codes "changeNodeNum")
        ((pointer (named (codes "SQL_CONN_POOL"))) ∷ int ∷ [])
    ∷ endif
    ∷ endif
    ∷ []
