-- ===== src/Startup/ServerMain.antt =====
-- `main` of server/server.cpp, up to the loop that sleeps, and `set_alarm` of server/server_func.cpp.
use monitor_system.Base.{
  ℕ, List, [], ◌∷◌, Option, none, some, Bool, codes, if◌then◌else◌, ℤ, pos, negsuc, is_negative,
  Exec, ok, stop, exits, out_of_bounds, ◌>>=◌, replicate, ◌++◌,
}
use monitor_system.Message.{Msg}
use monitor_system.TaskQueue.{TaskQueue, task_queue_init}
use monitor_system.DbPool.{sql_pool_create}
use monitor_system.DbPool.Nodes.{Node, Pool, Attempt}
use monitor_system.Offline.{DataFile}
use monitor_system.Sockets.{Listening, socket_create}
use monitor_system.Udp.{socket_create_udp}
use monitor_system.Startup.Settings.{
  ServerSettings, ServerOption, server_zeros, server_options, server_config,
}

-- `struct itimerval`, in seconds.
pub record Alarm : Type 0 where
  pub it_interval : ℕ
  pub it_value : ℕ

pub set_alarm : ℕ → ℕ → Alarm
set_alarm interval next_time = record { it_interval = interval; it_value = next_time }

-- What the system and the MySQL library answer while the server starts.
pub record Boot : Type 0 where
  pub tcp : Listening
  -- `epoll_create`, `none` on an error
  pub epollfd : Option ℕ
  -- `mysql_library_init` returns 0
  pub mysql_ready : Bool
  -- `malloc` and the attempts of `sql_pool_create`
  pub nodes : Option (List Node)
  pub attempts : ℕ → Attempt
  -- `malloc` of the slots of the task queue
  pub slots : List Msg
  pub udp_socket : Option ℕ
  pub udp_bound : Bool
  pub udp_epollfd : Option ℕ
  -- `epoll_ctl` for the UDP socket
  pub udp_watched : Bool
  -- what the caller finds where `add_to_reactor` ends without a `return`
  pub no_result : ℤ

-- A thread of the server, by the function that it runs and its argument: the listening socket, the task
-- queue, or the UDP socket and the port of `data`.
pub data Thread : Type 0 where
  runs_login : ℕ → Thread
  runs_task : Option TaskQueue → Thread
  runs_dispatch : Option TaskQueue → Thread
  runs_udp : ℕ → ℤ → Thread

-- The server once all threads run; `threads` are in the order of their creation, whose results are not
-- looked at. A thread's task queue is the state that it finds, as the threads share one.
pub record Running : Type 0 where
  pub settings : ServerSettings
  pub alarm : Alarm
  pub server_listen : ℕ
  pub epollfd : ℕ
  pub sq_conn_poll : Pool
  pub tq : Option TaskQueue
  pub threads : List Thread
  pub udp_server_listen : ℕ
  pub udp_epollfd : ℕ
  pub open_fds : List ℕ

-- A call whose failure ends the process.
abbrev pub or_exit {ℓ} : {A : Type ℓ} → Option A → Exec A
or_exit none = stop exits
or_exit (some v) = ok v

-- `pthread_t threads[thread_num]`: an array of negative length is undefined.
abbrev pub array_length : ℤ → Exec ℕ
array_length (pos n) = ok n
array_length (negsuc n) = stop out_of_bounds

-- `task_queue_init(task_queue_size)`. A negative size is a number of bytes that `malloc` cannot give, and
-- its null pointer is not looked at: the queue has no slots (`none`), and the first `push` follows the
-- null pointer.
abbrev pub shared_queue : ℤ → List Msg → Option TaskQueue
shared_queue (pos size) slots = some (task_queue_init size slots)
shared_queue (negsuc n) slots = none

-- `add_to_reactor(udp_server_listen, udp_epollfd) < 0` ends the process.
abbrev pub check_reactor : Boot → Exec Bool
check_reactor b =
    let result = if b.udp_watched then b.no_result else negsuc 0 in
    if is_negative result then stop exits else ok b.udp_watched

-- The pool of ten connections, to an address with one number too many.
unfoldable pub create_pool : Boot → Exec Pool
create_pool b =
    sql_pool_create b.attempts b.nodes (pos 10) (codes "127.0.0.0.1") 3306 (codes "mysql")
      (codes "root") (codes "12345678")
    >>= or_exit

-- From the alarm to the last thread.
unfoldable pub set_up : Boot → ServerSettings → Exec Running
unfolding create_pool
set_up b g =
    let tcp = socket_create [] b.tcp in
    let alarm = set_alarm 1 3 in
    or_exit tcp.0 >>= λ server_listen. or_exit b.epollfd >>= λ epollfd.
    (if b.mysql_ready then create_pool b else stop exits) >>= λ pool.
    let tq = shared_queue g.task_queue_size b.slots in
    array_length g.thread_num >>= λ thread_num.
    let udp = socket_create_udp b.udp_socket b.udp_bound (epollfd ∷ tcp.1) in
    or_exit udp.0 >>= λ udp_listen. or_exit b.udp_epollfd >>= λ udp_epollfd.
    check_reactor b >>= λ watched. ok (record {
      settings = g;
      alarm = alarm;
      server_listen = server_listen;
      epollfd = epollfd;
      sq_conn_poll = pool;
      tq = tq;
      threads =
          runs_login server_listen
          ∷ (replicate thread_num (runs_task tq)
              ++ (runs_dispatch tq ∷ runs_udp udp_listen g.port ∷ []));
      udp_server_listen = udp_listen;
      udp_epollfd = udp_epollfd;
      open_fds = udp_epollfd ∷ udp.1;
    })

unfoldable pub server_main : List ServerOption → DataFile → Boot → Exec Running
unfolding set_up
server_main options config b =
    server_options options server_zeros >>= λ g. server_config config g >>= set_up b
