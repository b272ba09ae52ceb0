-- ===== src/Startup/Ready.antt =====
-- The state in which `main` of server/server.cpp leaves the parts of the server.
use monitor_system.Base.{
  ℕ, replicate, ◌++◌, ◌<◌, ◌≡◌, refl, true, false, List, [], ◌∷◌, some, length, pos, is_negative,
  ok,
}
use monitor_system.DbPool.Nodes.{Node, connects}
use monitor_system.DbPool.Free.{free_nodes}
use monitor_system.DbPool.Grab.{IsOpen}
use monitor_system.TaskQueue.{TaskQueue, task_queue_init}
use monitor_system.TaskQueue.Bounds.{IsValid, init-IsValid}
use monitor_system.TaskQueue.Fifo.{Holds, init-Holds}
use monitor_system.Offline.{DataFile}
use monitor_system.Sockets.{Listening, socket_create}
use monitor_system.Udp.{socket_create_udp}
use monitor_system.Startup.Settings.{
  ServerSettings, ServerOption, server_zeros, server_options, server_config,
}
use monitor_system.Startup.ServerMain.{
  Boot, Running, runs_login, runs_task, runs_dispatch, runs_udp, set_alarm, check_reactor, set_up,
  server_main,
}
use monitor_system.Startup.Workers.{create_pool-IsOpen}

-- Every call of `main` succeeds, MySQL gives the connections `c`, and `add_to_reactor`, which has no
-- `return` there, leaves no negative number.
pub record Succeeds (c : ℕ → ℕ) (size : ℕ) (b : Boot) : Type 0 where
  pub tcp_fd : ℕ
  pub tcp_socket : b.tcp.socket ≡ some tcp_fd
  pub tcp_bound : b.tcp.bound ≡ true
  pub tcp_listens : b.tcp.listens ≡ true
  pub epoll_fd : ℕ
  pub epoll_made : b.epollfd ≡ some epoll_fd
  pub mysql_ready : b.mysql_ready ≡ true
  pub array : List Node
  pub allocated : b.nodes ≡ some array
  pub array_size : length array ≡ 20
  pub connected : (i : ℕ) → b.attempts i ≡ connects (c i)
  pub slots_size : length b.slots ≡ size
  pub udp_fd : ℕ
  pub udp_made : b.udp_socket ≡ some udp_fd
  pub udp_bound : b.udp_bound ≡ true
  pub udp_epoll : ℕ
  pub udp_epoll_made : b.udp_epollfd ≡ some udp_epoll
  pub watched : b.udp_watched ≡ true
  pub result : is_negative b.no_result ≡ false

-- The server is ready.
pub record IsReady (c : ℕ → ℕ) (used : ServerSettings) (workers : ℕ) (fds : List ℕ) (r : Running)
    : Type 0 where
  pub settings : r.settings ≡ used
  pub pool : IsOpen c r.sq_conn_poll
  pub connections : free_nodes r.sq_conn_poll ≡ 10
  pub queue : TaskQueue
  pub shared : r.tq ≡ some queue
  pub valid : IsValid queue
  pub empty : Holds queue []
  pub threads :
      r.threads
      ≡ runs_login r.server_listen
        ∷ (replicate workers (runs_task (some queue))
            ++ (runs_dispatch (some queue) ∷ runs_udp r.udp_server_listen used.port ∷ []))
  pub opened : r.open_fds ≡ fds

listens :
    (a : Listening) (fd : ℕ)
    → a.socket ≡ some fd
    → a.bound ≡ true
    → a.listens ≡ true
    → socket_create [] a ≡ (some fd, fd ∷ [])
unfolding socket_create
listens a fd socket bound heard = rw (socket, bound, heard) refl

watches :
    (b : Boot) → b.udp_watched ≡ true → is_negative b.no_result ≡ false → check_reactor b ≡ ok true
watches b watched result = rw (watched, result) refl

-- If every call succeeds, the number of threads is not negative and the task queue has a cell, the
-- server comes up with the settings of its command line and file: its pool is open with ten free
-- connections, its task queue is valid and empty, its threads are the login thread, a worker for each
-- thread asked for, the dispatcher and the UDP thread, and it has four descriptors open.
pub server_starts :
    (options : List ServerOption) (file : DataFile) (given used : ServerSettings) (b : Boot)
    (c : ℕ → ℕ) (size workers : ℕ)
    → server_options options server_zeros ≡ ok given
    → server_config file given ≡ ok used
    → used.thread_num ≡ pos workers
    → used.task_queue_size ≡ pos size
    → 0 < size
    → (s : Succeeds c size b)
    → (r : Running) × (server_main options file b ≡ ok r)
      × IsReady c used workers (s.udp_epoll ∷ s.udp_fd ∷ s.epoll_fd ∷ s.tcp_fd ∷ []) r
unfolding server_main set_up socket_create_udp
server_starts options file given used b c size workers parsed config threads cells positive s =
    let (sp, made, opened, count) =
      create_pool-IsOpen c b s.array s.allocated s.array_size s.connected in
    let tcp = listens b.tcp s.tcp_fd s.tcp_socket s.tcp_bound s.tcp_listens in
    let reactor = watches b s.watched s.result in
    let r : Running = record {
      settings = used;
      alarm = set_alarm 1 3;
      server_listen = s.tcp_fd;
      epollfd = s.epoll_fd;
      sq_conn_poll = sp;
      tq = some (task_queue_init size b.slots);
      threads =
          runs_login s.tcp_fd
          ∷ (replicate workers (runs_task (some (task_queue_init size b.slots)))
              ++ (runs_dispatch (some (task_queue_init size b.slots))
                  ∷ runs_udp s.udp_fd used.port
                  ∷ []));
      udp_server_listen = s.udp_fd;
      udp_epollfd = s.udp_epoll;
      open_fds = s.udp_epoll ∷ s.udp_fd ∷ s.epoll_fd ∷ s.tcp_fd ∷ [];
    } in
    (
      r,
      simp (
        parsed, config, threads, cells, tcp, s.epoll_made, s.mysql_ready, made, s.udp_made,
        s.udp_bound, s.udp_epoll_made, reactor,
      ),
      record {
        settings = refl;
        pool = opened;
        connections = count;
        queue = task_queue_init size b.slots;
        shared = refl;
        valid = init-IsValid size b.slots positive s.slots_size;
        empty = init-Holds size b.slots positive;
        threads = refl;
        opened = refl;
      },
    )
