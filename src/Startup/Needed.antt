-- ===== src/Startup/Needed.antt =====
-- What the start of the server needs: `main` of server/server.cpp, read from a server that runs.
use monitor_system.Base.{ℕ, ◌≡◌, true, false, some, pos, is_negative}
use monitor_system.DbPool.AllOrNone.{all_succeed}
use monitor_system.Startup.ServerMain.{Boot, Running, shared_queue}

-- Everything that has to go well, and the numbers that the settings may have.
pub record Went (b : Boot) (r : Running) : Type 0 where
  pub tcp_socket : b.tcp.socket ≡ some r.server_listen
  pub tcp_bound : b.tcp.bound ≡ true
  pub tcp_listens : b.tcp.listens ≡ true
  pub epoll_made : b.epollfd ≡ some r.epollfd
  pub mysql_ready : b.mysql_ready ≡ true
  pub connected : all_succeed b.attempts 0 10 ≡ true
  pub workers : ℕ
  pub threads_asked : r.settings.thread_num ≡ pos workers
  pub queue : r.tq ≡ shared_queue r.settings.task_queue_size b.slots
  pub udp_made : b.udp_socket ≡ some r.udp_server_listen
  pub udp_bound : b.udp_bound ≡ true
  pub udp_epoll_made : b.udp_epollfd ≡ some r.udp_epollfd
  pub watched : b.udp_watched ≡ true
  pub result : is_negative b.no_result ≡ false
