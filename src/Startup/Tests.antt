-- ===== src/Startup/Tests.antt =====
-- The start of the server on its own configuration file, and clients that answer.
use monitor_system.Base.{
  ℕ, ◌+◌, ◌≡◌, refl, [], ◌∷◌, some, codes, replicate, arith, ok, stop, exits, null_pointer, true,
  false, none, pos,
}
use monitor_system.Offline.{DataFile, until_nul}
use monitor_system.Offline.Lines.{text_of}
use monitor_system.Config.{get_conf_value, scan, lines_of, store, setting, chomp}
use monitor_system.TaskQueue.{TaskQueue}
use monitor_system.Server.{Server}
use monitor_system.Server.Clients.{Client}
use monitor_system.Startup.{atoi, default_number, default_text}
use monitor_system.Startup.Settings.{
  ServerSettings, port_arg, token_arg, server_zeros, server_option, server_options, server_config,
  client_options, client_option, client_zeros, client_config, other,
}
use monitor_system.Startup.Settings.{ClientOption}
use monitor_system.Startup.Answers.{Lives, answering_clients_stay}
use monitor_system.DbPool.Nodes.{Node, Pool, connects, disconnected}
use monitor_system.Startup.ServerMain.{Boot, Running, create_pool, server_main}
use monitor_system.Message.{udp_res}
use monitor_system.Udp.{socket_connect_udp}
use monitor_system.Startup.ClientMain
use monitor_system.Startup.ClientMain.{client_main, runs_check_data, runs_send_data, runs_relogin}
use monitor_system.Startup.Rejected.{turned_away_client_runs}
use monitor_system.Startup.Ready.{Succeeds, IsReady, server_starts}
use monitor_system.Startup.Workers.{start_workers, workers_and_connections}

-- server/monitor.conf
abbrev monitor_conf : DataFile
monitor_conf = some (
    text_of (
      codes "PORT=7777"
      ∷ codes "UDPPORT=7778"
      ∷ codes "TOKEN=6789"
      ∷ codes "MAX=10000"
      ∷ codes "TRHEAD_NUM=10"
      ∷ codes "TASK_QUEUE_SIZE=500"
      ∷ []))

-- `-p 9000 -t 0000`
abbrev given : ServerSettings
given = record server_zeros { port = pos 9000; token = codes "0000" }

abbrev used : ServerSettings
used = record {
  port = pos 9000;
  thread_num = pos 10;
  token = codes "0000";
  task_queue_size = pos 500;
}

-- An unknown option ends the client, and only the client.
unknown_option :
    (client_options (ClientOption.other ∷ []) client_zeros ≡ stop exits)
    × (server_options (other ∷ []) server_zeros ≡ ok server_zeros)
unfolding client_options client_option server_options server_option
unknown_option = (refl, refl)

abbrev empty_node : Node
empty_node = record {
  mysql_sock = none;
  locked = false;
  used = false;
  index = 0;
  sql_state = disconnected;
}

abbrev queue : TaskQueue
queue = record { slots = []; task_queue_size = 0; head = 0; tail = 0; cur_num = pos 0 }

abbrev client : ℕ → Client
client n = record { isonline = n; s_addr = 100 + n; sin_port = 4000 }

abbrev two : Server
two = record {
  token = codes "6789";
  clients = (4, client 8) ∷ (7, client 2) ∷ [];
  reactor = 7 ∷ 4 ∷ [];
  open_fds = 7 ∷ 4 ∷ [];
  sent = [];
}

answering_clients_stay_example : Lives 3 (replicate 500 0) queue two
answering_clients_stay_example =
    answering_clients_stay 3 (replicate 500 0) queue two (omega arith) (omega arith)

abbrev boot : Boot
boot = record {
  tcp = record { socket = some 3; bound = true; listens = true };
  epollfd = some 4;
  mysql_ready = true;
  nodes = some (replicate 20 empty_node);
  attempts = λ i. connects (100 + i);
  slots = replicate 500 (record { type = 0; buff = [] });
  udp_socket = some 5;
  udp_bound = true;
  udp_epollfd = some 6;
  udp_watched = true;
  no_result = pos 0;
}

-- Eleven workers, whose searches all start at the fourth node.
workers_and_connections_example :
    (sp : Pool) × (create_pool boot ≡ ok sp)
    × (start_workers boot.attempts (λ k. true) (replicate 11 3) sp ≡ stop null_pointer)
workers_and_connections_example =
    workers_and_connections (λ i. 100 + i) boot (replicate 20 empty_node) boot.attempts (λ k. true)
      (replicate 11 3) refl refl (λ i. refl) (λ k. refl)

all_succeed : Succeeds (λ i. 100 + i) 500 boot
all_succeed = record {
  tcp_fd = 3;
  tcp_socket = refl;
  tcp_bound = refl;
  tcp_listens = refl;
  epoll_fd = 4;
  epoll_made = refl;
  mysql_ready = refl;
  array = replicate 20 empty_node;
  allocated = refl;
  array_size = refl;
  connected = λ i. refl;
  slots_size = refl;
  udp_fd = 5;
  udp_made = refl;
  udp_bound = refl;
  udp_epoll = 6;
  udp_epoll_made = refl;
  watched = refl;
  result = refl;
}

server_starts_example :
    (r : Running) × (server_main
        (port_arg (codes "9000") ∷ token_arg (codes "0000") ∷ [])
        monitor_conf
        boot
      ≡ ok r)
    × IsReady
        (λ i. 100 + i)
        used
        10
        (all_succeed.udp_epoll ∷ all_succeed.udp_fd ∷ all_succeed.epoll_fd ∷ all_succeed.tcp_fd
          ∷ [])
        r
unfolding server_options server_option server_config atoi default_number default_text get_conf_value
    scan lines_of store setting chomp until_nul
server_starts_example =
    server_starts (port_arg (codes "9000") ∷ token_arg (codes "0000") ∷ []) monitor_conf given used
      boot (λ i. 100 + i) 500 10 refl refl refl refl (omega arith) all_succeed

-- client/monitor.conf
abbrev client_conf : DataFile
client_conf =
    some
      (text_of (codes "SERVER_IP=127.0.0.1" ∷ codes "SERVER_PORT=7777" ∷ codes "TOKEN=6789" ∷ []))

-- The server's answer to the login is 0.
abbrev turned_away : ClientMain.Boot
turned_away = record {
  msg_id = some 0;
  udp = record { socket = some 3; connected = true; ready = true; received = some udp_res };
  tcp = record { connected = some 4; sent = true; ready = true; received = some 0 };
}

turned_away_client_runs_example :
    (r : ClientMain.Running) × (client_main [] client_conf turned_away ≡ ok r)
    × (r.settings
        ≡ record { server_port = pos 7777; server_ip = codes "127.0.0.1"; token = codes "6789" })
    × (r.logged_in ≡ false)
    × (r.link.sockfd ≡ some 4)
    × (r.link.open_fds ≡ 4 ∷ 3 ∷ [])
    × (r.threads ≡ runs_check_data ∷ runs_send_data ∷ runs_relogin ∷ [])
unfolding client_options client_config atoi default_number default_text get_conf_value scan lines_of
    store setting chomp until_nul socket_connect_udp
turned_away_client_runs_example =
    turned_away_client_runs [] client_conf client_zeros
      (record { server_port = pos 7777; server_ip = codes "127.0.0.1"; token = codes "6789" })
      turned_away 0 3 4 refl refl refl refl
      (record {
        connected = refl;
        sent = refl;
        ready = refl;
        ack = 0;
        received = refl;
        refused = refl;
      })

abbrev from_file : ServerSettings
from_file = record {
  port = pos 7777;
  thread_num = pos 10;
  token = codes "6789";
  task_queue_size = pos 500;
}
