-- ===== src/Startup/Settings.antt =====
-- The command line and the configuration of both programs.
use monitor_system.Base.{ℕ, List, [], ◌∷◌, codes, ℤ, pos, Exec, ok, stop, exits, ◌>>=◌, strcpy}
use monitor_system.Offline.{DataFile}
use monitor_system.Startup.{atoi, default_number, default_text}

-- The globals of server.cpp that are settings. They start as zeros.
pub record ServerSettings : Type 0 where
  pub port : ℤ
  pub thread_num : ℤ
  pub token : List ℕ
  pub task_queue_size : ℤ

abbrev pub server_zeros : ServerSettings
server_zeros = record { port = pos 0; thread_num = pos 0; token = []; task_queue_size = pos 0 }

-- What `getopt` finds on the server's command line: `-p`, `-t`, `-T`, or something else.
pub data ServerOption : Type 0 where
  port_arg : List ℕ → ServerOption
  token_arg : List ℕ → ServerOption
  threads_arg : List ℕ → ServerOption
  other : ServerOption

-- One turn of the loop over the options. Another option only prints the usage.
unfoldable pub server_option : ServerSettings → ServerOption → Exec ServerSettings
server_option g (port_arg arg) = ok (record g { port = atoi arg })
server_option g (token_arg arg) = strcpy 20 arg >>= λ token. ok (record g { token = token })
server_option g (threads_arg arg) = ok (record g { thread_num = atoi arg })
server_option g other = ok g

unfoldable pub server_options : List ServerOption → ServerSettings → Exec ServerSettings
server_options [] g = ok g
server_options (o ∷ os) g = server_option g o >>= λ h. server_options os h

-- The key `TRHEAD_NUM` is spelled as in the source.
unfoldable pub server_config : DataFile → ServerSettings → Exec ServerSettings
server_config file g = default_number file (codes "PORT") g.port >>= λ port.
    default_number file (codes "TRHEAD_NUM") g.thread_num >>= λ thread_num.
    default_text file (codes "TOKEN") g.token >>= λ token.
    default_number file (codes "TASK_QUEUE_SIZE") g.task_queue_size >>= λ task_queue_size.
    ok (record {
      port = port;
      thread_num = thread_num;
      token = token;
      task_queue_size = task_queue_size;
    })

pub record ClientSettings : Type 0 where
  pub server_port : ℤ
  pub server_ip : List ℕ
  pub token : List ℕ

abbrev pub client_zeros : ClientSettings
client_zeros = record { server_port = pos 0; server_ip = []; token = [] }

-- `-s`, `-t`, `-p`, or something else.
pub data ClientOption : Type 0 where
  ip_arg : List ℕ → ClientOption
  token_arg : List ℕ → ClientOption
  port_arg : List ℕ → ClientOption
  other : ClientOption

-- Another option ends the client.
unfoldable pub client_option : ClientSettings → ClientOption → Exec ClientSettings
client_option g (ClientOption.ip_arg arg) = strcpy 20 arg >>= λ ip. ok (record g { server_ip = ip })
client_option g (ClientOption.token_arg arg) =
    strcpy 20 arg >>= λ token. ok (record g { token = token })
client_option g (ClientOption.port_arg arg) = ok (record g { server_port = atoi arg })
client_option g ClientOption.other = stop exits

unfoldable pub client_options : List ClientOption → ClientSettings → Exec ClientSettings
client_options [] g = ok g
client_options (o ∷ os) g = client_option g o >>= λ h. client_options os h

unfoldable pub client_config : DataFile → ClientSettings → Exec ClientSettings
client_config file g = default_number file (codes "SERVER_PORT") g.server_port >>= λ server_port.
    default_text file (codes "SERVER_IP") g.server_ip >>= λ server_ip.
    default_text file (codes "TOKEN") g.token >>= λ token.
    ok (record { server_port = server_port; server_ip = server_ip; token = token })
