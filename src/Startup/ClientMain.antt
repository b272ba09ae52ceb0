-- ===== src/Startup/ClientMain.antt =====
-- `main` of client/client.cpp.
use monitor_system.Base.{
  ℕ, List, [], ◌∷◌, Option, none, some, Bool, if◌then◌else◌, Exec, ok, stop, exits, ◌>>=◌,
}
use monitor_system.Message.{Msg, has_heart, pi_ack}
use monitor_system.Offline.{DataFile}
use monitor_system.Reconnect.{Link, Answers, login}
use monitor_system.Udp.{UdpAnswers, socket_connect_udp}
use monitor_system.Startup.Settings.{
  ClientSettings, ClientOption, client_zeros, client_options, client_config,
}

-- What the system answers while the client starts.
pub record Boot : Type 0 where
  -- `msgget`, `none` on an error
  pub msg_id : Option ℕ
  pub udp : UdpAnswers
  pub tcp : Answers

-- A thread of the client, by the function that it runs.
pub data Thread : Type 0 where
  runs_check_data : Thread
  runs_send_data : Thread
  runs_relogin : Thread

-- The client once all threads run; `threads` are in the order of their creation. `logged_in` is the
-- result of `login`, which `main` drops.
pub record Running : Type 0 where
  pub settings : ClientSettings
  pub msg_id : ℕ
  pub udp_sockfd : ℕ
  pub link : Link
  pub logged_in : Bool
  pub threads : List Thread

abbrev pub or_exit : Option ℕ → Exec ℕ
or_exit none = stop exits
or_exit (some v) = ok v

unfoldable pub client_main : List ClientOption → DataFile → Boot → Exec Running
client_main options config b = or_exit b.msg_id >>= λ msg_id.
    client_options options client_zeros >>= λ g. client_config config g >>= λ settings.
    let udp = socket_connect_udp [] b.udp in
    or_exit udp.0 >>= λ udp_sockfd.
    login (record { sockfd = none; open_fds = udp.1 }) b.tcp >>= λ r. ok (record {
      settings = settings;
      msg_id = msg_id;
      udp_sockfd = udp_sockfd;
      link = r.1;
      logged_in = r.0;
      threads = runs_check_data ∷ runs_send_data ∷ runs_relogin ∷ [];
    })

-- One turn of the loop of `main`: `msg` is what `recv` leaves in the zeroed message. The result is
-- what is sent back.
unfoldable pub answer_heart : Msg → Option Msg
answer_heart msg = if has_heart msg.type then some (record msg { type = pi_ack }) else none
