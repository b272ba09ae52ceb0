-- ===== src/Server/Tests.antt =====
-- The server's handlers on concrete inputs.
use monitor_system.Base.{ℕ, ◌⊎◌, ◌≡◌, refl, true, [], ◌∷◌, some, arith, codes, pos, ok, dangling}
use monitor_system.Message.{Msg}
use monitor_system.TaskQueue.{TaskQueue, queue_length}
use monitor_system.TaskQueue.Bounds.{IsValid}
use monitor_system.Server.{Server, ack, heart, drop_fd}
use monitor_system.Server.Clients.{Client, lookup, insert, check_online}
use monitor_system.Server.Heartbeat.{
  returns, faults, heart_beat, online, heart_beat_returns, rounds, Quiet, silent_client_removed,
}
use monitor_system.Server.Login.{
  Arrival, do_login, serve_arrival, answer, check_token, admit, add_to_reactor,
}
use monitor_system.Server.Admission.{Refused, Admitted, do_login_cases}
use monitor_system.Server.Dispatch.{Event, dispatch, route, note_ack}
use monitor_system.Server.LockedOut.{dropped_client_locked_out, at_once, then_beat}

abbrev client_at : ℕ → ℕ → Client
client_at n a = record { isonline = n; s_addr = a; sin_port = 4000 }

abbrev idle : Server
idle = record { token = codes "6789"; clients = []; reactor = []; open_fds = []; sent = [] }

abbrev two : Server
two = record idle {
  clients = (5, client_at 3 17) ∷ (6, client_at 2 18) ∷ [];
  reactor = 6 ∷ 5 ∷ [];
  open_fds = 6 ∷ 5 ∷ [];
}

abbrev arrival : Arrival
arrival = record {
  sockfd = some 7;
  s_addr = 19;
  sin_port = 4000;
  in_time = true;
  received = codes "6789";
  ack_sent = true;
  watched = true;
}

abbrev entered : Server
entered = record two {
  clients = (5, client_at 3 17) ∷ (6, client_at 2 18) ∷ (7, client_at 8 19) ∷ [];
  reactor = 7 ∷ 6 ∷ 5 ∷ [];
  open_fds = 7 ∷ 6 ∷ 5 ∷ [];
  sent = ack 7 1 ∷ [];
}

heart_beat_returns_example :
    heart_beat two
    ≡ returns (record two {
      clients = (5, client_at 2 17) ∷ (6, client_at 1 18) ∷ [];
      sent = heart 6 ∷ heart 5 ∷ [];
    })
unfolding online
heart_beat_returns_example = heart_beat_returns two (omega arith)

silent_client_removed_example :
    (t : Server) × (u : Server) × (rounds 1 two ≡ returns t)
    × Quiet 1 two t
    × (heart_beat t ≡ faults dangling u)
    × (u.clients ≡ (5, client_at 1 17) ∷ [])
    × (u.reactor ≡ 5 ∷ [])
    × (u.open_fds ≡ 5 ∷ [])
unfolding drop_fd
silent_client_removed_example =
    silent_client_removed 1 two ((5, client_at 3 17) ∷ []) [] 6 (client_at 2 18) refl (omega arith)
      refl tt

login_runs : do_login two arrival ≡ ok entered
unfolding do_login serve_arrival answer check_token admit add_to_reactor insert check_online
login_runs = refl

do_login_cases_example : Refused two 7 entered ⊎ Admitted two 7 arrival entered
do_login_cases_example = do_login_cases two entered arrival 7 refl login_runs

abbrev sys_msg : ℕ → Msg
sys_msg t = record { type = t; buff = [] }

abbrev ring : TaskQueue
ring = record {
  slots = sys_msg 0 ∷ sys_msg 0 ∷ [];
  task_queue_size = 2;
  head = 0;
  tail = 0;
  cur_num = pos 0;
}

ring-IsValid : IsValid ring
unfolding queue_length
ring-IsValid = record {
  positive = omega arith;
  storage = refl;
  head_in = omega arith;
  tail_in = omega arith;
  counted = refl;
}

abbrev broken : Event
broken = record { sockfd = 6; failed = true; msg = sys_msg 0 }

abbrev without_six : Server
without_six = record two { reactor = 5 ∷ []; open_fds = 5 ∷ [] }

abbrev back : Arrival
back = record arrival { s_addr = 18 }

-- A heartbeat comes in between.
abbrev beaten : Server
beaten = record without_six {
  clients = (5, client_at 2 17) ∷ (6, client_at 1 18) ∷ [];
  sent = heart 6 ∷ heart 5 ∷ [];
}

beat_runs : heart_beat without_six ≡ returns beaten
unfolding online
beat_runs = heart_beat_returns without_six (omega arith)

dropped_client_locked_out_example :
    (without_six.reactor ≡ drop_fd 6 two.reactor)
    × (without_six.open_fds ≡ drop_fd 6 two.open_fds)
    × Refused beaten 7 (record beaten { sent = ack 7 0 ∷ heart 6 ∷ heart 5 ∷ [] })
unfolding dispatch route note_ack lookup drop_fd do_login serve_arrival answer check_token admit
    add_to_reactor insert check_online
dropped_client_locked_out_example =
    dropped_client_locked_out two without_six beaten _ ring ring broken (client_at 2 18) back 7 refl
      refl refl (then_beat beaten at_once beat_runs) refl refl refl
