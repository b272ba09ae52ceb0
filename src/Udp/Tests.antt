-- ===== src/Udp/Tests.antt =====
-- The UDP login on concrete inputs.
use monitor_system.Base.{
  ℕ, ◌≡◌, refl, [], ◌∷◌, ◌++◌, some, true, false, replicate, ok, stop, exits, arith,
}
use monitor_system.Udp.{
  UdpServer, Request, request, message, udp_deal_with, serve_request, socket_connect_udp, udp_event,
}
use monitor_system.Server.{drop_fd}
use monitor_system.Udp.Handshake.{short_datagram_exits, any_token_logs_in}

abbrev serving : UdpServer
serving = record { reactor = 5 ∷ 4 ∷ []; open_fds = 5 ∷ 4 ∷ []; sent = [] }

abbrev short : Request
short = record {
  datagram = some (1 ∷ 2 ∷ []);
  socket = some 6;
  bound = true;
  sent = true;
  watched = true;
}

short_datagram_exits_example :
    udp_deal_with serving ((message 5 false ∷ []) ++ (request short ∷ message 4 true ∷ []))
    ≡ stop exits
unfolding udp_deal_with udp_event drop_fd
short_datagram_exits_example =
    short_datagram_exits serving (record serving { reactor = 4 ∷ [] }) (message 5 false ∷ [])
      (message 4 true ∷ []) short (1 ∷ 2 ∷ []) refl refl (omega arith)

any_token_logs_in_example :
    (t : UdpServer) × (n : ℕ) × (serve_request serving (record {
      datagram = some (replicate 20 7);
      socket = some 6;
      bound = true;
      sent = true;
      watched = true;
    })
      ≡ ok t)
    × (t.reactor ≡ 6 ∷ 5 ∷ 4 ∷ [])
    × (t.open_fds ≡ 6 ∷ 5 ∷ 4 ∷ [])
    × (t.sent ≡ (6, n) ∷ [])
    × (socket_connect_udp []
          (record { socket = some 3; connected = true; ready = true; received = some n })
        ≡ (some 3, 3 ∷ []))
any_token_logs_in_example = any_token_logs_in serving (replicate 20 7) [] 6 3 (omega arith)
