-- ===== src/Udp.antt =====
-- The UDP login: `accept_udp` and `socket_connect_udp` of common/common.cpp, and `udp_deal_with` of
-- server/server_func.cpp.
pub mod Handshake
mod Tests
use monitor_system.Base.{
  ℕ, List, [], ◌∷◌, Option, none, some, Bool, true, false, not, ◌&&◌, take, length, ◌==◌,
  if◌then◌else◌, Exec, ok, stop, exits, ◌>>=◌,
}
use monitor_system.Message.{token_len, udp_res}
use monitor_system.Server.{drop_fd}

pub record UdpServer : Type 0 where
  -- the descriptors that `udp_epollfd` watches
  pub reactor : List ℕ
  pub open_fds : List ℕ
  -- the answers sent, the latest first
  pub sent : List (ℕ × ℕ)

-- What the system calls answer when the listening socket is ready.
pub record Request : Type 0 where
  -- `recvfrom`: the datagram, or `none` on an error
  pub datagram : Option (List ℕ)
  pub socket : Option ℕ
  pub bound : Bool
  pub sent : Bool
  pub watched : Bool

-- `socket_create_udp`: a failed `bind` leaves the socket open.
unfoldable pub socket_create_udp : Option ℕ → Bool → List ℕ → Option ℕ × List ℕ
socket_create_udp none bound fds = (none, fds)
socket_create_udp (some fd) false fds = (none, fd ∷ fds)
socket_create_udp (some fd) true fds = (some fd, fd ∷ fds)

-- `check_user`
unfoldable pub check_user : List ℕ → Bool
check_user token = true

abbrev pub reply : UdpServer → Request → Option ℕ × List ℕ → Option ℕ × UdpServer
reply s r (none, fds) = (none, record s { open_fds = fds })
reply s r (some fd, fds) = (
  some fd,
  record s { open_fds = fds; sent = (if r.sent then (fd, udp_res) ∷ s.sent else s.sent) },
)

-- `recvfrom` keeps 20 bytes of a longer datagram.
unfoldable pub on_datagram : UdpServer → Request → Option (List ℕ) → Option ℕ × UdpServer
on_datagram s r none = (none, s)
on_datagram s r (some d) =
    let token = take token_len d in
    if length token == token_len && check_user token
    then reply s r (socket_create_udp r.socket r.bound s.open_fds)
    else (none, s)

-- `accept_udp`. The results of `connect` and `send` are only reported.
unfoldable pub accept_udp : UdpServer → Request → Option ℕ × UdpServer
accept_udp s r = on_datagram s r r.datagram

-- Without a socket from `accept_udp` the process ends; else the socket is put into the reactor.
abbrev pub watch : Bool → Option ℕ × UdpServer → Exec UdpServer
watch watched (none, t) = stop exits
watch watched (some fd, t) =
    ok (record t { reactor = if watched then fd ∷ t.reactor else t.reactor })

-- The listening socket is ready.
unfoldable pub serve_request : UdpServer → Request → Exec UdpServer
serve_request s r = watch r.watched (accept_udp s r)

-- A ready descriptor: the listening socket, or a client's socket with whether `recv` succeeds.
pub data UdpEvent : Type 0 where
  request : Request → UdpEvent
  message : ℕ → Bool → UdpEvent

unfoldable pub udp_event : UdpServer → UdpEvent → Exec UdpServer
unfolding serve_request
udp_event s (request r) = serve_request s r
udp_event s (message fd received) =
    ok (record s { reactor = if received then s.reactor else drop_fd fd s.reactor })

-- The loop of `udp_deal_with` over the descriptors that become ready, while `epoll_wait` succeeds.
unfoldable pub udp_deal_with : UdpServer → List UdpEvent → Exec UdpServer
udp_deal_with s [] = ok s
udp_deal_with s (e ∷ es) = udp_event s e >>= λ t. udp_deal_with t es

-- What the system calls of `socket_connect_udp` answer; the result of `send` is not looked at.
pub record UdpAnswers : Type 0 where
  pub socket : Option ℕ
  pub connected : Bool
  pub ready : Bool
  -- `recv` of an `int`: `none` if it is not four bytes
  pub received : Option ℕ

abbrev pub is_res : Option ℕ → Bool
is_res none = false
is_res (some n) = n == udp_res

-- `socket_udp`, with the open descriptors.
abbrev pub socket_udp : List ℕ → Option ℕ → Option ℕ × List ℕ
socket_udp fds none = (none, fds)
socket_udp fds (some fd) = (some fd, fd ∷ fds)

abbrev pub login_udp : UdpAnswers → Option ℕ × List ℕ → Option ℕ × List ℕ
login_udp a (none, fds) = (none, fds)
login_udp a (some fd, fds) =
    (if a.connected && a.ready && is_res a.received then some fd else none, fds)

-- `socket_connect_udp`: the socket stays open on every failure.
unfoldable pub socket_connect_udp : List ℕ → UdpAnswers → Option ℕ × List ℕ
socket_connect_udp fds a = login_udp a (socket_udp fds a.socket)
