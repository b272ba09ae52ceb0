-- ===== src/Server/Login.antt =====
-- `do_login`: one round of its loop, from `accept` to the next `accept`.
use monitor_system.Base.{
  ℕ, ◌-◌, Bool, not, List, ◌∷◌, ◌++◌, Option, none, some, ◌==◌, if◌then◌else◌, length, replicate,
  take, c_str, str_eq, Exec, ok, stop, exits, ◌>>=◌,
}
use monitor_system.Server.{Server, ack, close_fd}
use monitor_system.Server.Clients.{Client, insert, check_online}

-- What the system calls of one round answer.
pub record Arrival : Type 0 where
  -- `accept`: the new socket, or `none` on an error
  pub sockfd : Option ℕ
  pub s_addr : ℕ
  pub sin_port : ℕ
  -- `select` reports the socket within 10 ms
  pub in_time : Bool
  -- the bytes of `recv`; none for a result of 0 or less
  pub received : List ℕ
  -- `send` of the acknowledgement
  pub ack_sent : Bool
  -- `epoll_ctl(EPOLL_CTL_ADD)`
  pub watched : Bool

-- `char token_tmp[100] = {0}` after `recv`.
abbrev pub token_tmp : List ℕ → List ℕ
token_tmp bytes = take 100 bytes ++ replicate (100 - length bytes) 0

-- `add_to_reactor`, whose result the caller drops.
unfoldable pub add_to_reactor : Server → ℕ → Bool → Server
add_to_reactor s fd watched = if watched then record s { reactor = fd ∷ s.reactor } else s

-- `client_ds {8, client}`
abbrev pub new_client : Arrival → Client
new_client a = record { isonline = 8; s_addr = a.s_addr; sin_port = a.sin_port }

-- `clients[sockfd] = new client_ds {8, client}`, and the registration.
unfoldable pub admit : Server → ℕ → Arrival → Server
unfolding add_to_reactor
admit s fd a =
    add_to_reactor (record s { clients = insert fd (new_client a) s.clients }) fd a.watched

-- `strcmp(token_tmp, token)`, the last test: it runs off `token_tmp` if 100 bytes hold no NUL.
unfoldable pub check_token : Server → ℕ → Arrival → Exec Server
unfolding admit
check_token s fd a = c_str (token_tmp a.received) >>= λ given.
    ok (if str_eq given s.token then admit s fd a else close_fd s fd)

-- From `check_online` to the end of the round, once a token has come in.
unfoldable pub answer : Server → ℕ → Arrival → Exec Server
unfolding check_token
answer s fd a =
    let reply = if check_online a.s_addr s.clients then 0 else 1 in
    if not a.ack_sent
    then ok (close_fd s fd)
    else (let told = record s { sent = ack fd reply ∷ s.sent } in
        if reply == 0 then ok (close_fd told fd) else check_token told fd a)

unfoldable pub serve_arrival : Server → ℕ → Arrival → Exec Server
unfolding answer
serve_arrival s fd a =
    let opened = record s { open_fds = fd ∷ s.open_fds } in
    if not a.in_time
    then ok (close_fd opened fd)
    else (if length a.received == 0 then ok (close_fd opened fd) else answer opened fd a)

unfoldable pub do_login : Server → Arrival → Exec Server
unfolding serve_arrival
do_login s a = elim a.sockfd [ none ↦ stop exits | some fd ↦ serve_arrival s fd a ]
