-- ===== src/Server/Threads.antt =====
-- The handlers of the server in parts: the login thread, the dispatcher and the signal handler, each of
-- which runs on between any two parts of the others.
use monitor_system.Base.{
  ℕ, ◌≡◌, refl, not, List, [], ◌∷◌, none, some, Option-cases, inl, inr, arith, All, ok, stop, exits,
  dangling, Exec, ◌>>=◌, ◌==◌, if◌then◌else◌, length, c_str, str_eq,
}
use monitor_system.TaskQueue.{TaskQueue}
use monitor_system.Server.{Server, ack, unregister, close_fd, drop_fd}
use monitor_system.Server.Clients.{insert, check_online}
use monitor_system.Server.Login.{
  Arrival, new_client, token_tmp, add_to_reactor, admit, check_token, answer, serve_arrival,
  do_login,
}
use monitor_system.Server.Dispatch.{Event, route, dispatch}
use monitor_system.Server.Heartbeat.{returns, faults, walk, heart_beat}
use monitor_system.Server.Registered.{IsIn}

-- Where the login thread is: before `accept`, before `clients[sockfd] = …`, or before
-- `add_to_reactor`.
pub data LoginAt : Type 0 where
  accepting : LoginAt
  entering : ℕ → Arrival → LoginAt
  registering : ℕ → Arrival → LoginAt

-- Where the dispatcher is: before `epoll_wait`, before the `recv` for the first of the events that are
-- left, or before the tests on the type of a message.
pub data DispatchAt : Type 0 where
  waiting : DispatchAt
  handling : List Event → DispatchAt
  testing : Event → List Event → DispatchAt

pub record Threads : Type 0 where
  pub server : Server
  pub login : LoginAt
  pub events : DispatchAt

-- A round of `do_login` from the `strcmp` of the token, up to `clients[sockfd] = …`.
unfoldable pub compare_token : Server → ℕ → Arrival → Exec (Server × LoginAt)
compare_token s fd a = c_str (token_tmp a.received) >>= λ given.
    ok (if str_eq given s.token then (s, entering fd a) else (close_fd s fd, accepting))

-- From `check_online` on.
unfoldable pub look_up : Server → ℕ → Arrival → Exec (Server × LoginAt)
unfolding compare_token
look_up s fd a =
    let reply = if check_online a.s_addr s.clients then 0 else 1 in
    if not a.ack_sent
    then ok (close_fd s fd, accepting)
    else (let told = record s { sent = ack fd reply ∷ s.sent } in
        if reply == 0 then ok (close_fd told fd, accepting) else compare_token told fd a)

-- From `accept` on.
unfoldable pub accept_client : Server → Arrival → Exec (Server × LoginAt)
unfolding look_up
accept_client s a = elim a.sockfd [
  | none ↦ stop exits
  | some fd ↦
      let opened = record s { open_fds = fd ∷ s.open_fds } in
      if not a.in_time
      then ok (close_fd opened fd, accepting)
      else (if length a.received == 0
          then ok (close_fd opened fd, accepting)
          else look_up opened fd a)
]

-- `clients[sockfd] = new client_ds {8, client}`
unfoldable pub enter : Server → ℕ → Arrival → Server
enter s fd a = record s { clients = insert fd (new_client a) s.clients }

-- `recv`, and what follows if it fails.
unfoldable pub take_event : Server → Event → Server
take_event s e = if e.failed then close_fd (unregister s e.sockfd) e.sockfd else s

-- The rest of a round of the login thread.
unfoldable pub finish_login : Server → LoginAt → Server
finish_login s accepting = s
finish_login s (entering fd a) = add_to_reactor (enter s fd a) fd a.watched
finish_login s (registering fd a) = add_to_reactor s fd a.watched

check_token_parts :
    (s : Server) (fd : ℕ) (a : Arrival)
    → check_token s fd a ≡ (compare_token s fd a >>= λ r. ok (finish_login r.0 r.1))
unfolding check_token compare_token finish_login admit enter
check_token_parts s fd a = ground arith

answer_parts :
    (s : Server) (fd : ℕ) (a : Arrival)
    → answer s fd a ≡ (look_up s fd a >>= λ r. ok (finish_login r.0 r.1))
unfolding answer look_up finish_login
answer_parts s fd a = ground (arith, check_token_parts (record s { sent = ack fd 1 ∷ s.sent }) fd a)

-- With nothing in between, the parts of a round are `do_login`.
do_login_parts :
    (s : Server) (a : Arrival)
    → do_login s a ≡ (accept_client s a >>= λ r. ok (finish_login r.0 r.1))
unfolding do_login serve_arrival accept_client finish_login
do_login_parts s a = elim (Option-cases a.sockfd) [
  | inl no_socket ↦ ground (arith, no_socket)
  | inr (fd, socket) ↦
      ground (arith, socket, answer_parts (record s { open_fds = fd ∷ s.open_fds }) fd a)
]

-- Likewise for an event.
pub dispatch_parts :
    (s : Server) (tq : TaskQueue) (e : Event)
    → dispatch s tq e ≡ route (take_event s e) tq e.sockfd e.msg
unfolding dispatch take_event
dispatch_parts s tq e = refl

-- One part of one handler. `epoll_wait` reports watched sockets only. `gone` are the sockets whose
-- client a heartbeat has removed, and at which no login has entered one since. Behind the removal
-- nothing is promised of the signal handler; `removes` is the case that it ends there without harm, and
-- that the threads go on.
pub data Part (s : Threads) (gone : List ℕ) : Threads → List ℕ → Type 0 where
  accepts :
      (a : Arrival) (t : Server) (at : LoginAt)
      → s.login ≡ accepting
      → accept_client s.server a ≡ ok (t, at)
      → Part s gone (record s { server = t; login = at }) gone
  enters :
      (fd : ℕ) (a : Arrival)
      → s.login ≡ entering fd a
      → Part s gone
          (record s { server = enter s.server fd a; login = registering fd a })
          (drop_fd fd gone)
  registers :
      (fd : ℕ) (a : Arrival)
      → s.login ≡ registering fd a
      → Part s gone
          (record s { server = add_to_reactor s.server fd a.watched; login = accepting })
          gone
  reports :
      (es : List Event)
      → s.events ≡ waiting
      → All (λ e. IsIn e.sockfd s.server.reactor) es
      → Part s gone (record s { events = handling es }) gone
  receives :
      (e : Event) (es : List Event)
      → s.events ≡ handling (e ∷ es)
      → Part s gone (record s { server = take_event s.server e; events = testing e es }) gone
  routes :
      (e : Event) (es : List Event) (t : Server) (tq tq' : TaskQueue)
      → s.events ≡ testing e es
      → route s.server tq e.sockfd e.msg ≡ ok (t, tq')
      → Part s gone (record s { server = t; events = handling es }) gone
  ends : s.events ≡ handling [] → Part s gone (record s { events = waiting }) gone
  beats :
      (t : Server) → heart_beat s.server ≡ returns t → Part s gone (record s { server = t }) gone
  removes :
      (fd : ℕ) (t : Server)
      → (walk s.server.clients).removed ≡ some fd
      → heart_beat s.server ≡ faults dangling t
      → Part s gone (record s { server = t }) (fd ∷ gone)

-- Any interleaving of the parts.
pub data Runs (s : Threads) : Threads → List ℕ → Type 0 where
  at_start : Runs s s []
  after :
      {t u : Threads} {gone gone' : List ℕ} → Runs s t gone → Part t gone u gone' → Runs s u gone'
