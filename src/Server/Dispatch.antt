-- ===== src/Server/Dispatch.antt =====
-- `do_dispatch`: the messages of one call of `epoll_wait`.
use monitor_system.Base.{
  ℕ, Bool, List, [], ◌∷◌, none, some, if◌then◌else◌, Exec, ok, stop, exits, null_pointer, ◌>>=◌,
  ◌==◌, length,
}
use monitor_system.Message.{Msg, has_ack, is_data}
use monitor_system.TaskQueue
use monitor_system.TaskQueue.{TaskQueue}
use monitor_system.Server.{Server, unregister, close_fd}
use monitor_system.Server.Clients.{insert, lookup}

-- One ready descriptor. `failed` says that `recv` returned 0 or less. `msg` is what the local
-- variable holds after `recv`; it has no initial value, so after a failure it may hold anything.
pub record Event : Type 0 where
  pub sockfd : ℕ
  pub failed : Bool
  pub msg : Msg

-- `clients[sockfd]->…; clients[sockfd]->isonline = 5`. For a missing key `[]` puts a null pointer
-- into the map, and following it ends the program.
unfoldable pub note_ack : Server → ℕ → Exec Server
note_ack s fd = elim (lookup fd s.clients) [
  | none ↦ stop null_pointer
  | some c ↦ ok (record s { clients = insert fd (record c { isonline = 5 }) s.clients })
]

-- The two tests on the type. A refused `push` drops the message.
unfoldable pub route : Server → TaskQueue → ℕ → Msg → Exec (Server × TaskQueue)
unfolding note_ack
route s tq fd msg =
    if has_ack msg.type
    then (note_ack s fd >>= λ t. ok (t, tq))
    else (if is_data msg.type then (TaskQueue.push tq msg >>= λ r. ok (s, r.1)) else ok (s, tq))

-- One turn of the inner loop. After a failed `recv` the socket is dropped, and the turn goes on.
unfoldable pub dispatch : Server → TaskQueue → Event → Exec (Server × TaskQueue)
unfolding route
dispatch s tq e =
    let t = if e.failed then close_fd (unregister s e.sockfd) e.sockfd else s in
    route t tq e.sockfd e.msg

unfoldable pub dispatch_all : Server → TaskQueue → List Event → Exec (Server × TaskQueue)
dispatch_all s tq [] = ok (s, tq)
dispatch_all s tq (e ∷ es) = dispatch s tq e >>= λ r. dispatch_all r.0 r.1 es

-- One turn of the outer loop: `epoll_wait` with no event is an error and ends the process.
unfoldable pub do_dispatch : Server → TaskQueue → List Event → Exec (Server × TaskQueue)
do_dispatch s tq es = if length es == 0 then stop exits else dispatch_all s tq es
