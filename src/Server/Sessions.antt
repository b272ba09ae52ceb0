-- ===== src/Server/Sessions.antt =====
-- The handlers of the server in any order: logins, messages and heartbeats as steps.
use mathlib.Core.Path.{subst}
use monitor_system.Base.{
  ℕ, ◌-◌, ◌≡◌, ◌≢◌, refl, sym, All, true, false, List, [], some, arith, ok, stop, null_pointer,
}
use monitor_system.Message.{Msg, has_ack, is_data}
use monitor_system.TaskQueue.{TaskQueue}
use monitor_system.TaskQueue
use monitor_system.TaskQueue.Bounds.{IsValid}
use monitor_system.TaskQueue.Fifo.{put, Holds, push_refines}
use monitor_system.Server.{Server}
use monitor_system.Server.Clients.{Client, lookup, insert, lookup-insert}
use monitor_system.Server.Login.{Arrival, do_login}
use monitor_system.Server.Dispatch.{Event, note_ack, route, dispatch}
use monitor_system.Server.Heartbeat.{returns, heart_beat}
use monitor_system.Server.Registered.{
  Registered, IsIn, IsClient, find-IsClient, do_login-Registered, dispatch-Registered,
  heart_beat-Registered, state_after,
}

-- One run of a handler that goes through. `epoll_wait` reports watched sockets only.
pub data Step (s t : Server) : Type 0 where
  logs_in : (a : Arrival) (fd : ℕ) → a.sockfd ≡ some fd → do_login s a ≡ ok t → Step s t
  receives :
      (e : Event) (tq tq' : TaskQueue)
      → IsIn e.sockfd s.reactor
      → dispatch s tq e ≡ ok (t, tq')
      → Step s t
  beats : heart_beat s ≡ returns t → Step s t

pub data Reach (s : Server) : Server → Type 0 where
  at_start : Reach s s
  after : {t u : Server} → Reach s t → Step t u → Reach s u

Step-Registered : (s t : Server) → Step s t → Registered s → Registered t
Step-Registered s t (logs_in a fd e run) h = do_login-Registered s t a fd e run h
Step-Registered s t (receives e tq tq' i run) h = dispatch-Registered s t tq tq' e run h
Step-Registered s t (beats e) h =
    subst (λ o. Registered (state_after o)) e (heart_beat-Registered s h)

Reach-Registered : {s t : Server} → Reach s t → Registered s → Registered t
Reach-Registered at_start h = h
Reach-Registered {s} (after {t = t} {u = u} r st) h = Step-Registered t u st (Reach-Registered r h)

dispatch-client :
    (s : Server) (tq : TaskQueue) (e : Event)
    → IsClient s.clients e.sockfd
    → dispatch s tq e ≢ stop null_pointer
unfolding dispatch route note_ack TaskQueue.push
dispatch-client s tq e h = ground arith

-- Started with an empty reactor, the server never follows a null pointer for a message on a watched
-- socket, whatever logins, messages and heartbeats went before, and whether or not the `recv` failed.
watched_dispatch_safe :
    (s t : Server) (tq : TaskQueue) (e : Event)
    → s.reactor ≡ []
    → Reach s t
    → IsIn e.sockfd t.reactor
    → dispatch t tq e ≢ stop null_pointer
watched_dispatch_safe s t tq e empty r i =
    dispatch-client t tq e (find-IsClient t.clients e.sockfd t.reactor registered i)
  where
    registered : Registered t
    registered = Reach-Registered r (subst (λ fds. All (IsClient s.clients) fds) (sym empty) tt)

-- An acknowledgement of a client that is in the map sets its count to 5, and changes no other client,
-- no descriptor and not the queue.
dispatch-ack :
    (s : Server) (tq : TaskQueue) (e : Event) (c : Client)
    → e.failed ≡ false
    → has_ack e.msg.type ≡ true
    → lookup e.sockfd s.clients ≡ some c
    → (t : Server) × (dispatch s tq e ≡ ok (t, tq))
      × (lookup e.sockfd t.clients ≡ some (record c { isonline = 5 }))
      × ((k : ℕ) → k ≢ e.sockfd → lookup k t.clients ≡ lookup k s.clients)
      × (t.reactor ≡ s.reactor)
      × (t.open_fds ≡ s.open_fds)
unfolding dispatch route note_ack
dispatch-ack s tq e c fine is_ack found = (
  record s { clients = insert e.sockfd (record c { isonline = 5 }) s.clients },
  ground arith,
  ground (arith, lookup-insert e.sockfd e.sockfd (record c { isonline = 5 }) s.clients),
  (λ k ne. ground (arith, lookup-insert e.sockfd k (record c { isonline = 5 }) s.clients)),
  refl,
  refl,
)

-- A data message goes to the end of the task queue, and a full queue drops it without a word: the
-- server is left as it was either way.
pub dispatch-data :
    (s : Server) (tp : TaskQueue) (q : List Msg) (e : Event)
    → IsValid tp
    → Holds tp q
    → e.failed ≡ false
    → is_data e.msg.type ≡ true
    → (tq : TaskQueue) × (dispatch s tp e ≡ ok (s, tq))
      × Holds tq (put (tp.task_queue_size - 1) q e.msg).1
      × IsValid tq
      × (tq.task_queue_size ≡ tp.task_queue_size)
unfolding dispatch route
dispatch-data s tp q e v h fine is_msg =
    let (tq, pushes, held, valid, same) = push_refines tp q e.msg v h in
    (tq, ground arith, held, valid, same)
