-- ===== src/Server/LockedOut.antt =====
-- A client whose `recv` failed: its entry stays in the map, and what that means for its next logins.
use mathlib.Core.Path.{subst}
use monitor_system.Base.{ℕ, ◌≡◌, ◌≢◌, refl, sym, ap, ◌∙◌, true, some, arith, ok, inl, inr}
use monitor_system.TaskQueue.{TaskQueue}
use monitor_system.TaskQueue
use monitor_system.Server.{Server, drop_fd}
use monitor_system.Server.Clients.{Client, HasAddress, lookup}
use monitor_system.Server.Login.{Arrival, do_login}
use monitor_system.Server.Admission.{Refused, do_login_cases}
use monitor_system.Server.Dispatch.{Event, note_ack, route, dispatch}
use monitor_system.Server.Heartbeat.{returns, heart_beat}
use monitor_system.Server.Threads.{take_event, dispatch_parts}
use monitor_system.Server.Addresses.{
  address, address_at, address-HasAddress, heart_beat-addresses, route-same, take_event-same,
}

dispatch-dropped :
    (s t : Server) (tq tq' : TaskQueue) (e : Event)
    → e.failed ≡ true
    → dispatch s tq e ≡ ok (t, tq')
    → (t.reactor ≡ drop_fd e.sockfd s.reactor) × (t.open_fds ≡ drop_fd e.sockfd s.open_fds)
unfolding dispatch route note_ack TaskQueue.push
dispatch-dropped s t tq tq' e gone run = ground arith

-- An event changes no address.
dispatch-addresses :
    (s t : Server) (tq tq' : TaskQueue) (e : Event) (k : ℕ)
    → dispatch s tq e ≡ ok (t, tq')
    → address_at t.clients k ≡ address_at s.clients k
dispatch-addresses s t tq tq' e k run =
    (route-same (take_event s e) t tq tq' e (sym (dispatch_parts s tq e) ∙ run)).0 k
    ∙ ap (λ m. address_at m k) (take_event-same s e).0

-- A login at another socket leaves the address of this one.
do_login-addresses :
    (s t : Server) (a : Arrival) (fd k : ℕ)
    → a.sockfd ≡ some fd
    → fd ≢ k
    → do_login s a ≡ ok t
    → address_at t.clients k ≡ address_at s.clients k
do_login-addresses s t a fd k socket other run = elim (do_login_cases s t a fd socket run) [
  | inl refused ↦ ap (λ m. address_at m k) refused.clients
  | inr admitted ↦ ap address (ground (arith, admitted.entry k, other))
]

-- What may come between: logins at other sockets than `k`, events of any kind, and heartbeats that
-- return, in any order and number.
pub data Meanwhile (k : ℕ) (s : Server) : Server → Type 0 where
  at_once : Meanwhile k s s
  then_login :
      {t : Server} (u : Server) (a : Arrival) (fd : ℕ)
      → Meanwhile k s t
      → a.sockfd ≡ some fd
      → fd ≢ k
      → do_login t a ≡ ok u
      → Meanwhile k s u
  then_event :
      {t : Server} (u : Server) (e : Event) (tq tq' : TaskQueue)
      → Meanwhile k s t
      → dispatch t tq e ≡ ok (u, tq')
      → Meanwhile k s u
  then_beat :
      {t : Server} (u : Server) → Meanwhile k s t → heart_beat t ≡ returns u → Meanwhile k s u

Meanwhile-addresses :
    {k : ℕ} {s t : Server} → Meanwhile k s t → address_at t.clients k ≡ address_at s.clients k
Meanwhile-addresses at_once = refl
Meanwhile-addresses {k} (then_login {t} u a fd m socket other run) =
    do_login-addresses t u a fd k socket other run ∙ Meanwhile-addresses m
Meanwhile-addresses {k} (then_event {t} u e tq tq' m run) =
    dispatch-addresses t u tq tq' e k run ∙ Meanwhile-addresses m
Meanwhile-addresses {k} (then_beat {t} u m run) =
    heart_beat-addresses t u k run ∙ Meanwhile-addresses m

-- A socket whose `recv` fails leaves the reactor and is closed, but its client stays in the map. For as
-- long as no login gets the number of that socket and every heartbeat returns, so that none removes the
-- client, whatever other logins, messages and failures come in between, each login from its address
-- that goes through is refused, however good its token is.
pub dropped_client_locked_out :
    (s t u v : Server) (tq tq' : TaskQueue) (e : Event) (c : Client) (a : Arrival) (fd : ℕ)
    → e.failed ≡ true
    → lookup e.sockfd s.clients ≡ some c
    → dispatch s tq e ≡ ok (t, tq')
    → Meanwhile e.sockfd t u
    → a.sockfd ≡ some fd
    → a.s_addr ≡ c.s_addr
    → do_login u a ≡ ok v
    → (t.reactor ≡ drop_fd e.sockfd s.reactor)
      × (t.open_fds ≡ drop_fd e.sockfd s.open_fds)
      × Refused u fd v
dropped_client_locked_out s t u v tq tq' e c a fd gone found run between acc same logged =
    let there : address_at u.clients e.sockfd ≡ some c.s_addr =
      Meanwhile-addresses between
      ∙ dispatch-addresses s t tq tq' e e.sockfd run
      ∙ ap address found in
    (
      (dispatch-dropped s t tq tq' e gone run).0,
      (dispatch-dropped s t tq tq' e gone run).1,
      elim (do_login_cases u v a fd acc logged) [
        | inl refused ↦ refused
        | inr admitted ↦ absurd (
            admitted.new_address (
              subst (λ n. HasAddress n u.clients) (sym same)
                (address-HasAddress u.clients e.sockfd c.s_addr there)))
      ],
    )
