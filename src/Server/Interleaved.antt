-- ===== src/Server/Interleaved.antt =====
-- The client map and the reactor under every interleaving of the handlers' parts.
use mathlib.Core.Path.{subst}
use monitor_system.Base.{
  ℕ, ◌≡◌, ◌≢◌, sym, ap, ◌∙◌, List, [], ◌∷◌, none, some, Option-cases, inl, inr, arith, All, stop,
  null_pointer, dangling, true,
}
use monitor_system.TaskQueue.{TaskQueue}
use monitor_system.TaskQueue
use monitor_system.Server.{Server}
use monitor_system.Server.Clients.{Client, ClientMap, lookup, Ascending}
use monitor_system.Server.Dispatch.{Event, note_ack, route}
use monitor_system.Message.{has_ack}
use monitor_system.Server.Heartbeat.{faults, walk, heart_beat}
use monitor_system.Server.Registered.{IsIn}
use monitor_system.Server.Threads.{removes, accepting, waiting, testing, Threads, Runs, after}
use monitor_system.Server.Addresses.{address, address_at, walk-removed, heart_beat-removed}
use monitor_system.Server.Sound.{IsKnown, Relies, left, IsSafe}
use monitor_system.Server.Safe.{Runs-IsSafe}

-- The server as it starts: no client, nothing watched, and both threads at the top of their loops.
pub record IsFresh (s : Threads) : Type 0 where
  pub no_clients : s.server.clients ≡ []
  pub no_sockets : s.server.reactor ≡ []
  pub at_accept : s.login ≡ accepting
  pub at_wait : s.events ≡ waiting

no_address : (m : ClientMap) → m ≡ [] → (k a : ℕ) → address_at m k ≢ some a
unfolding lookup
no_address m none_yet k a e = absurd (ground (arith, none_yet, e))

IsFresh-IsSafe : (s : Threads) → IsFresh s → IsSafe s []
IsFresh-IsSafe s f = record {
  ordered = subst Ascending (sym f.no_clients) tt;
  sound = record {
    registered = subst (All (IsKnown (address_at s.server.clients) [])) (sym f.no_sockets) tt;
    sole = λ j k a hj hk. absurd (no_address s.server.clients f.no_clients j a hj);
    relies = subst (Relies (address_at s.server.clients) []) (sym f.at_accept) tt;
    known =
        subst (λ v. All (λ e. IsKnown (address_at s.server.clients) [] e.sockfd) (left v))
          (sym f.at_wait) tt;
  };
}

route-known :
    (s : Server) (tq : TaskQueue) (e : Event)
    → address_at s.clients e.sockfd ≢ none
    → route s tq e.sockfd e.msg ≢ stop null_pointer
unfolding route note_ack TaskQueue.push
route-known s tq e known = elim (Option-cases (lookup e.sockfd s.clients)) [
  | inl missing ↦ absurd (known (ap address missing))
  | inr (c, found) ↦ λ fault. absurd (ground (arith, fault, found))
]

route-unknown :
    (s : Server) (tq : TaskQueue) (e : Event)
    → has_ack e.msg.type ≡ true
    → address_at s.clients e.sockfd ≡ none
    → route s tq e.sockfd e.msg ≡ stop null_pointer
unfolding route note_ack
route-unknown s tq e is_ack unknown = elim (Option-cases (lookup e.sockfd s.clients)) [
  | inl missing ↦ ground (arith, is_ack, missing)
  | inr (c, found) ↦ absurd (ground (arith, unknown, found))
]

-- However the parts of the login thread, the dispatcher and the signal handler interleave from the
-- start on, and whichever watched sockets each `epoll_wait` reports, the tests on the type of a message
-- follow the null pointer of a client that is not in the map only where a heartbeat has removed the
-- client of that socket and no login has entered one there since: for every other socket they never do.
-- A heartbeat that removes a client is taken to leave the threads running.
pub interleaved_dispatch_safe :
    (s t : Threads) (gone : List ℕ) (e : Event) (es : List Event) (tq : TaskQueue)
    → IsFresh s
    → Runs s t gone
    → t.events ≡ testing e es
    → ¬ IsIn e.sockfd gone
    → route t.server tq e.sockfd e.msg ≢ stop null_pointer
interleaved_dispatch_safe s t gone e es tq fresh runs place stays =
    let safe = Runs-IsSafe runs (IsFresh-IsSafe s fresh) in
    let known =
      subst (λ v. All (λ x. IsKnown (address_at t.server.clients) gone x.sockfd) (left v)) place
        safe.sound.known in
    route-known t.server tq e (λ missing. stays (known.0 missing))

-- Such an interleaving crashes the server: if, at any point of a run from the start on where the
-- dispatcher has received an acknowledgement and not yet tested it, a heartbeat removes the client that
-- it came from, then the run goes on to the tests, and they follow the null pointer of that client. A
-- heartbeat that removes a client is taken to leave the threads running.
pub removed_client_crashes :
    (s t : Threads) (gone : List ℕ) (e : Event) (es : List Event) (u : Server) (tq : TaskQueue)
    → IsFresh s
    → Runs s t gone
    → t.events ≡ testing e es
    → has_ack e.msg.type ≡ true
    → (walk t.server.clients).removed ≡ some e.sockfd
    → heart_beat t.server ≡ faults dangling u
    → Runs s (record t { server = u }) (e.sockfd ∷ gone)
      × (route u tq e.sockfd e.msg ≡ stop null_pointer)
removed_client_crashes s t gone e es u tq fresh runs place is_ack removed run =
    let safe = Runs-IsSafe runs (IsFresh-IsSafe s fresh) in
    let (clients, reactor) = heart_beat-removed t.server u e.sockfd removed run in
    let left_out =
      ap (λ m. address_at m e.sockfd) clients
      ∙ walk-removed t.server.clients e.sockfd e.sockfd safe.ordered removed in
    (
      after runs (removes e.sockfd u removed run),
      route-unknown u tq e is_ack (ground (arith, left_out)),
    )

-- In every such interleaving two clients of the map never have the same address, although the login
-- thread enters a client some time after it has looked for the address, and heartbeats remove clients.
pub one_client_for_address :
    (s t : Threads) (gone : List ℕ) (j k : ℕ) (c d : Client)
    → IsFresh s
    → Runs s t gone
    → lookup j t.server.clients ≡ some c
    → lookup k t.server.clients ≡ some d
    → j ≢ k
    → c.s_addr ≢ d.s_addr
one_client_for_address s t gone j k c d fresh runs first second apart same =
    let safe = Runs-IsSafe runs (IsFresh-IsSafe s fresh) in
    apart (safe.sound.sole j k c.s_addr (ap address first) (ap address second ∙ ap some (sym same)))
