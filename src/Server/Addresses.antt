-- ===== src/Server/Addresses.antt =====
-- The addresses of the clients in the map, and which parts of the handlers change them.
use mathlib.Core.Path.{subst}
use monitor_system.Base.{
  ℕ, ◌≡◌, ◌≢◌, refl, Bool, true, false, [], ◌∷◌, Option, none, some, Option-cases, Bool-cases, inl,
  inr, arith, All, ok, dangling, ltb, ◌-◌, ◌<◌, ◌==◌, if◌then◌else◌,
}
use monitor_system.Message.{has_ack}
use monitor_system.TaskQueue.{TaskQueue}
use monitor_system.TaskQueue
use monitor_system.Server.{Server, drop_fd}
use monitor_system.Server.Clients.{
  Client, ClientMap, HasAddress, HasAddress-lookup, lookup, insert, lookup-insert, check_online,
  check_online_complete, Ascending, lookup-below, insert-Ascending,
}
use monitor_system.Server.Login.{Arrival, new_client, add_to_reactor}
use monitor_system.Server.Dispatch.{Event, note_ack, route}
use monitor_system.Server.Heartbeat.{returns, faults, heart_beat, walk}
use monitor_system.Server.Registered.{All-drop_fd}
use monitor_system.Server.Threads.{take_event}

abbrev pub address : Option Client → Option ℕ
address none = none
address (some c) = some c.s_addr

abbrev pub address_at : ClientMap → ℕ → Option ℕ
address_at m k = address (lookup k m)

pub address-HasAddress : (m : ClientMap) (k a : ℕ) → address_at m k ≡ some a → HasAddress a m
address-HasAddress m k a e = elim (Option-cases (lookup k m)) [
  | inl missing ↦ absurd (ground (arith, e, missing))
  | inr (c, found) ↦
      let same : c.s_addr ≡ a = ground (arith, e, found) in
      subst (λ x. HasAddress x m) same (HasAddress-lookup k c m found)
]

walk-addresses :
    (m : ClientMap) (k : ℕ)
    → (walk m).removed ≡ none
    → address_at (walk m).clients k ≡ address_at m k
unfolding walk lookup
walk-addresses [] k whole = refl
walk-addresses ((fd, c) ∷ m) k whole = ground (arith, walk-addresses m k, whole)

pub heart_beat-addresses :
    (s t : Server) (k : ℕ)
    → heart_beat s ≡ returns t
    → address_at t.clients k ≡ address_at s.clients k
unfolding heart_beat
heart_beat-addresses s t k e = elim (Option-cases (walk s.clients).removed) [
  | inl whole ↦ ground (arith, e, whole, walk-addresses s.clients k whole)
  | inr (fd, removed) ↦ absurd (ground (arith, e, removed))
]

-- What the walk leaves of a map whose keys lie above `n`.
walk-above : (n : ℕ) (m : ClientMap) → All (λ e. n < e.0) m → All (λ e. n < e.0) (walk m).clients
unfolding walk
walk-above n [] h = tt
walk-above n ((k, c) ∷ m) (lt, h) = elim (Bool-cases (ltb 0 c.isonline)) [
  | inr away ↦ rw away (lt, walk-above n m h)
  | inl here ↦ elim (Bool-cases (c.isonline - 1 == 0)) [
    | inl last ↦ rw (here, last) h
    | inr still ↦ rw (here, still) (lt, walk-above n m h)
  ]
]

pub walk-Ascending : (m : ClientMap) → Ascending m → Ascending (walk m).clients
unfolding walk
walk-Ascending [] up = tt
walk-Ascending ((k, c) ∷ m) (above, up) = elim (Bool-cases (ltb 0 c.isonline)) [
  | inr away ↦ rw away (walk-above k m above, walk-Ascending m up)
  | inl here ↦ elim (Bool-cases (c.isonline - 1 == 0)) [
    | inl last ↦ rw (here, last) up
    | inr still ↦ rw (here, still) (walk-above k m above, walk-Ascending m up)
  ]
]

-- The client that a walk removes was in the map.
walk-member :
    (n : ℕ) (m : ClientMap) (fd : ℕ) → All (λ e. n < e.0) m → (walk m).removed ≡ some fd → n < fd
unfolding walk
walk-member n [] fd h e = absurd (cc e)
walk-member n ((k, c) ∷ m) fd (lt, h) e = elim (Bool-cases (ltb 0 c.isonline)) [
  | inr away ↦ walk-member n m fd h (rw away at e)
  | inl here ↦ elim (Bool-cases (c.isonline - 1 == 0)) [
    | inl last ↦ let same : some k ≡ some fd = rw (here, last) at e in ground (arith, same, lt)
    | inr still ↦ walk-member n m fd h (rw (here, still) at e)
  ]
]

-- A walk that removes a client takes its address away and leaves the others.
pub walk-removed :
    (m : ClientMap) (fd k : ℕ)
    → Ascending m
    → (walk m).removed ≡ some fd
    → address_at (walk m).clients k ≡ (if fd == k then none else address_at m k)
unfolding walk lookup
walk-removed [] fd k up e = absurd (cc e)
walk-removed ((j, c) ∷ m) fd k (above, up) e = elim (Bool-cases (ltb 0 c.isonline)) [
  | inr away ↦
      let rest : (walk m).removed ≡ some fd = rw away at e in
      ground (arith, away, walk-removed m fd k up rest, walk-member j m fd above rest)
  | inl here ↦ elim (Bool-cases (c.isonline - 1 == 0)) [
    | inl last ↦
        let same : some j ≡ some fd = rw (here, last) at e in
        ground (arith, same, here, last, lookup-below j m above)
    | inr still ↦
        let rest : (walk m).removed ≡ some fd = rw (here, still) at e in
        ground (arith, here, still, walk-removed m fd k up rest, walk-member j m fd above rest)
  ]
]

-- A heartbeat that removes a client, and what it leaves.
pub heart_beat-removed :
    (s t : Server) (fd : ℕ)
    → (walk s.clients).removed ≡ some fd
    → heart_beat s ≡ faults dangling t
    → (t.clients ≡ (walk s.clients).clients) × (t.reactor ≡ drop_fd fd s.reactor)
unfolding heart_beat
heart_beat-removed s t fd gone e = (ground (arith, e, gone), ground (arith, e, gone))

pub heart_beat-Ascending :
    (s t : Server) → heart_beat s ≡ returns t → Ascending s.clients → Ascending t.clients
unfolding heart_beat
heart_beat-Ascending s t e up = elim (Option-cases (walk s.clients).removed) [
  | inl whole ↦
      let same : (walk s.clients).clients ≡ t.clients = ground (arith, e, whole) in
      subst Ascending same (walk-Ascending s.clients up)
  | inr (fd, removed) ↦ absurd (ground (arith, e, removed))
]

pub not_there :
    (m : ClientMap) (a : ℕ) → check_online a m ≡ false → (k : ℕ) → address_at m k ≢ some a
not_there m a fresh k e = cc (check_online_complete (address-HasAddress m k a e), fresh)

pub entered_at :
    (m : ClientMap) (fd : ℕ) (a : Arrival) (k : ℕ)
    → address_at (insert fd (new_client a) m) k
      ≡ (if fd == k then some a.s_addr else address_at m k)
entered_at m fd a k = ground (arith, lookup-insert fd k (new_client a) m)

-- The tests on the type change no address and not the reactor.
pub route-same :
    (s t : Server) (tq tq' : TaskQueue) (e : Event)
    → route s tq e.sockfd e.msg ≡ ok (t, tq')
    → ((k : ℕ) → address_at t.clients k ≡ address_at s.clients k)
      × (t.reactor ≡ s.reactor)
      × (Ascending s.clients → Ascending t.clients)
unfolding route note_ack TaskQueue.push
route-same s t tq tq' e run = elim (Option-cases (lookup e.sockfd s.clients)) [
  | inl missing ↦ (
    (λ k. ground (arith, run, missing)),
    ground (arith, run, missing),
    λ up. subst Ascending (ground (arith, run, missing)) up,
  )
  | inr (c, found) ↦ (
    (λ k.
        ground (arith, run, found, lookup-insert e.sockfd k (record c { isonline = 5 }) s.clients)),
    ground (arith, run, found),
    (λ up. elim (Bool-cases (has_ack e.msg.type)) [
      | inl is_ack ↦
          let same : insert e.sockfd (record c { isonline = 5 }) s.clients ≡ t.clients =
            ground (arith, run, found, is_ack) in
          subst Ascending same (insert-Ascending e.sockfd (record c { isonline = 5 }) s.clients up)
      | inr other ↦
          let same : s.clients ≡ t.clients = ground (arith, run, found, other) in
          subst Ascending same up
    ]),
  )
]

pub beat-reactor : (s t : Server) → heart_beat s ≡ returns t → t.reactor ≡ s.reactor
unfolding heart_beat
beat-reactor s t e = elim (Option-cases (walk s.clients).removed) [
  | inl whole ↦ ground (arith, e, whole)
  | inr (fd, removed) ↦ absurd (ground (arith, e, removed))
]

pub take_event-same :
    (s : Server) (e : Event)
    → ((take_event s e).clients ≡ s.clients)
      × ((P : ℕ → Type 0) → All P s.reactor → All P (take_event s e).reactor)
unfolding take_event
take_event-same s e = elim (Bool-cases e.failed) [
  | inl gone ↦ (ground (arith, gone), λ P h. rw gone (All-drop_fd P e.sockfd s.reactor h))
  | inr fine ↦ (ground (arith, fine), λ P h. rw fine h)
]

pub add_to_reactor-same :
    (s : Server) (fd : ℕ) (watched : Bool)
    → ((add_to_reactor s fd watched).clients ≡ s.clients)
      × ((P : ℕ → Type 0) → P fd → All P s.reactor → All P (add_to_reactor s fd watched).reactor)
unfolding add_to_reactor
add_to_reactor-same s fd true = (refl, λ P here h. (here, h))
add_to_reactor-same s fd false = (refl, λ P here h. h)
