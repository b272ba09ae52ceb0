-- ===== src/Startup/Answers.antt =====
-- The server's heartbeats against the client's answers.
use monitor_system.Base.{
  ℕ, zero, suc, ◌-◌, ◌<◌, ◌≡◌, refl, sym, ap, ◌∙◌, false, List, [], ◌∷◌, ◌++◌, append_assoc, map,
  Option, none, some, arith, All, ok, ◌>>=◌,
}
use monitor_system.Message.{Msg, pi_heart, pi_ack}
use monitor_system.TaskQueue.{TaskQueue}
use monitor_system.Server.{Server}
use monitor_system.Server.Clients.{Client, ClientMap, lookup, insert, Ascending}
use monitor_system.Server.Dispatch.{Event, note_ack, route, dispatch, dispatch_all}
use monitor_system.Server.Heartbeat.{
  heart_beat, returns, heart_beat_returns, SafeEntry, MoreThan, weaken_all, online, keys, log_beats,
}
use monitor_system.Startup.ClientMain.{answer_heart}

-- What the server receives from the client at `fd`, which answers the message `msg`.
abbrev pub reply_event : ℕ → Option Msg → List Event
reply_event fd none = []
reply_event fd (some msg) = record { sockfd = fd; failed = false; msg = msg } ∷ []

-- The answers of the clients at these sockets to one heartbeat each.
unfoldable pub replies : List ℕ → List ℕ → List Event
unfolding answer_heart
replies buff [] = []
replies buff (fd ∷ fds) =
    reply_event fd (answer_heart (record { type = pi_heart; buff = buff })) ++ replies buff fds

abbrev pub refreshed : ClientMap → ClientMap
refreshed = map λ e. (e.0, record (e.1) { isonline = 5 })

lookup-behind :
    (p r : ClientMap) (k : ℕ) (c : Client)
    → All (λ e. e.0 < k) p
    → lookup k (p ++ ((k, c) ∷ r)) ≡ some c
unfolding lookup
lookup-behind [] r k c h = ground arith
lookup-behind ((j, d) ∷ p) r k c h = ground (arith, lookup-behind p r k c h.1)

insert-behind :
    (p r : ClientMap) (k : ℕ) (c d : Client)
    → All (λ e. e.0 < k) p
    → insert k d (p ++ ((k, c) ∷ r)) ≡ p ++ ((k, d) ∷ r)
unfolding insert
insert-behind [] r k c d h = ground arith
insert-behind ((j, b) ∷ p) r k c d h = ground (arith, insert-behind p r k c d h.1)

-- The answer of one client.
dispatch-reply :
    (s : Server) (tq : TaskQueue) (p r : ClientMap) (k : ℕ) (c : Client) (buff : List ℕ)
    → s.clients ≡ p ++ ((k, c) ∷ r)
    → All (λ e. e.0 < k) p
    → dispatch s tq
        (record { sockfd = k; failed = false; msg = record { type = pi_ack; buff = buff } })
      ≡ ok (record s { clients = p ++ ((k, record c { isonline = 5 }) ∷ r) }, tq)
unfolding dispatch route note_ack
dispatch-reply s tq p r k c buff at below =
    let found : lookup k s.clients ≡ some c = ap (lookup k) at ∙ lookup-behind p r k c below in
    let put =
      ap (insert k (record c { isonline = 5 })) at
      ∙ insert-behind p r k c (record c { isonline = 5 }) below in
    ground (arith, found, put)

-- All keys of the first part lie below those of the second.
abbrev Below : ClientMap → ClientMap → Type 0
Below p r = All (λ e. All (λ f. f.0 < e.0) p) r

All-snoc :
    (n : ℕ) (p : ClientMap) (x : ℕ × Client)
    → All (λ f. f.0 < n) p
    → x.0 < n
    → All (λ f. f.0 < n) (p ++ (x ∷ []))
All-snoc n [] x h lt = (lt, tt)
All-snoc n (e ∷ p) x h lt = (h.0, All-snoc n p x h.1 lt)

Below-snoc :
    (p r : ClientMap) (x : ℕ × Client)
    → Below p r
    → All (λ e. x.0 < e.0) r
    → Below (p ++ (x ∷ [])) r
Below-snoc p [] x h up = tt
Below-snoc p (e ∷ r) x h up = (All-snoc e.0 p x h.0 up.0, Below-snoc p r x h.1 up.1)

Below-nil : (r : ClientMap) → Below [] r
Below-nil [] = tt
Below-nil (e ∷ r) = (tt, Below-nil r)

-- The answers of all clients behind the first part of the map.
dispatch_all-replies :
    (r p : ClientMap) (s : Server) (tq : TaskQueue) (buff : List ℕ)
    → s.clients ≡ p ++ r
    → Below p r
    → Ascending r
    → dispatch_all s tq (replies buff (keys r)) ≡ ok (record s { clients = p ++ refreshed r }, tq)
unfolding dispatch_all replies answer_heart
dispatch_all-replies [] p s tq buff at below up = ap (λ m. ok (record s { clients = m }, tq)) at
dispatch_all-replies ((k, c) ∷ r) p s tq buff at below up =
    let x : ℕ × Client = (k, record c { isonline = 5 }) in
    let u = record s { clients = p ++ (x ∷ r) } in
    ap (λ o. o >>= λ q. dispatch_all q.0 q.1 (replies buff (keys r)))
      (dispatch-reply s tq p r k c buff at below.0)
    ∙ dispatch_all-replies r (p ++ (x ∷ [])) u tq buff (sym (append_assoc p (x ∷ []) r))
        (Below-snoc p r x below.1 up.0) up.1
    ∙ ap (λ m. ok (record s { clients = m }, tq)) (append_assoc p (x ∷ []) (refreshed r))

All-SafeEntry : (m : ClientMap) → MoreThan 1 m → All SafeEntry m
All-SafeEntry [] h = tt
All-SafeEntry (e ∷ m) h = ((λ last. omega (arith, h.0)), All-SafeEntry m h.1)

online-keys : (m : ClientMap) → MoreThan 1 m → online m ≡ keys (weaken_all 1 m)
unfolding online
online-keys [] h = refl
online-keys ((k, c) ∷ m) h = ground (arith, online-keys m h.1)

All-above :
    (f : Client → Client) (n : ℕ) (m : ClientMap)
    → All (λ e. n < e.0) m
    → All {A = ℕ × Client} (λ e. n < e.0) (map {A = ℕ × Client} (λ e. (e.0, f e.1)) m)
All-above f n [] h = tt
All-above f n (e ∷ m) h = (h.0, All-above f n m h.1)

Ascending-map :
    (f : Client → Client) (m : ClientMap)
    → Ascending m
    → Ascending (map {A = ℕ × Client} (λ e. (e.0, f e.1)) m)
Ascending-map f [] h = tt
Ascending-map f ((k, c) ∷ m) h = (All-above f k m h.0, Ascending-map f m h.1)

refreshed-weaken_all : (m : ClientMap) → refreshed (weaken_all 1 m) ≡ refreshed m
refreshed-weaken_all [] = refl
refreshed-weaken_all (e ∷ m) =
    ap (λ r. (e.0, record (e.1) { isonline = 5 }) ∷ r) (refreshed-weaken_all m)

MoreThan-refreshed : (m : ClientMap) → MoreThan 1 (refreshed m)
MoreThan-refreshed [] = tt
MoreThan-refreshed (e ∷ m) = (omega arith, MoreThan-refreshed m)

-- `n` heartbeats, each answered by every client that it is sent to before the next one.
abbrev pub Lives : ℕ → List ℕ → TaskQueue → Server → Type 0
Lives zero buff tq s = Unit
Lives (suc n) buff tq s =
    (t u : Server) × (heart_beat s ≡ returns t)
    × (dispatch_all t tq (replies buff (online s.clients)) ≡ ok (u, tq))
    × (u.clients ≡ refreshed s.clients)
    × (u.reactor ≡ s.reactor)
    × (u.open_fds ≡ s.open_fds)
    × Lives n buff tq u

-- Clients of a map in order, with two heartbeats left at least, that answer every heartbeat as the
-- client program does stay: however many heartbeats there are, none of them faults, none of the
-- answers is refused, and no client is removed, unregistered or closed. Each answer sets its client
-- back to 5, and no message is queued for it.
pub answering_clients_stay :
    (n : ℕ) (buff : List ℕ) (tq : TaskQueue) (s : Server)
    → Ascending s.clients
    → MoreThan 1 s.clients
    → Lives n buff tq s
answering_clients_stay zero buff tq s up more = tt
answering_clients_stay (suc n) buff tq s up more =
    let m = weaken_all 1 s.clients in
    let t = record s { clients = m; sent = log_beats (online s.clients) s.sent } in
    let u = record t { clients = refreshed s.clients } in
    (
      t,
      u,
      heart_beat_returns s (All-SafeEntry s.clients more),
      ap (λ fds. dispatch_all t tq (replies buff fds)) (online-keys s.clients more)
          ∙ dispatch_all-replies m [] t tq buff refl (Below-nil m)
              (Ascending-map (λ c. record c { isonline = c.isonline - 1 }) s.clients up)
          ∙ ap (λ r. ok (record t { clients = r }, tq)) (refreshed-weaken_all s.clients),
      refl,
      refl,
      refl,
      answering_clients_stay n buff tq u
          (Ascending-map (λ c. record c { isonline = 5 }) s.clients up)
          (MoreThan-refreshed s.clients),
    )
