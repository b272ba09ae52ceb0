-- ===== src/Server/Heartbeat.antt =====
-- `heart_beat`: one heartbeat to every client, and the removal of those that did not answer.
use mathlib.Core.Path.{subst}
use monitor_system.Base.{
  ℕ, zero, suc, ◌+◌, ◌-◌, ◌<◌, ◌≡◌, ◌∙◌, ap, sym, refl, map-append, List, [], ◌∷◌, ◌++◌, map,
  Option, none, some, arith, ltb, ◌==◌, if◌then◌else◌, All, Stop, dangling,
}
use monitor_system.Server.{Server, Output, heart, unregister, close_fd, drop_fd}
use monitor_system.Server.Clients.{Client, ClientMap}

-- What one walk over `clients` does: the map after it, the descriptors that a heartbeat was sent to,
-- in order, and the client whose removal ended the walk. The element is removed with `erase` while
-- the range-for stands on it, and printed after `delete`: nothing is promised from there on, so the
-- walk stops there, with what comes behind untouched.
pub record Walk : Type 0 where
  pub clients : ClientMap
  pub beaten : List ℕ
  pub removed : Option ℕ

-- `client.second->isonline--`
abbrev pub weaken : Client → Client
weaken c = record c { isonline = c.isonline - 1 }

unfoldable pub walk : ClientMap → Walk
walk [] = record { clients = []; beaten = []; removed = none }
walk ((fd, c) ∷ m) =
    let rest = walk m in
    if ltb 0 c.isonline
    then (if c.isonline - 1 == 0
        then record { clients = m; beaten = fd ∷ []; removed = some fd }
        else record rest { clients = (fd, weaken c) ∷ rest.clients; beaten = fd ∷ rest.beaten })
    else record rest { clients = (fd, c) ∷ rest.clients }

-- How a run of the handler ends, with the state that it leaves.
pub data Handled : Type 0 where
  returns : Server → Handled
  faults : Stop → Server → Handled

abbrev pub log_beats : List ℕ → List Output → List Output
log_beats [] out = out
log_beats (fd ∷ fds) out = log_beats fds (heart fd ∷ out)

after_walk : Server → Walk → Option ℕ → Handled
after_walk s w none = returns (record s { clients = w.clients; sent = log_beats w.beaten s.sent })
after_walk s w (some fd) = faults dangling (
    close_fd (unregister (record s { clients = w.clients; sent = log_beats w.beaten s.sent }) fd)
      fd)

abbrev finish : Server → Walk → Handled
finish s w = after_walk s w w.removed

unfoldable pub heart_beat : Server → Handled
unfolding after_walk
heart_beat s = finish s (walk s.clients)

-- A client that this heartbeat removes: its count is 1.
abbrev pub IsLast : ℕ × Client → Type 0
IsLast e = e.1.isonline ≡ 1

-- Every client of the map has more than `n` heartbeats left.
abbrev pub MoreThan : ℕ → ClientMap → Type 0
MoreThan n = All λ e. n < e.1.isonline

-- The map with `n` taken off every count.
abbrev pub weaken_all : ℕ → ClientMap → ClientMap
weaken_all n = map λ e. (e.0, record (e.1) { isonline = e.1.isonline - n })

abbrev pub keys : ClientMap → List ℕ
keys = map λ e. e.0

-- The clients that a heartbeat is sent to.
unfoldable pub online : ClientMap → List ℕ
online [] = []
online ((fd, c) ∷ m) = let rest = online m in if ltb 0 c.isonline then fd ∷ rest else rest

abbrev pub SafeEntry : ℕ × Client → Type 0
SafeEntry e = ¬ IsLast e

walk-safe :
    (m : ClientMap)
    → All SafeEntry m
    → walk m ≡ record { clients = weaken_all 1 m; beaten = online m; removed = none }
unfolding walk online
walk-safe [] h = refl
walk-safe ((fd, c) ∷ m) h = ground (arith, walk-safe m h.1)

walk-last :
    (m rest : ClientMap) (fd : ℕ) (c : Client)
    → All SafeEntry m
    → c.isonline ≡ 1
    → walk (m ++ ((fd, c) ∷ rest)) ≡ record {
      clients = weaken_all 1 m ++ rest;
      beaten = online m ++ (fd ∷ []);
      removed = some fd;
    }
unfolding walk online
walk-last [] rest fd c h e = ground arith
walk-last ((k, d) ∷ m) rest fd c h e = ground (arith, walk-last m rest fd c h.1 e)

-- If no client is at its last heartbeat, the handler returns: every count goes down by one (a count
-- of 0 stays), exactly the clients above 0 are sent a heartbeat, in the map's order, and no socket
-- is touched.
pub heart_beat_returns :
    (s : Server)
    → All SafeEntry s.clients
    → heart_beat s
      ≡ returns (record s {
        clients = weaken_all 1 s.clients;
        sent = log_beats (online s.clients) s.sent;
      })
unfolding heart_beat
heart_beat_returns s h = ap (finish s) (walk-safe s.clients h)

-- The first client at its last heartbeat is sent it, taken out of the map and the reactor, and
-- closed; then the handler uses what it freed. The clients behind it get no heartbeat.
heart_beat_removes :
    (s : Server) (m rest : ClientMap) (fd : ℕ) (c : Client)
    → s.clients ≡ m ++ ((fd, c) ∷ rest)
    → All SafeEntry m
    → c.isonline ≡ 1
    → heart_beat s
      ≡ faults dangling (record s {
        clients = weaken_all 1 m ++ rest;
        reactor = drop_fd fd s.reactor;
        open_fds = drop_fd fd s.open_fds;
        sent = log_beats (online m ++ (fd ∷ [])) s.sent;
      })
unfolding heart_beat
heart_beat_removes s m rest fd c e h last = ap (finish s) (ap walk e ∙ walk-last m rest fd c h last)

-- `n` heartbeats in a row while no message comes in.
pub rounds : ℕ → Server → Handled
rounds zero s = returns s
rounds (suc n) s = elim (heart_beat s) [ returns t ↦ rounds n t | faults e t ↦ faults e t ]

weaken_all-weaken_all :
    (j k : ℕ) (m : ClientMap) → weaken_all j (weaken_all k m) ≡ weaken_all (k + j) m
weaken_all-weaken_all j k [] = refl
weaken_all-weaken_all j k ((fd, c) ∷ m) = ground (arith, weaken_all-weaken_all j k m)

MoreThan-SafeEntry : (n : ℕ) (m : ClientMap) → MoreThan (suc n) m → All SafeEntry m
MoreThan-SafeEntry n [] h = tt
MoreThan-SafeEntry n (e ∷ m) h = (λ last. omega arith, MoreThan-SafeEntry n m h.1)

MoreThan-weaken : (n : ℕ) (m : ClientMap) → MoreThan (suc n) m → MoreThan n (weaken_all 1 m)
MoreThan-weaken n [] h = tt
MoreThan-weaken n (e ∷ m) h = (omega arith, MoreThan-weaken n m h.1)

-- What a number of quiet heartbeats leaves alone.
pub record Quiet (n : ℕ) (s t : Server) : Type 0 where
  pub token : t.token ≡ s.token
  pub clients : t.clients ≡ weaken_all n s.clients
  pub reactor : t.reactor ≡ s.reactor
  pub open_fds : t.open_fds ≡ s.open_fds

weaken_all-zero : (m : ClientMap) → weaken_all 0 m ≡ m
weaken_all-zero [] = refl
weaken_all-zero ((fd, c) ∷ m) = ground (arith, weaken_all-zero m)

rounds-Quiet :
    (n : ℕ) (s : Server)
    → MoreThan n s.clients
    → (t : Server) × (rounds n s ≡ returns t) × Quiet n s t
unfolding rounds
rounds-Quiet zero s h = (
  s,
  refl,
  record {
    token = refl;
    clients = sym (weaken_all-zero s.clients);
    reactor = refl;
    open_fds = refl;
  },
)
rounds-Quiet (suc n) s h =
    let first = heart_beat_returns s (MoreThan-SafeEntry n s.clients h) in
    let (t, runs, q) = rounds-Quiet n beaten (MoreThan-weaken n s.clients h) in
    (
      t,
      rw (first, rounds) runs,
      record {
        token = q.token;
        clients =
            q.clients
            ∙ weaken_all-weaken_all n 1 s.clients
            ∙ ap (λ k. weaken_all k s.clients) (omega arith);
        reactor = q.reactor;
        open_fds = q.open_fds;
      },
    )
  where
    beaten : Server
    beaten = record s {
      clients = weaken_all 1 s.clients;
      sent = log_beats (online s.clients) s.sent;
    }

MoreThan-append :
    (n : ℕ) (m rest : ClientMap) (fd : ℕ) (c : Client)
    → MoreThan (suc n) m
    → c.isonline ≡ suc n
    → MoreThan n rest
    → MoreThan n (m ++ ((fd, c) ∷ rest))
MoreThan-append n [] rest fd c hm e hr = (omega arith, hr)
MoreThan-append n (x ∷ m) rest fd c hm e hr = (omega arith, MoreThan-append n m rest fd c hm.1 e hr)

MoreThan-weaken_all : (n : ℕ) (m : ClientMap) → MoreThan (suc n) m → All SafeEntry (weaken_all n m)
MoreThan-weaken_all n [] h = tt
MoreThan-weaken_all n (e ∷ m) h = (λ last. omega arith, MoreThan-weaken_all n m h.1)

-- A client that stays silent with `n + 1` heartbeats left survives exactly `n` of them, if those
-- before it have more left and those behind it no fewer: `n` heartbeats return and only count down,
-- and the next one removes it from the map and the reactor and closes it, before it faults.
pub silent_client_removed :
    (n : ℕ) (s : Server) (m rest : ClientMap) (fd : ℕ) (c : Client)
    → s.clients ≡ m ++ ((fd, c) ∷ rest)
    → MoreThan (suc n) m
    → c.isonline ≡ suc n
    → MoreThan n rest
    → (t : Server) × (u : Server) × (rounds n s ≡ returns t)
      × Quiet n s t
      × (heart_beat t ≡ faults dangling u)
      × (u.clients ≡ weaken_all (suc n) m ++ weaken_all n rest)
      × (u.reactor ≡ drop_fd fd s.reactor)
      × (u.open_fds ≡ drop_fd fd s.open_fds)
silent_client_removed n s m rest fd c e hm last hr =
    let (t, runs, q) = quiet in
    let now = q.clients ∙ ap (weaken_all n) e ∙ map-append _ m ((fd, c) ∷ rest) in
    let removes =
      heart_beat_removes t (weaken_all n m) (weaken_all n rest) fd
        (record c { isonline = c.isonline - n }) now (MoreThan-weaken_all n m hm) (omega arith) in
    (
      t,
      _,
      runs,
      q,
      removes,
      ap (λ l. l ++ weaken_all n rest)
          (weaken_all-weaken_all 1 n m ∙ ap (λ k. weaken_all k m) (omega arith)),
      ap (drop_fd fd) q.reactor,
      ap (drop_fd fd) q.open_fds,
    )
  where
    quiet : (t : Server) × (rounds n s ≡ returns t) × Quiet n s t
    quiet = rounds-Quiet n s (subst (MoreThan n) (sym e) (MoreThan-append n m rest fd c hm last hr))
