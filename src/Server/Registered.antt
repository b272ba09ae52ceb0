-- ===== src/Server/Registered.antt =====
-- The reactor and the map together: every socket that the reactor watches belongs to a client of the
-- map, so that a message that comes in finds its client.
use mathlib.Core.Path.{subst, subst₂}
use monitor_system.Base.{
  ℕ, ◌≡◌, ◌≢◌, ◌⊎◌, inl, inr, refl, sym, Bool, true, false, List, [], ◌∷◌, none, some, arith, ◌==◌,
  if◌then◌else◌, All, Exec, ok, ◌>>=◌, first_call, Bool-cases, Option-cases,
}
use monitor_system.Message.{Msg, has_ack}
use monitor_system.TaskQueue.{TaskQueue}
use monitor_system.Server.{Server, drop_fd, unregister, close_fd}
use monitor_system.Server.Clients.{Client, ClientMap, lookup, insert, lookup-insert}
use monitor_system.Server.Login.{Arrival, do_login}
use monitor_system.Server.Admission.{Admitted, do_login_cases}
use monitor_system.Server.Dispatch.{Event, note_ack, route, dispatch}
use monitor_system.Server.Heartbeat.{Handled, returns, faults, heart_beat, walk}

-- The map has an entry for the descriptor.
abbrev pub IsClient : ClientMap → ℕ → Type 0
IsClient m fd = lookup fd m ≢ none

abbrev pub Registered : Server → Type 0
Registered s = All (IsClient s.clients) s.reactor

pub All-mono {ℓ κ μ} :
    {A : Type ℓ} (P : A → Type κ) (Q : A → Type μ) (xs : List A)
    → ((a : A) → P a → Q a)
    → All P xs
    → All Q xs
All-mono P Q [] f h = tt
All-mono P Q (x ∷ xs) f h = (f x h.0, All-mono P Q xs f h.1)

pub All-drop_fd {ℓ} : (P : ℕ → Type ℓ) (fd : ℕ) (xs : List ℕ) → All P xs → All P (drop_fd fd xs)
unfolding drop_fd
All-drop_fd P fd [] h = tt
All-drop_fd P fd (x ∷ xs) h = elim (Bool-cases (x == fd)) [
  | inl e ↦ rw (e, drop_fd) (All-drop_fd P fd xs h.1)
  | inr e ↦ rw (e, drop_fd) (h.0, All-drop_fd P fd xs h.1)
]

IsClient-insert :
    (m : ClientMap) (k : ℕ) (c : Client) (fd : ℕ) → IsClient m fd → IsClient (insert k c m) fd
IsClient-insert m k c fd h = ground (arith, lookup-insert k fd c m)

watch :
    (m : ClientMap) (fd : ℕ) (fds : List ℕ) (b : Bool)
    → IsClient m fd
    → All (IsClient m) fds
    → All (IsClient m) (if b then fd ∷ fds else fds)
watch m fd fds true c h = (c, h)
watch m fd fds false c h = h

-- An admission keeps every entry, or replaces it.
Admitted-IsClient :
    (s t : Server) (a : Arrival) (fd k : ℕ)
    → Admitted s fd a t
    → IsClient s.clients k
    → IsClient t.clients k
Admitted-IsClient s t a fd k d h = ground (arith, d.entry k)

-- A round of `do_login` keeps the sockets registered.
pub do_login-Registered :
    (s t : Server) (a : Arrival) (fd : ℕ)
    → a.sockfd ≡ some fd
    → do_login s a ≡ ok t
    → Registered s
    → Registered t
do_login-Registered s t a fd e run h = elim (do_login_cases s t a fd e run) [
  | inl r ↦ subst₂ (λ m fds. All (IsClient m) fds) (sym r.clients) (sym r.reactor) h
  | inr d ↦ subst (All (IsClient t.clients)) (sym d.reactor) (
      watch t.clients fd s.reactor a.watched (ground (arith, d.entry fd))
        (All-mono _ _ s.reactor (λ k c. Admitted-IsClient s t a fd k d c) h))
]

-- What the tests on the type may change: the reactor stays, and no client is lost.
record Kept (s t : Server) : Type 0 where
  reactor : t.reactor ≡ s.reactor
  clients : (k : ℕ) → IsClient s.clients k → IsClient t.clients k

note_ack-Kept : (s t : Server) (fd : ℕ) → note_ack s fd ≡ ok t → Kept s t
unfolding note_ack
note_ack-Kept s t fd e = elim (Option-cases (lookup fd s.clients)) [
  | inl missing ↦ absurd (ground arith)
  | inr (c, found) ↦ subst (Kept s) (changed c found) (record {
    reactor = refl;
    clients = λ k h. IsClient-insert s.clients fd (record c { isonline = 5 }) k h;
  })
]
  where
    changed :
        (c : Client)
        → lookup fd s.clients ≡ some c
        → record s { clients = insert fd (record c { isonline = 5 }) s.clients } ≡ t
    changed c found = ground arith

route-Kept :
    (s t : Server) (tq tq' : TaskQueue) (fd : ℕ) (msg : Msg)
    → route s tq fd msg ≡ ok (t, tq')
    → Kept s t
unfolding route
route-Kept s t tq tq' fd msg e = elim (Bool-cases (has_ack msg.type)) [
  | inl is_ack ↦
      let (u, noted, rest) = first_call (note_ack s fd) (answer) (noting is_ack) in
      subst (Kept s) (ground arith) (note_ack-Kept s u fd noted)
  | inr no_ack ↦ subst (Kept s) (same no_ack) (record { reactor = refl; clients = λ k h. h })
]
  where
    answer : Server → Exec (Server × TaskQueue)
    answer v = ok (v, tq)

    noting : has_ack msg.type ≡ true → (note_ack s fd >>= answer) ≡ ok (t, tq')
    noting h = rw h at e

    same : has_ack msg.type ≡ false → s ≡ t
    same h = ground arith

-- One event keeps them registered, whether or not its `recv` failed.
pub dispatch-Registered :
    (s t : Server) (tq tq' : TaskQueue) (e : Event)
    → dispatch s tq e ≡ ok (t, tq')
    → Registered s
    → Registered t
unfolding dispatch
dispatch-Registered s t tq tq' e run h = elim (Bool-cases e.failed) [
  | inl gone ↦
      step (close_fd (unregister s e.sockfd) e.sockfd) (ground arith)
        (All-drop_fd (IsClient s.clients) e.sockfd s.reactor h)
  | inr fine ↦ step s (ground arith) h
]
  where
    step : (u : Server) → route u tq e.sockfd e.msg ≡ ok (t, tq') → Registered u → Registered t
    step u routed hu =
        let k = route-Kept u t tq tq' e.sockfd e.msg routed in
        subst (All (IsClient t.clients)) (sym k.reactor) (All-mono _ _ u.reactor k.clients hu)

-- Membership, by recursion.
abbrev pub IsIn : ℕ → List ℕ → Type 0
IsIn fd [] = ⊥
IsIn fd (x ∷ xs) = (x ≡ fd) ⊎ IsIn fd xs

pub find-IsClient :
    (m : ClientMap) (fd : ℕ) (xs : List ℕ) → All (IsClient m) xs → IsIn fd xs → IsClient m fd
find-IsClient m fd [] h i = elim i [ ]
find-IsClient m fd (x ∷ xs) h (inl e) = subst (IsClient m) e h.0
find-IsClient m fd (x ∷ xs) h (inr i) = find-IsClient m fd xs h.1 i

walk-IsClient :
    (m : ClientMap) (k : ℕ) → IsClient m k → (walk m).removed ≢ some k → IsClient (walk m).clients k
unfolding walk lookup
walk-IsClient [] k h ne = h
walk-IsClient ((fd, d) ∷ m) k h ne = ground (arith, walk-IsClient m k)

drop_fd-ne : (fd : ℕ) (xs : List ℕ) → All (λ x. x ≢ fd) (drop_fd fd xs)
unfolding drop_fd
drop_fd-ne fd [] = tt
drop_fd-ne fd (x ∷ xs) = elim (Bool-cases (x == fd)) [
  | inl e ↦ rw (e, drop_fd) (drop_fd-ne fd xs)
  | inr e ↦ rw (e, drop_fd) ((λ q. ground arith), drop_fd-ne fd xs)
]

All-both {ℓ κ μ} :
    {A : Type ℓ} (P : A → Type κ) (Q : A → Type μ) (xs : List A)
    → All P xs
    → All Q xs
    → All (λ a. P a × Q a) xs
All-both P Q [] hp hq = tt
All-both P Q (x ∷ xs) hp hq = ((hp.0, hq.0), All-both P Q xs hp.1 hq.1)

-- The state that a heartbeat leaves, whichever way it ends.
abbrev pub state_after : Handled → Server
state_after (returns t) = t
state_after (faults e t) = t

-- A heartbeat keeps the sockets registered, also where it ends in a fault.
pub heart_beat-Registered : (s : Server) → Registered s → Registered (state_after (heart_beat s))
unfolding heart_beat
heart_beat-Registered s h = elim (Option-cases (walk s.clients).removed) [
  | inl e ↦ rw e (All-mono _ _ s.reactor (λ k c. walk-IsClient s.clients k c (λ q. cc)) h)
  | inr (fd, e) ↦ rw e (
      All-mono _ _ (drop_fd fd s.reactor)
        (λ k both. walk-IsClient s.clients k both.0 (λ q. both.1 (ground arith)))
        (All-both _ _ _ (All-drop_fd (IsClient s.clients) fd s.reactor h)
          (drop_fd-ne fd s.reactor)))
]
