-- ===== src/Server/Sound.antt =====
-- What holds between any two parts of the server's handlers, and a round of `do_login` up to
-- `clients[sockfd] = …`.
use mathlib.Core.Path.{subst}
use monitor_system.Base.{
  ℕ, ◌≡◌, ◌≢◌, refl, sym, ap, ◌∙◌, false, List, [], ◌∷◌, Option, none, some, Option-cases,
  Bool-cases, inl, inr, arith, All, ok, Exec, ◌==◌, if◌then◌else◌, length, c_str, str_eq,
  first_call,
}
use monitor_system.Server.{Server, ack, close_fd, drop_fd}
use monitor_system.Server.Clients.{check_online, Ascending}
use monitor_system.Server.Login.{Arrival, token_tmp}
use monitor_system.Server.Dispatch.{Event}
use monitor_system.Server.Registered.{IsIn, All-mono, All-drop_fd}
use monitor_system.Server.Threads.{
  LoginAt, accepting, entering, registering, DispatchAt, waiting, handling, testing, Threads,
  compare_token, look_up, accept_client,
}
use monitor_system.Server.Addresses.{address_at, not_there}

-- The socket has a client, unless a heartbeat has removed it. `at k` is the address of the client at
-- `k`.
abbrev pub IsKnown : (ℕ → Option ℕ) → List ℕ → ℕ → Type 0
IsKnown at gone k = at k ≡ none → IsIn k gone

-- What the login thread relies on where it stands.
abbrev pub Relies : (ℕ → Option ℕ) → List ℕ → LoginAt → Type 0
Relies at gone accepting = Unit
Relies at gone (entering fd a) = (k : ℕ) → at k ≢ some a.s_addr
Relies at gone (registering fd a) = IsKnown at gone fd

-- The events that the dispatcher has still to look up.
abbrev pub left : DispatchAt → List Event
left waiting = []
left (handling es) = es
left (testing e es) = e ∷ es

pub record IsSound (at : ℕ → Option ℕ) (gone reactor : List ℕ) (login : LoginAt)
    (events : DispatchAt) : Type 0 where
  pub registered : All (IsKnown at gone) reactor
  pub sole : (j k a : ℕ) → at j ≡ some a → at k ≡ some a → j ≡ k
  pub relies : Relies at gone login
  pub known : All (λ e. IsKnown at gone e.sockfd) (left events)

pub record IsSafe (s : Threads) (gone : List ℕ) : Type 0 where
  pub ordered : Ascending s.server.clients
  pub sound : IsSound (address_at s.server.clients) gone s.server.reactor s.login s.events

-- What a part of a round up to `clients[sockfd] = …` leaves alone, and what it has made sure of.
abbrev pub Looked : List ℕ → Server → Server → LoginAt → Type 0
Looked gone s t at =
    (t.clients ≡ s.clients) × (t.reactor ≡ s.reactor) × Relies (address_at s.clients) gone at

-- A round that closes its socket.
closed-Looked :
    (gone : List ℕ) (s u t : Server) (at : LoginAt)
    → u.clients ≡ s.clients
    → u.reactor ≡ s.reactor
    → ◌≡◌ {A = Exec (Server × LoginAt)} (ok (u, accepting)) (ok (t, at))
    → Looked gone s t at
closed-Looked gone s u t at clients reactor e =
    let same : u ≡ t = cc e in
    let back : accepting ≡ at = cc e in
    (
      ap (λ x. x.clients) (sym same) ∙ clients,
      ap (λ x. x.reactor) (sym same) ∙ reactor,
      subst (Relies (address_at s.clients) gone) back tt,
    )

compare_token-Looked :
    (gone : List ℕ) (s t : Server) (fd : ℕ) (a : Arrival) (at : LoginAt)
    → check_online a.s_addr s.clients ≡ false
    → compare_token s fd a ≡ ok (t, at)
    → Looked gone s t at
unfolding compare_token
compare_token-Looked gone s t fd a at fresh e =
    let (given, read, rest) = first_call (c_str (token_tmp a.received)) _ e in
    elim (Bool-cases (str_eq given s.token)) [
      | inl right ↦
          let same : s ≡ t = ground (arith, rest, right) in
          let there : entering fd a ≡ at = ground (arith, rest, right) in
          (
            ap (λ x. x.clients) (sym same),
            ap (λ x. x.reactor) (sym same),
            subst (Relies (address_at s.clients) gone) there (not_there s.clients a.s_addr fresh),
          )
      | inr wrong ↦
          closed-Looked gone s (close_fd s fd) t at refl refl (ground (arith, rest, wrong))
    ]

look_up-Looked :
    (gone : List ℕ) (s t : Server) (fd : ℕ) (a : Arrival) (at : LoginAt)
    → look_up s fd a ≡ ok (t, at)
    → Looked gone s t at
unfolding look_up
look_up-Looked gone s t fd a at e = elim (Bool-cases a.ack_sent) [
  | inr unsent ↦ closed-Looked gone s (close_fd s fd) t at refl refl (ground (arith, e, unsent))
  | inl told ↦ elim (Bool-cases (check_online a.s_addr s.clients)) [
    | inl known ↦
        closed-Looked gone s (close_fd (record s { sent = ack fd 0 ∷ s.sent }) fd) t at refl refl
          (ground (arith, e, told, known))
    | inr fresh ↦
        compare_token-Looked gone (record s { sent = ack fd 1 ∷ s.sent }) t fd a at fresh
          (ground (arith, e, told, fresh))
  ]
]

pub accept_client-Looked :
    (gone : List ℕ) (s t : Server) (a : Arrival) (at : LoginAt)
    → accept_client s a ≡ ok (t, at)
    → Looked gone s t at
unfolding accept_client
accept_client-Looked gone s t a at e = elim (Option-cases a.sockfd) [
  | inl no_socket ↦ absurd (ground (arith, e, no_socket))
  | inr (fd, socket) ↦
      let opened = record s { open_fds = fd ∷ s.open_fds } in
      elim (Bool-cases a.in_time) [
        | inr late ↦
            closed-Looked gone s (close_fd opened fd) t at refl refl
              (ground (arith, e, socket, late))
        | inl in_time ↦ elim (Bool-cases (length a.received == 0)) [
          | inl nothing ↦
              closed-Looked gone s (close_fd opened fd) t at refl refl
                (ground (arith, e, socket, in_time, nothing))
          | inr something ↦
              look_up-Looked gone opened t fd a at (ground (arith, e, socket, in_time, something))
        ]
      ]
]

All-find {ℓ} : (P : ℕ → Type ℓ) (k : ℕ) (xs : List ℕ) → All P xs → IsIn k xs → P k
All-find P k [] h i = elim i [ ]
All-find P k (x ∷ xs) h (inl e) = subst P e h.0
All-find P k (x ∷ xs) h (inr i) = All-find P k xs h.1 i

pub reported :
    (at : ℕ → Option ℕ) (gone reactor : List ℕ) (es : List Event)
    → All (IsKnown at gone) reactor
    → All (λ e. IsIn e.sockfd reactor) es
    → All (λ e. IsKnown at gone e.sockfd) es
reported at gone reactor [] h i = tt
reported at gone reactor (e ∷ es) h i =
    (All-find (IsKnown at gone) e.sockfd reactor h i.0, reported at gone reactor es h i.1)

-- A new address at one socket.
abbrev pub with_address : ℕ → ℕ → (ℕ → Option ℕ) → ℕ → Option ℕ
with_address fd b at k = if fd == k then some b else at k

with_address-sole :
    (at : ℕ → Option ℕ) (fd b : ℕ)
    → ((k : ℕ) → at k ≢ some b)
    → ((j k a : ℕ) → at j ≡ some a → at k ≡ some a → j ≡ k)
    → (j k a : ℕ) → with_address fd b at j ≡ some a
    → with_address fd b at k ≡ some a
    → j ≡ k
with_address-sole at fd b fresh sole j k a hj hk = elim (Bool-cases (fd == j)) [
  | inl here ↦ elim (Bool-cases (fd == k)) [
    | inl also ↦ ground (arith, here, also)
    | inr other ↦ absurd (fresh k (ground (arith, hj, hk, here, other)))
  ]
  | inr there ↦ elim (Bool-cases (fd == k)) [
    | inl also ↦ absurd (fresh j (ground (arith, hj, hk, there, also)))
    | inr other ↦ sole j k a (ground (arith, hj, there)) (ground (arith, hk, other))
  ]
]

IsIn-drop_fd : (fd k : ℕ) (xs : List ℕ) → (fd == k) ≡ false → IsIn k xs → IsIn k (drop_fd fd xs)
unfolding drop_fd
IsIn-drop_fd fd k [] ne i = i
IsIn-drop_fd fd k (x ∷ xs) ne (inl e) =
    let stays : (x == fd) ≡ false = ground (arith, ne, e) in rw stays (inl e)
IsIn-drop_fd fd k (x ∷ xs) ne (inr i) = elim (Bool-cases (x == fd)) [
  | inl drops ↦ rw drops (IsIn-drop_fd fd k xs ne i)
  | inr stays ↦ rw stays (inr (IsIn-drop_fd fd k xs ne i))
]

with_address-IsKnown :
    (at : ℕ → Option ℕ) (gone : List ℕ) (fd b k : ℕ)
    → IsKnown at gone k
    → IsKnown (with_address fd b at) (drop_fd fd gone) k
with_address-IsKnown at gone fd b k h e = elim (Bool-cases (fd == k)) [
  | inl here ↦ absurd (ground (arith, e, here))
  | inr other ↦ IsIn-drop_fd fd k gone other (h (ground (arith, e, other)))
]

pub enter-IsSound :
    (at : ℕ → Option ℕ) (gone reactor : List ℕ) (events : DispatchAt) (fd : ℕ) (a : Arrival)
    → IsSound at gone reactor (entering fd a) events
    → IsSound (with_address fd a.s_addr at) (drop_fd fd gone) reactor (registering fd a) events
enter-IsSound at gone reactor events fd a h = record {
  registered = All-mono _ _ reactor (with_address-IsKnown at gone fd a.s_addr) h.registered;
  sole = with_address-sole at fd a.s_addr h.relies h.sole;
  relies = λ e. absurd (ground (arith, e));
  known =
      All-mono _ _ (left events) (λ e. with_address-IsKnown at gone fd a.s_addr e.sockfd) h.known;
}

-- No address at one socket.
abbrev pub without_address : ℕ → (ℕ → Option ℕ) → ℕ → Option ℕ
without_address fd at k = if fd == k then none else at k

without_address-IsKnown :
    (at : ℕ → Option ℕ) (gone : List ℕ) (fd k : ℕ)
    → IsKnown at gone k
    → IsKnown (without_address fd at) (fd ∷ gone) k
without_address-IsKnown at gone fd k h e = elim (Bool-cases (fd == k)) [
  | inl here ↦ inl (ground (arith, here))
  | inr other ↦ inr (h (ground (arith, e, other)))
]

without_address-some :
    (at : ℕ → Option ℕ) (fd k a : ℕ) → without_address fd at k ≡ some a → at k ≡ some a
without_address-some at fd k a e = elim (Bool-cases (fd == k)) [
  | inl here ↦ absurd (ground (arith, e, here))
  | inr other ↦ ground (arith, e, other)
]

without_address-Relies :
    (at : ℕ → Option ℕ) (gone : List ℕ) (fd : ℕ) (login : LoginAt)
    → Relies at gone login
    → Relies (without_address fd at) (fd ∷ gone) login
without_address-Relies at gone fd accepting h = tt
without_address-Relies at gone fd (entering k a) h =
    λ j e. h j (without_address-some at fd j a.s_addr e)
without_address-Relies at gone fd (registering k a) h = without_address-IsKnown at gone fd k h

-- A heartbeat takes a client out of the map, and its socket out of the reactor.
pub remove-IsSound :
    (at : ℕ → Option ℕ) (gone reactor : List ℕ) (login : LoginAt) (events : DispatchAt) (fd : ℕ)
    → IsSound at gone reactor login events
    → IsSound (without_address fd at) (fd ∷ gone) (drop_fd fd reactor) login events
remove-IsSound at gone reactor login events fd h = record {
  registered =
      All-drop_fd _ fd reactor
        (All-mono _ _ reactor (without_address-IsKnown at gone fd) h.registered);
  sole = λ j k a hj hk.
      h.sole j k a (without_address-some at fd j a hj) (without_address-some at fd k a hk);
  relies = without_address-Relies at gone fd login h.relies;
  known = All-mono _ _ (left events) (λ e. without_address-IsKnown at gone fd e.sockfd) h.known;
}
