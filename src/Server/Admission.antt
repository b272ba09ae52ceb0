-- ===== src/Server/Admission.antt =====
-- What `do_login` decides, on every branch.
use mathlib.Core.Path.{subst}
use monitor_system.Base.{
  ℕ, zero, suc, ◌-◌, ◌<◌, ◌≡◌, ◌≢◌, ◌⊎◌, inl, inr, refl, sym, ap, ◌∙◌, true, false, List, ◌∷◌, ◌++◌,
  some, arith, ◌==◌, if◌then◌else◌, length, take_all, replicate, IsText, c_str-text, c_str, str_eq,
  str_eq_refl, str_eq_sound, ok, Bool-cases, first_call,
}
use monitor_system.Server.{Server, Output, ack, close_fd, drop_fd}
use monitor_system.Server.Clients.{
  lookup, lookup-insert, check_online, HasAddress, check_online_sound, check_online_complete,
}
use monitor_system.Server.Login.{
  Arrival, new_client, token_tmp, admit, check_token, answer, serve_arrival, do_login,
}

c_str-token_tmp : (t : List ℕ) → IsText t → length t < 100 → c_str (token_tmp t) ≡ ok t
c_str-token_tmp t h lt = rw (take_all 100 t (omega arith)) (pad (100 - length t) (omega arith))
  where
    pad : (n : ℕ) → 0 < n → c_str (t ++ replicate n 0) ≡ ok t
    pad zero p = absurd (omega arith)
    pad (suc n) p = c_str-text t (replicate n 0) h

-- The socket of a round is gone, and nothing else but the log has changed.
pub record Refused (s : Server) (fd : ℕ) (t : Server) : Type 0 where
  pub token : t.token ≡ s.token
  pub clients : t.clients ≡ s.clients
  pub reactor : t.reactor ≡ s.reactor
  pub closed : t.open_fds ≡ drop_fd fd (fd ∷ s.open_fds)

-- The client of a round is in the map with 8 heartbeats, under an address that was not there.
pub record Admitted (s : Server) (fd : ℕ) (a : Arrival) (t : Server) : Type 0 where
  pub token : t.token ≡ s.token
  pub in_time : a.in_time ≡ true
  pub came : (length a.received == 0) ≡ false
  pub told : a.ack_sent ≡ true
  pub new_address : ¬ HasAddress a.s_addr s.clients
  pub given : c_str (token_tmp a.received) ≡ ok s.token
  pub entry :
      (k : ℕ) → lookup k t.clients ≡ (if fd == k then some (new_client a) else lookup k s.clients)
  pub open_socket : t.open_fds ≡ fd ∷ s.open_fds
  pub acknowledged : t.sent ≡ ack fd 1 ∷ s.sent
  pub reactor : t.reactor ≡ (if a.watched then fd ∷ s.reactor else s.reactor)

check_token_cases :
    (s t : Server) (fd : ℕ) (a : Arrival)
    → check_token s fd a ≡ ok t
    → (t ≡ close_fd s fd) ⊎ ((c_str (token_tmp a.received) ≡ ok s.token) × (t ≡ admit s fd a))
unfolding check_token
check_token_cases s t fd a run =
    let (given, read, rest) =
      first_call (c_str (token_tmp a.received))
        (λ g. ok (if str_eq g s.token then admit s fd a else close_fd s fd)) run in
    elim (Bool-cases (str_eq given s.token)) [
      | inl same ↦ inr (read ∙ ap ok (str_eq_sound given s.token same), ground arith)
      | inr other ↦ inl (ground arith)
    ]

-- What `admit` makes of a server that has logged the acknowledgement.
admit-Admitted :
    (s : Server) (fd : ℕ) (a : Arrival)
    → a.in_time ≡ true
    → (length a.received == 0) ≡ false
    → a.ack_sent ≡ true
    → check_online a.s_addr s.clients ≡ false
    → c_str (token_tmp a.received) ≡ ok s.token
    → Admitted s fd a
        (admit (record s { open_fds = fd ∷ s.open_fds; sent = ack fd 1 ∷ s.sent }) fd a)
unfolding admit
admit-Admitted s fd a in_time came told fresh given = record {
  token = ground arith;
  in_time = in_time;
  came = came;
  told = told;
  new_address = λ h. cc (check_online_complete h);
  given = given;
  entry = λ k. ground (arith, lookup-insert fd k (new_client a) s.clients);
  open_socket = ground arith;
  acknowledged = ground arith;
  reactor = ground arith;
}

close-Refused :
    (s t : Server) (fd : ℕ) (out : List Output)
    → t ≡ close_fd (record s { open_fds = fd ∷ s.open_fds; sent = out }) fd
    → Refused s fd t
close-Refused s t fd out e = ground arith

-- A round of `do_login` that gets a socket and goes through either closes it and leaves the clients
-- and the reactor as they were, or admits its client: then `select` reported the socket in time, the
-- right token came in and the acknowledgement went out, the address was that of no client, the map has
-- the client with 8 heartbeats at the new socket and is as before elsewhere, and the socket stays open
-- and is watched if `epoll_ctl` takes it.
pub do_login_cases :
    (s t : Server) (a : Arrival) (fd : ℕ)
    → a.sockfd ≡ some fd
    → do_login s a ≡ ok t
    → Refused s fd t ⊎ Admitted s fd a t
unfolding do_login serve_arrival answer
do_login_cases s t a fd e run = elim (Bool-cases a.in_time) [
  | inr late ↦ inl (close-Refused s t fd s.sent (ground arith))
  | inl in_time ↦ elim (Bool-cases (length a.received == 0)) [
    | inl nothing ↦ inl (close-Refused s t fd s.sent (ground arith))
    | inr something ↦ elim (Bool-cases a.ack_sent) [
      | inr unsent ↦ inl (close-Refused s t fd s.sent (ground arith))
      | inl acked ↦ elim (Bool-cases (check_online a.s_addr s.clients)) [
        | inl known ↦ inl (close-Refused s t fd (ack fd 0 ∷ s.sent) (ground arith))
        | inr fresh ↦
            elim (check_token_cases
              (record s { open_fds = fd ∷ s.open_fds; sent = ack fd 1 ∷ s.sent }) t fd a
              (ground arith)) [
                | inl closed ↦ inl (close-Refused s t fd (ack fd 1 ∷ s.sent) closed)
                | inr (given, admitted) ↦ inr (
                    subst (Admitted s fd a) (sym admitted)
                      (admit-Admitted s fd a in_time something acked fresh given))
              ]
      ]
    ]
  ]
]

-- An arrival on which every system call of the round succeeds, with a token that is a text.
pub record IsPrompt (fd : ℕ) (a : Arrival) : Type 0 where
  pub accepted : a.sockfd ≡ some fd
  pub in_time : a.in_time ≡ true
  pub ack_sent : a.ack_sent ≡ true
  pub text : IsText a.received
  pub not_empty : 0 < length a.received
  pub short : length a.received < 100

-- Such a round, from an address that no client has, comes down to the test of the token.
prompt_round :
    (s : Server) (a : Arrival) (fd : ℕ)
    → IsPrompt fd a
    → ¬ HasAddress a.s_addr s.clients
    → (check_online a.s_addr s.clients ≡ false)
      × (c_str (token_tmp a.received) ≡ ok a.received)
      × (do_login s a
          ≡ check_token (record s { open_fds = fd ∷ s.open_fds; sent = ack fd 1 ∷ s.sent }) fd a)
unfolding do_login serve_arrival answer
prompt_round s a fd p fresh = elim (Bool-cases (check_online a.s_addr s.clients)) [
  | inl known ↦ absurd (fresh (check_online_sound a.s_addr s.clients known))
  | inr unknown ↦ (unknown, c_str-token_tmp a.received p.text p.short, ground arith)
]

-- A client that sends the right token in time, from an address that no client has, is admitted.
pub do_login_admits :
    (s : Server) (a : Arrival) (fd : ℕ)
    → IsPrompt fd a
    → ¬ HasAddress a.s_addr s.clients
    → a.received ≡ s.token
    → (t : Server) × (do_login s a ≡ ok t) × Admitted s fd a t
unfolding check_token
do_login_admits s a fd p fresh right =
    let (unknown, given, round) = prompt_round s a fd p fresh in
    (
      admit (record s { open_fds = fd ∷ s.open_fds; sent = ack fd 1 ∷ s.sent }) fd a,
      round ∙ ground (arith, given, str_eq_refl s.token),
      admit-Admitted s fd a p.in_time (ground (arith, p.not_empty)) p.ack_sent unknown
          (given ∙ ap ok right),
    )

-- The acknowledgement 1 goes out before the token is tested: with a wrong token too the client is
-- told that it is logged in, and then its socket is closed and nothing is registered.
pub wrong_token_acknowledged :
    (s : Server) (a : Arrival) (fd : ℕ)
    → IsPrompt fd a
    → ¬ HasAddress a.s_addr s.clients
    → a.received ≢ s.token
    → (t : Server) × (do_login s a ≡ ok t) × Refused s fd t × (t.sent ≡ ack fd 1 ∷ s.sent)
unfolding check_token
wrong_token_acknowledged s a fd p fresh wrong =
    let (unknown, given, round) = prompt_round s a fd p fresh in
    (
      close_fd (record s { open_fds = fd ∷ s.open_fds; sent = ack fd 1 ∷ s.sent }) fd,
      round ∙ elim (Bool-cases (str_eq a.received s.token)) [
        | inl same ↦ absurd (wrong (str_eq_sound a.received s.token same))
        | inr other ↦ ground (arith, given)
      ],
      close-Refused s _ fd (ack fd 1 ∷ s.sent) refl,
      refl,
    )
