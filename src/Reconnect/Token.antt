-- ===== src/Reconnect/Token.antt =====
-- The client's `login` against the server's `do_login`.
use monitor_system.Base.{
  ℕ, ◌≡◌, ◌≢◌, refl, List, ◌∷◌, some, true, false, ok, ◌==◌, ◌⊎◌, inl, inr, Bool-cases, str_eq,
  str_eq_sound, str_eq_refl,
}
use monitor_system.Server.{Server, ack}
use monitor_system.Server.Clients.{HasAddress}
use monitor_system.Server.Login.{Arrival, do_login}
use monitor_system.Server.Admission.{
  Refused, Admitted, IsPrompt, do_login_admits, wrong_token_acknowledged,
}
use monitor_system.Reconnect.{Answers, Link, login}

-- The calls of a `login` that reaches the server and receives the acknowledgement `n`.
abbrev pub answered : ℕ → ℕ → Answers
answered sock n = record { connected = some sock; sent = true; ready = true; received = some n }

login-answered :
    (link : Link) (sock n : ℕ)
    → login link (answered sock n)
      ≡ ok (n == 1, record { sockfd = some sock; open_fds = sock ∷ link.open_fds })
unfolding login
login-answered link sock n = refl

differs : {x y : List ℕ} → x ≡ y → str_eq x y ≡ false → ⊥
differs {x} {y} e h = cc (str_eq_refl x, e, h)

-- A prompt client from a new address is told 1 whatever its token is, so that its `login` returns 1
-- and keeps the socket. The server has then either admitted it, which it does exactly for the right
-- token, or closed its end and registered nothing.
pub login_blind_to_token :
    (s : Server) (a : Arrival) (fd sock : ℕ) (link : Link)
    → IsPrompt fd a
    → ¬ HasAddress a.s_addr s.clients
    → (n : ℕ) × (t : Server) × (login link (answered sock n)
        ≡ ok (true, record { sockfd = some sock; open_fds = sock ∷ link.open_fds }))
      × (do_login s a ≡ ok t)
      × (t.sent ≡ ack fd n ∷ s.sent)
      × (((a.received ≡ s.token) × Admitted s fd a t) ⊎ ((a.received ≢ s.token) × Refused s fd t))
login_blind_to_token s a fd sock link prompt fresh = elim (Bool-cases (str_eq a.received s.token)) [
  | inl same ↦
      let right = str_eq_sound a.received s.token same in
      let (t, runs, d) = do_login_admits s a fd prompt fresh right in
      (1, t, login-answered link sock 1, runs, d.acknowledged, inl (right, d))
  | inr other ↦
      let wrong : a.received ≢ s.token = λ e. differs e other in
      let (t, runs, refused, told) = wrong_token_acknowledged s a fd prompt fresh wrong in
      (1, t, login-answered link sock 1, runs, told, inr (wrong, refused))
]
