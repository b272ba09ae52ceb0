-- ===== src/Startup/Rejected.antt =====
-- A client that the server turns away.
use monitor_system.Base.{ℕ, ◌≡◌, refl, true, false, List, [], ◌∷◌, none, some, ◌==◌, ok}
use monitor_system.Offline.{DataFile}
use monitor_system.Reconnect.{Link, Answers, login, read_ack}
use monitor_system.Udp.{socket_connect_udp}
use monitor_system.Startup.Settings.{
  ClientSettings, ClientOption, client_zeros, client_options, client_config,
}
use monitor_system.Startup.ClientMain.{
  Boot, Running, runs_check_data, runs_send_data, runs_relogin, client_main,
}

-- The server answers the login with something else than 1.
pub record TurnsAway (fd : ℕ) (a : Answers) : Type 0 where
  pub connected : a.connected ≡ some fd
  pub sent : a.sent ≡ true
  pub ready : a.ready ≡ true
  pub ack : ℕ
  pub received : a.received ≡ some ack
  pub refused : (ack == 1) ≡ false

login_refused :
    (link : Link) (fd : ℕ) (a : Answers)
    → TurnsAway fd a
    → login link a ≡ ok (false, record link { sockfd = some fd; open_fds = fd ∷ link.open_fds })
unfolding login read_ack
login_refused link fd a t = rw (t.connected, t.sent, t.ready, t.received, t.refused) refl

-- A client that the server turns away starts all the same: `main` drops the result of `login`, keeps
-- the connection as its `sockfd`, and runs its three threads with the settings of its command line
-- and file.
pub turned_away_client_runs :
    (options : List ClientOption) (file : DataFile) (given used : ClientSettings) (b : Boot)
    (queue udp_fd fd : ℕ)
    → b.msg_id ≡ some queue
    → client_options options client_zeros ≡ ok given
    → client_config file given ≡ ok used
    → socket_connect_udp [] b.udp ≡ (some udp_fd, udp_fd ∷ [])
    → TurnsAway fd b.tcp
    → (r : Running) × (client_main options file b ≡ ok r)
      × (r.settings ≡ used)
      × (r.logged_in ≡ false)
      × (r.link.sockfd ≡ some fd)
      × (r.link.open_fds ≡ fd ∷ udp_fd ∷ [])
      × (r.threads ≡ runs_check_data ∷ runs_send_data ∷ runs_relogin ∷ [])
unfolding client_main
turned_away_client_runs options file given used b queue udp_fd fd got parsed config udp away =
    let refused = login_refused (record { sockfd = none; open_fds = udp_fd ∷ [] }) fd b.tcp away in
    let r : Running = record {
      settings = used;
      msg_id = queue;
      udp_sockfd = udp_fd;
      link = record { sockfd = some fd; open_fds = fd ∷ udp_fd ∷ [] };
      logged_in = false;
      threads = runs_check_data ∷ runs_send_data ∷ runs_relogin ∷ [];
    } in
    (r, simp (got, parsed, config, udp, refused), refl, refl, refl, refl, refl)
