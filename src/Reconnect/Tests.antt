-- ===== src/Reconnect/Tests.antt =====
-- The client's login on concrete inputs.
use monitor_system.Base.{
  ℕ, ◌⊎◌, ◌*◌, ◌≤◌, ◌≡◌, ◌≢◌, refl, [], ◌∷◌, none, some, true, arith, ok, codes, replicate,
}
use monitor_system.Server.{Server, ack}
use monitor_system.Server.Clients.{HasAddress, check_online, check_online_complete}
use monitor_system.Server.Login.{Arrival, do_login}
use monitor_system.Server.Admission.{Refused, Admitted}
use monitor_system.Offline.{do_with_file, replay, fgets}
use monitor_system.Reconnect.{Link, login, try_to_relogin, relogin_round, replay_files, relogin_num}
use monitor_system.Reconnect.Counting.{Counts, done, does, fails, relogs, three_failures_each}
use monitor_system.Reconnect.Token.{answered, login_blind_to_token}

abbrev began : Counts
began = record { check_for_relogin = 3; failures = 0; relogins = 0 }

three_failures_each_example : (3 * 1 ≤ 3) × (3 ≤ relogin_num)
unfolding try_to_relogin
three_failures_each_example =
    three_failures_each began (record { check_for_relogin = 3; failures = 3; relogins = 1 }) refl
      refl (does fails (does fails (does fails (does (relogs refl) (done _)))))

abbrev lonely : Server
lonely = record { token = codes "6789"; clients = []; reactor = []; open_fds = []; sent = [] }

abbrev guess : Arrival
guess = record {
  sockfd = some 7;
  s_addr = 19;
  sin_port = 4000;
  in_time = true;
  received = codes "0000";
  ack_sent = true;
  watched = true;
}

nobody : ¬ HasAddress 19 lonely.clients
unfolding check_online
nobody h = cc (check_online_complete h)

abbrev unlinked : Link
unlinked = record { sockfd = none; open_fds = [] }

login_blind_to_token_example :
    (n : ℕ) × (t : Server) × (login unlinked (answered 4 n)
      ≡ ok (true, record { sockfd = some 4; open_fds = 4 ∷ [] }))
    × (do_login lonely guess ≡ ok t)
    × (t.sent ≡ ack 7 n ∷ [])
    × (((codes "0000" ≡ codes "6789") × Admitted lonely 7 guess t)
        ⊎ ((codes "0000" ≢ codes "6789") × Refused lonely 7 t))
login_blind_to_token_example =
    login_blind_to_token lonely guess 7 4 unlinked
      (record {
        accepted = refl;
        in_time = refl;
        ack_sent = refl;
        text = omega arith;
        not_empty = omega arith;
        short = omega arith;
      })
      nobody

-- A reconnection with empty files.
quiet_round :
    relogin_round unlinked
      (answered 4 1)
      (λ i. replicate 500 0)
      (λ i. true)
      (record { mem = some []; cpu = some []; disk = some []; sys = some [] })
    ≡ ok (
      3,
      record { sockfd = some 4; open_fds = 4 ∷ [] },
      record { mem = []; cpu = []; disk = []; sys = [] },
      record { mem = some []; cpu = some []; disk = some []; sys = some [] },
    )
unfolding relogin_round login replay_files do_with_file replay fgets
quiet_round = refl
