-- ===== src/Server/InterleavedTests.antt =====
-- Two logins, a heartbeat and a message, with their parts mixed.
use monitor_system.Base.{
  ℕ, replicate, ◌++◌, ◌≡◌, ◌≢◌, refl, true, false, [], ◌∷◌, some, arith, codes, pos, ok, stop,
  null_pointer, inl,
}
use monitor_system.Message.{pi_ack}
use monitor_system.TaskQueue.{TaskQueue}
use monitor_system.Server.{Server, ack, heart, drop_fd}
use monitor_system.Server.Clients.{Client, lookup, insert, check_online}
use monitor_system.Server.Heartbeat.{returns, walk, heart_beat, online, heart_beat_returns}
use monitor_system.Server.Login.{Arrival, add_to_reactor}
use monitor_system.Server.Dispatch.{Event, route}
use monitor_system.Server.Threads.{
  accepting, entering, registering, waiting, testing, Threads, compare_token, look_up,
  accept_client, enter, take_event, accepts, enters, registers, reports, receives, beats, Runs,
  at_start, after,
}
use monitor_system.Server.Interleaved.{
  IsFresh, interleaved_dispatch_safe, removed_client_crashes, one_client_for_address,
}

abbrev client : ℕ → ℕ → Client
client n a = record { isonline = n; s_addr = a; sin_port = 4000 }

abbrev idle : Server
idle = record { token = codes "6789"; clients = []; reactor = []; open_fds = []; sent = [] }

abbrev arrives : ℕ → ℕ → Arrival
arrives fd a = record {
  sockfd = some fd;
  s_addr = a;
  sin_port = 4000;
  in_time = true;
  received = codes "6789";
  ack_sent = true;
  watched = true;
}

abbrev at_seven : Event
at_seven = record { sockfd = 7; failed = false; msg = record { type = pi_ack; buff = [] } }

abbrev begun : Threads
begun = record { server = idle; login = accepting; events = waiting }

abbrev told : Server
told = record idle { open_fds = 7 ∷ []; sent = ack 7 1 ∷ [] }

abbrev entered : Server
entered = record told { clients = (7, client 8 19) ∷ [] }

abbrev beaten : Server
beaten = record told { clients = (7, client 7 19) ∷ []; sent = heart 7 ∷ ack 7 1 ∷ [] }

abbrev watched : Server
watched = record beaten { reactor = 7 ∷ [] }

abbrev both_told : Server
both_told = record watched { open_fds = 8 ∷ 7 ∷ []; sent = ack 8 1 ∷ heart 7 ∷ ack 7 1 ∷ [] }

abbrev both : Server
both = record both_told { clients = (7, client 7 19) ∷ (8, client 8 20) ∷ [] }

-- The signal comes before the first client is watched, and the second client is entered between the
-- `recv` and the tests for a message of the first.
abbrev mixed : Threads
mixed = record { server = both; login = registering 8 (arrives 8 20); events = testing at_seven [] }

beat_runs : heart_beat entered ≡ returns beaten
unfolding online
beat_runs = heart_beat_returns entered (omega arith)

first_accepted : accept_client idle (arrives 7 19) ≡ ok (told, entering 7 (arrives 7 19))
unfolding accept_client look_up compare_token check_online
first_accepted = refl

second_accepted : accept_client watched (arrives 8 20) ≡ ok (both_told, entering 8 (arrives 8 20))
unfolding accept_client look_up compare_token check_online
second_accepted = refl

mixed_run : Runs begun mixed []
unfolding drop_fd enter insert add_to_reactor take_event
mixed_run =
    let first_entered : Runs begun
        (record { server = entered; login = registering 7 (arrives 7 19); events = waiting }) [] =
      after
        (after at_start
          (accepts (arrives 7 19) told (entering 7 (arrives 7 19)) refl first_accepted))
        (enters 7 (arrives 7 19) refl) in
    let first_watched : Runs begun
        (record { server = watched; login = accepting; events = waiting }) [] =
      after (after first_entered (beats beaten beat_runs)) (registers 7 (arrives 7 19) refl) in
    let second_entering : Runs begun
        (record { server = both_told; login = entering 8 (arrives 8 20); events = waiting }) [] =
      after first_watched
        (accepts (arrives 8 20) both_told (entering 8 (arrives 8 20)) refl second_accepted) in
    after
      (after (after second_entering (reports (at_seven ∷ []) refl (inl refl, tt)))
        (receives at_seven [] refl))
      (enters 8 (arrives 8 20) refl)

begun-IsFresh : IsFresh begun
begun-IsFresh = record { no_clients = refl; no_sockets = refl; at_accept = refl; at_wait = refl }

abbrev ring : TaskQueue
ring = record { slots = []; task_queue_size = 0; head = 0; tail = 0; cur_num = pos 0 }

interleaved_dispatch_safe_example : route both ring 7 at_seven.msg ≢ stop null_pointer
interleaved_dispatch_safe_example =
    interleaved_dispatch_safe begun mixed [] at_seven [] ring begun-IsFresh mixed_run refl (λ i. i)

one_client_for_address_example : (client 7 19).s_addr ≢ (client 8 20).s_addr
unfolding lookup
one_client_for_address_example =
    one_client_for_address begun mixed [] 7 8 (client 7 19) (client 8 20) begun-IsFresh mixed_run
      refl refl (omega arith)

-- The client at 7, watched, with `n` heartbeats left; `k` heartbeats have gone out to it.
abbrev worn : ℕ → ℕ → Server
worn n k = record told {
  clients = (7, client n 19) ∷ [];
  reactor = 7 ∷ [];
  sent = replicate k (heart 7) ++ (ack 7 1 ∷ []);
}

abbrev at_rest : Server → Threads
at_rest s = record { server = s; login = accepting; events = waiting }

worn_run : Runs begun (at_rest (worn 1 7)) []
unfolding enter insert add_to_reactor drop_fd heart_beat walk
worn_run =
    let r8 : Runs begun (at_rest (worn 8 0)) [] =
      after
        (after
          (after at_start
            (accepts (arrives 7 19) told (entering 7 (arrives 7 19)) refl first_accepted))
          (enters 7 (arrives 7 19) refl))
        (registers 7 (arrives 7 19) refl) in
    let r7 : Runs begun (at_rest (worn 7 1)) [] = after r8 (beats (worn 7 1) refl) in
    let r6 : Runs begun (at_rest (worn 6 2)) [] = after r7 (beats (worn 6 2) refl) in
    let r5 : Runs begun (at_rest (worn 5 3)) [] = after r6 (beats (worn 5 3) refl) in
    let r4 : Runs begun (at_rest (worn 4 4)) [] = after r5 (beats (worn 4 4) refl) in
    let r3 : Runs begun (at_rest (worn 3 5)) [] = after r4 (beats (worn 3 5) refl) in
    let r2 : Runs begun (at_rest (worn 2 6)) [] = after r3 (beats (worn 2 6) refl) in
    after r2 (beats (worn 1 7) refl)

-- Its acknowledgement comes in before the next heartbeat, which removes it.
abbrev late : Threads
late = record { server = worn 1 7; login = accepting; events = testing at_seven [] }

late_run : Runs begun late []
unfolding take_event
late_run =
    after (after worn_run (reports (at_seven ∷ []) refl (inl refl, tt))) (receives at_seven [] refl)

abbrev emptied : Server
emptied = record idle { sent = replicate 8 (heart 7) ++ (ack 7 1 ∷ []) }

removed_client_crashes_example :
    Runs begun (record late { server = emptied }) (7 ∷ [])
    × (route emptied ring 7 at_seven.msg ≡ stop null_pointer)
unfolding heart_beat walk drop_fd
removed_client_crashes_example =
    removed_client_crashes begun late [] at_seven [] emptied ring begun-IsFresh late_run refl refl
      refl refl
