-- ===== src/Pipeline/Reconnected.antt =====
-- The way of lines of all kinds that the client cannot send: into the files, over a new login to the
-- server's task queue, and to the statements of the workers.
use monitor_system.Base.{
  ℕ, ◌<◌, ◌≡◌, refl, sym, ap, ◌∙◌, Bool, true, List, [], ◌∷◌, map, some, arith, All, Pairwise,
  length, ok, ◌>>=◌, c_str,
}
use monitor_system.Json.{Cjson, IsLawful}
use monitor_system.Json.Layout.{IsLaidOut}
use monitor_system.TaskQueue.{TaskQueue}
use monitor_system.TaskQueue.Bounds.{IsValid}
use monitor_system.TaskQueue.Fifo.{Holds}
use monitor_system.Server.{Server}
use monitor_system.Server.Dispatch.{dispatch_all}
use monitor_system.Offline.{do_with_file, resent_msg}
use monitor_system.Reconnect.{
  Answers, Link, Files, Replayed, login, read_ack, replay_files, relogin_round, relogin_num,
}
use monitor_system.Storing.Turns.{turns, deal_with_all, turns-Holds}
use monitor_system.Encode.{Kind, type_of}
use monitor_system.Encode.Deliver.{Sender, Calls, file_of}
use monitor_system.Encode.Effects.{send_rounds}
use monitor_system.Pipeline.Batch.{Line, IsStorable, row, printed, arrivals, data_dispatched}
use monitor_system.Pipeline.Kept.{msg_lines, Loses, of_kind, lost_rounds}
use monitor_system.Pipeline.Kinds.{by_kind, All-of_kind, of_kind-kind, counts}
use monitor_system.Pipeline.Resent.{CanReplay, file_stored}
use monitor_system.Pipeline.Messages.{resent_msgs, resent_msgs-data, length-resent_msgs, all_dealt}

-- Every call of the login succeeds, and the server answers 1.
pub record LetsIn (fd : ℕ) (a : Answers) : Type 0 where
  pub connected : a.connected ≡ some fd
  pub sent : a.sent ≡ true
  pub ready : a.ready ≡ true
  pub received : a.received ≡ some 1

login_accepted :
    (link : Link) (fd : ℕ) (a : Answers)
    → LetsIn fd a
    → login link a ≡ ok (true, record link { sockfd = some fd; open_fds = fd ∷ link.open_fds })
unfolding login read_ack
login_accepted link fd a h = rw (h.connected, h.sent, h.ready, h.received) refl

-- Files that have been emptied.
abbrev pub empty_files : Files
empty_files = record { mem = some []; cpu = some []; disk = some []; sys = some [] }

-- The four calls of `do_with_file`, from what each does.
replays :
    (temp : ℕ → List ℕ) (emptied : ℕ → Bool) (files : Files) (m c d y : List (List ℕ))
    → ((i : ℕ) → emptied i ≡ true)
    → do_with_file (temp 0) true (msg_lines Kind.mem) files.mem ≡ ok (m, some [])
    → do_with_file (temp 1) true (msg_lines Kind.cpu) files.cpu ≡ ok (c, some [])
    → do_with_file (temp 2) true (msg_lines Kind.disk) files.disk ≡ ok (d, some [])
    → do_with_file (temp 3) true (msg_lines Kind.sys) files.sys ≡ ok (y, some [])
    → replay_files temp emptied files
      ≡ ok (record { mem = m; cpu = c; disk = d; sys = y }, empty_files)
unfolding replay_files
replays temp emptied files m c d y all em ec ed ey =
    rw (all 0, all 1, all 2, all 3, em, ec, ed, ey) refl

relogin_replays :
    (link : Link) (fd : ℕ) (a : Answers) (temp : ℕ → List ℕ) (emptied : ℕ → Bool) (files : Files)
    (r : Replayed)
    → LetsIn fd a
    → replay_files temp emptied files ≡ ok (r, empty_files)
    → relogin_round link a temp emptied files
      ≡ ok (
        relogin_num,
        record link { sockfd = some fd; open_fds = fd ∷ link.open_fds },
        r,
        empty_files,
      )
unfolding relogin_round
relogin_replays link fd a temp emptied files r lets e = rw (login_accepted link fd a lets, e) refl

-- The texts of one file, and what the server makes of them.
record FileStored (json : Cjson) (k : Kind) (temp : List ℕ) (ls : List Line) (t : Sender)
    : Type 0 where
  texts : List (List ℕ)
  taken : do_with_file temp true (msg_lines k) (file_of k t.files) ≡ ok (texts, some [])
  number : length texts ≡ length (of_kind k ls)
  dealt :
      deal_with_all json (map (resent_msg (type_of k)) texts)
      ≡ ok (map (λ l. some (row l)) (of_kind k ls))

module _ (json : Cjson) (law : IsLawful json) (laid : IsLaidOut json) where
  files_stored :
      (ls : List Line) (rs : List (List ℕ × Calls)) (s : Sender)
      → All (IsStorable json) ls
      → All (λ l. length (printed json l) < 499) ls
      → Pairwise Loses ls rs
      → ((k : Kind) → CanReplay (file_of k s.files) (of_kind k ls))
      → (t : Sender) × (send_rounds json rs s ≡ ok t)
        × (t.tcp ≡ s.tcp)
        × ((k : Kind) (temp : List ℕ) → c_str temp ≡ ok [] → FileStored json k temp ls t)
  files_stored ls rs s good short loses ready =
      let (t, runs, tcp, held) = lost_rounds json law laid ls rs s good loses in
      (
        t,
        runs,
        tcp,
        λ k temp clean.
            let (recs, file, layouts) = held k in
            let (texts, taken, number, dealt) =
              file_stored json law laid k (of_kind k ls) recs (file_of k s.files)
                (file_of k t.files) temp (ready k) clean (of_kind-kind k ls)
                (All-of_kind (IsStorable json) k ls good)
                (All-of_kind (λ l. length (printed json l) < 499) k ls short) layouts file in
            record { texts = texts; taken = taken; number = number; dealt = dealt },
      )

  -- With a lawful cJSON that prints a line for each brace and field and parses a text with a newline
  -- behind it as it parses the text, lines of any kinds that the sending thread receives, one in each
  -- round, and cannot send all reach the statements of the workers after the next login. The lines are
  -- storable and print as fewer than 499 bytes each; the file of each kind is empty, or missing with a
  -- line of the kind among the lines, and can be written and emptied; `temp` happens to hold an empty
  -- string in each call of `do_with_file`; every call of the login succeeds and the server answers 1;
  -- the task queue is valid and empty and has room for the lines. Then the rounds go through and send
  -- nothing to the server, the reconnection ends with the counter at 3, the new socket in place and
  -- four empty files, the dispatcher queues all messages that it sends and changes nothing else, and as
  -- many turns of the workers as there are lines make the rows of all the lines, the kinds in the order
  -- of the calls and the lines of a kind in their order, and empty the queue.
  pub reconnection_stores_all :
      (link : Link) (fd : ℕ) (a : Answers) (temp : ℕ → List ℕ) (emptied : ℕ → Bool) (ls : List Line)
      (rs : List (List ℕ × Calls)) (s : Sender) (sv : Server) (tp : TaskQueue) (fd' : ℕ)
      → All (IsStorable json) ls
      → All (λ l. length (printed json l) < 499) ls
      → Pairwise Loses ls rs
      → ((k : Kind) → CanReplay (file_of k s.files) (of_kind k ls))
      → LetsIn fd a
      → ((i : ℕ) → c_str (temp i) ≡ ok [])
      → ((i : ℕ) → emptied i ≡ true)
      → IsValid tp
      → Holds tp []
      → length ls < tp.task_queue_size
      → (t : Sender) × (send_rounds json rs s ≡ ok t)
        × (t.tcp ≡ s.tcp)
        × (r : Replayed) × (relogin_round link a temp emptied t.files
            ≡ ok (
              relogin_num,
              record link { sockfd = some fd; open_fds = fd ∷ link.open_fds },
              r,
              empty_files,
            ))
        × (tq : TaskQueue) × (dispatch_all sv tp (arrivals fd' (resent_msgs r)) ≡ ok (sv, tq))
        × (left : TaskQueue) × (turns json (length ls) tq
            ≡ some (ok (map (λ l. some (row l)) (by_kind ls), left)))
        × Holds left []
  reconnection_stores_all link fd a temp emptied ls rs s sv tp fd' good short loses ready lets clean
        all valid held room =
      let (t, runs, tcp, stored) = files_stored ls rs s good short loses ready in
      let m = stored Kind.mem (temp 0) (clean 0) in
      let c = stored Kind.cpu (temp 1) (clean 1) in
      let d = stored Kind.disk (temp 2) (clean 2) in
      let y = stored Kind.sys (temp 3) (clean 3) in
      let r : Replayed = record { mem = m.texts; cpu = c.texts; disk = d.texts; sys = y.texts } in
      let many : length (resent_msgs r) ≡ length ls =
        omega (arith, length-resent_msgs r, m.number, c.number, d.number, y.number, counts ls) in
      let (tq, queued, holds, ends) =
        data_dispatched fd' (resent_msgs r) [] sv tp valid held (resent_msgs-data r)
          (omega (arith, room, many)) in
      let (left, run, none_left, ok_left) = turns-Holds json (resent_msgs r) tq ends holds in
      (
        t,
        runs,
        tcp,
        r,
        relogin_replays link fd a temp emptied t.files r lets (
            replays temp emptied t.files m.texts c.texts d.texts y.texts all m.taken c.taken d.taken
              y.taken),
        tq,
        queued,
        left,
        ap (λ n. turns json n tq) (sym many)
            ∙ run
            ∙ ap (λ x. some (x >>= λ xs. ok (xs, left)))
                (all_dealt json ls r m.dealt c.dealt d.dealt y.dealt),
        none_left,
      )
