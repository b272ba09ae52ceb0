-- ===== src/Pipeline/Collected.antt =====
-- One round of the collecting thread, all the way from the scripts to the database.
use monitor_system.Base.{
  ℕ, suc, ◌<◌, ◌≡◌, refl, sym, ap, ◌∙◌, true, List, [], ◌∷◌, ◌++◌, some, All, length, ok,
}
use monitor_system.Message.{Msg}
use monitor_system.Json.{Cjson, IsLawful}
use monitor_system.TaskQueue.{TaskQueue}
use monitor_system.TaskQueue.Bounds.{IsValid}
use monitor_system.TaskQueue.Fifo.{Holds}
use monitor_system.Server.{Server}
use monitor_system.Server.Dispatch.{dispatch_all}
use monitor_system.Storing.Turns.{turns}
use monitor_system.Collect.{check_data}
use monitor_system.Collect.Queued.{Texts, AllPrint, Carries, printed, all_taken, fits, round_queues}
use monitor_system.Encode.{Kind, kind_of, type_of}
use monitor_system.Encode.Words.{words}
use monitor_system.Encode.Deliver.{Sender, Calls}
use monitor_system.Encode.Effects.{send_rounds}
use monitor_system.Pipeline.Batch.{Line, IsStorable, Sends, row, arrivals, lines_stored}

-- The round of the sending thread that receives `m`, and whose `send` succeeds.
abbrev pub receives : Msg → Calls
receives m = record { received = some m; sent = true; opened = true; written = true }

-- The rounds that receive the messages of a queue, from the `i`-th on. `old i` is what the array of
-- the `i`-th holds.
abbrev pub rounds : (ℕ → List ℕ) → ℕ → List Msg → List (List ℕ × Calls)
rounds old i [] = []
rounds old i (m ∷ ms) = (old i, receives m) ∷ rounds old (suc i) ms

-- The script for `k` prints the line `l`.
abbrev pub Reports : Kind → Line → List ℕ → Type 0
Reports k l text = (l.kind ≡ k) × (words text ≡ l.day ∷ l.hour ∷ l.rest)

-- The four lines of a round.
pub record Lines : Type 0 where
  pub mem : Line
  pub cpu : Line
  pub disk : Line
  pub sys : Line

abbrev pub four : Lines → List Line
four ls = ls.mem ∷ ls.cpu ∷ ls.disk ∷ ls.sys ∷ []

abbrev pub AllReport : Lines → Texts → Type 0
AllReport ls t =
    Reports Kind.mem ls.mem t.mem
    × Reports Kind.cpu ls.cpu t.cpu
    × Reports Kind.disk ls.disk t.disk
    × Reports Kind.sys ls.sys t.sys

kind_of-type_of : (k : Kind) → kind_of (type_of k) ≡ some k
unfolding kind_of
kind_of-type_of Kind.mem = refl
kind_of-type_of Kind.cpu = refl
kind_of-type_of Kind.disk = refl
kind_of-type_of Kind.sys = refl

receives-Sends :
    (json : Cjson) (k : Kind) (l : Line) (text old : List ℕ) (m : Msg)
    → Reports k l text
    → IsStorable json l
    → Carries (type_of k) text m
    → length old ≡ 500
    → Sends l (old, receives m)
receives-Sends json k l text old m (kind, split) good c size = record {
  message = m;
  received = refl;
  sent = refl;
  array = size;
  line = record {
    kind = ap kind_of c.type_set ∙ kind_of-type_of k ∙ ap some (sym kind);
    text = text;
    read = c.text;
    split = split;
    complete = good.complete;
    short_time = good.short_time;
  };
}

-- With a lawful cJSON, one round of the client's scripts is stored: if each script prints a storable
-- line of its kind that leaves room for a NUL in its buffer, the collecting thread queues four
-- messages, the sending thread sends the four to the server, the dispatcher puts them into a task
-- queue with room for them, and four turns of the workers make the four rows, memory, processor, disk
-- and system, and leave the queue empty.
pub collected_round_stored :
    (json : Cjson) (law : IsLawful json) (t : Texts) (ls : Lines) (buff : List ℕ) (old : ℕ → List ℕ)
    (fd : ℕ) (s : Sender) (sv : Server) (tp : TaskQueue)
    → AllPrint t
    → fits t ≡ true
    → AllReport ls t
    → All (IsStorable json) (four ls)
    → length buff ≡ 500
    → ((i : ℕ) → length (old i) ≡ 500)
    → IsValid tp
    → Holds tp []
    → 4 < tp.task_queue_size
    → (queue : List Msg) × (check_data (printed t) all_taken buff [] ≡ ok queue)
      × (out : List Msg) × (send_rounds json (rounds old 0 queue) s
          ≡ ok (record s { tcp = s.tcp ++ out }))
      × (tq : TaskQueue) × (dispatch_all sv tp (arrivals fd out) ≡ ok (sv, tq))
      × (left : TaskQueue) × (turns json 4 tq
          ≡ some (
              ok (
                some (row ls.mem) ∷ some (row ls.cpu) ∷ some (row ls.disk) ∷ some (row ls.sys) ∷ [],
                left,
              )))
      × Holds left []
collected_round_stored json law t ls buff old fd s sv tp prints small (rm, rc, rd, rs) good size
      sizes v h room =
    let (m, c, d, y, collected, cm, cc', cd, cy) = round_queues t buff [] prints small size in
    let (gm, (gc, (gd, (gy, none_left)))) = good in
    let (out, sent, tq, queued, left, stored, empty) =
      lines_stored json law fd (four ls) (rounds old 0 (m ∷ c ∷ d ∷ y ∷ [])) s sv tp good
        (
          receives-Sends json Kind.mem ls.mem t.mem (old 0) m rm gm cm (sizes 0),
          (
            receives-Sends json Kind.cpu ls.cpu t.cpu (old 1) c rc gc cc' (sizes 1),
            (
              receives-Sends json Kind.disk ls.disk t.disk (old 2) d rd gd cd (sizes 2),
              (receives-Sends json Kind.sys ls.sys t.sys (old 3) y rs gy cy (sizes 3), tt),
            ),
          ),
        )
        v h room in
    (m ∷ c ∷ d ∷ y ∷ [], collected, out, sent, tq, queued, left, stored, empty)
