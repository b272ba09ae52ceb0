-- ===== src/Pipeline/Tests.antt =====
-- Lines of the scripts, sent and stored.
use monitor_system.Base.{
  ℕ, ◌≡◌, refl, List, [], ◌∷◌, ◌++◌, none, some, codes, replicate, arith, ok, true, inl, inr,
}
use monitor_system.Message.{Msg, sys_mem, sys_sys}
use monitor_system.Json.{build_from, find}
use monitor_system.Json.Plain.{plain, plain-IsLawful}
use monitor_system.Offline.{newline}
use monitor_system.Storing.{deal_with_monitor_msg}
use monitor_system.Encode.{Kind, kind_of, is_urgent}
use monitor_system.Encode.Words.{fields}
use monitor_system.Encode.Deliver.{Sender, Calls, send_data_to_server}
use monitor_system.Pipeline.Stored.{line_stored}
use monitor_system.Pipeline.Urgent.{Front, warning, warning_only_by_udp}
use monitor_system.Base.{pos, map}
use monitor_system.TaskQueue.{TaskQueue, queue_length}
use monitor_system.TaskQueue.Bounds.{IsValid}
use monitor_system.TaskQueue.Fifo.{Holds}
use monitor_system.Server.{Server}
use monitor_system.Server.Dispatch.{dispatch_all}
use monitor_system.Storing.Turns.{turns}
use monitor_system.Collect.{check_data}
use monitor_system.Collect.Queued.{Texts, printed, all_taken}
use monitor_system.Encode.Effects.{send_rounds}
use monitor_system.Pipeline.Batch.{Line, row, arrivals}
use monitor_system.Pipeline.Collected.{Lines, four, rounds, collected_round_stored}

abbrev message : ℕ → List ℕ → Msg
message type line = record { type = type; buff = line ++ (newline ∷ 0 ∷ []) }

abbrev fresh : Sender
fresh = record {
  check_for_relogin = 3;
  signals = 0;
  files = record { mem = none; cpu = none; disk = none; sys = none };
  tcp = [];
  udp = [];
}

abbrev calls : Msg → Calls
calls m = record { received = some m; sent = true; opened = true; written = true }

abbrev mem_line : Msg
mem_line = message sys_mem (codes "2021-12-13 10:00:00 7821M 3012M 38.51% 47.70%")

line_stored_example :
    (msg : Msg) × (send_data_to_server plain (replicate 500 0) (calls mem_line) fresh
      ≡ ok (record fresh { tcp = msg ∷ [] }))
    × (deal_with_monitor_msg plain msg
        ≡ ok (
            some (
              codes
                "INSERT INTO monitor_mem_data (now_time, total_mem_value, left_mem_value, mem_usage_rate, mem_prediction_rate) VALUES ('2021-12-13 10:00:00', '7821M', '3012M', '38.51%', '47.70%')")))
unfolding fields kind_of is_urgent build_from
line_stored_example =
    line_stored plain plain-IsLawful Kind.mem (codes "2021-12-13") (codes "10:00:00")
      (codes "7821M" ∷ codes "3012M" ∷ codes "38.51%" ∷ codes "47.70%" ∷ []) mem_line
      (replicate 500 0) (calls mem_line) fresh
      (record {
        kind = refl;
        text = codes "2021-12-13 10:00:00 7821M 3012M 38.51% 47.70%" ++ (newline ∷ []);
        read = refl;
        split = refl;
        complete = refl;
        short_time = omega arith;
      })
      refl refl refl (omega arith)

abbrev front : Front
front = record {
  hostname = codes "a";
  os_version = codes "b";
  kernel_version = codes "c";
  running_time = codes "e";
  load_avg_1 = codes "f";
  load_avg_2 = codes "g";
  load_avg_3 = codes "i";
  disk_size = codes "j";
  disk_utilization = codes "k";
  mem_size = codes "l";
  mem_utilization = codes "m";
}

abbrev sys_line : Msg
sys_line = message sys_sys (codes "d h a b c e f g i j k l m normal warning note")

warning_only_by_udp_example :
    (msg : Msg) × (msg.type ≡ sys_sys)
    × (send_data_to_server plain (replicate 500 0) (calls sys_line) fresh
        ≡ ok (record fresh { udp = msg ∷ [] }))
unfolding fields kind_of build_from
warning_only_by_udp_example =
    warning_only_by_udp plain plain-IsLawful sys_line (replicate 500 0) (calls sys_line) fresh
      (codes "d") (codes "h") front (codes "normal") warning (codes "note")
      (record {
        kind = refl;
        text = codes "d h a b c e f g i j k l m normal warning note" ++ (newline ∷ []);
        read = refl;
        split = refl;
        complete = refl;
        short_time = omega arith;
      })
      refl (inr (inl refl)) (omega arith)

abbrev line_of : Kind → List (List ℕ) → Line
line_of k ws = record { kind = k; day = codes "2021-12-13"; hour = codes "10:00:00"; rest = ws }

abbrev lines : Lines
lines = record {
  mem = line_of Kind.mem (codes "7821M" ∷ codes "3012M" ∷ codes "38.51%" ∷ codes "47.70%" ∷ []);
  cpu = line_of Kind.cpu (
      codes "0.32"
      ∷ codes "0.25"
      ∷ codes "0.20"
      ∷ codes "12.50%"
      ∷ codes "45.00"
      ∷ codes "normal"
      ∷ []);
  disk = line_of Kind.disk (codes "40G" ∷ codes "12G" ∷ codes "26G" ∷ codes "32%" ∷ []);
  sys = line_of Kind.sys (
      codes "a"
      ∷ codes "b"
      ∷ codes "c"
      ∷ codes "e"
      ∷ codes "f"
      ∷ codes "g"
      ∷ codes "i"
      ∷ codes "j"
      ∷ codes "k"
      ∷ codes "l"
      ∷ codes "m"
      ∷ codes "normal"
      ∷ codes "normal"
      ∷ codes "note"
      ∷ []);
}

abbrev texts : Texts
texts = record {
  mem = codes "2021-12-13 10:00:00 7821M 3012M 38.51% 47.70%" ++ (newline ∷ []);
  cpu = codes "2021-12-13 10:00:00 0.32 0.25 0.20 12.50% 45.00 normal" ++ (newline ∷ []);
  disk = codes "2021-12-13 10:00:00 40G 12G 26G 32%" ++ (newline ∷ []);
  sys = codes "2021-12-13 10:00:00 a b c e f g i j k l m normal normal note" ++ (newline ∷ []);
}

abbrev queue : TaskQueue
queue = record {
  slots = replicate 5 (message 0 []);
  task_queue_size = 5;
  head = 3;
  tail = 3;
  cur_num = pos 0;
}

queue-IsValid : IsValid queue
unfolding queue_length
queue-IsValid = record {
  positive = omega arith;
  storage = refl;
  head_in = omega arith;
  tail_in = omega arith;
  counted = refl;
}

abbrev server : Server
server = record {
  token = codes "6789";
  clients = [];
  reactor = 7 ∷ [];
  open_fds = 7 ∷ [];
  sent = [];
}

collected_round_stored_example :
    (collected : List Msg) × (check_data (printed texts) all_taken (replicate 500 7) []
      ≡ ok collected)
    × (out : List Msg) × (send_rounds plain (rounds (λ i. replicate 500 i) 0 collected) fresh
        ≡ ok (record fresh { tcp = out }))
    × (tq : TaskQueue) × (dispatch_all server queue (arrivals 7 out) ≡ ok (server, tq))
    × (left : TaskQueue) × (turns plain 4 tq
        ≡ some (ok (map (λ l. some (row l)) (four lines), left)))
    × Holds left []
unfolding fields is_urgent build_from queue_length find
collected_round_stored_example =
    collected_round_stored plain plain-IsLawful texts lines (replicate 500 7) (λ i. replicate 500 i)
      7 fresh server queue
      (record { mem = omega arith; cpu = omega arith; disk = omega arith; sys = omega arith }) refl
      ((refl, refl), (refl, refl), (refl, refl), (refl, refl))
      (
        record {
          complete = refl;
          short_time = omega arith;
          calm = refl;
          small = omega arith;
          fits = omega arith;
        },
        (
          record {
            complete = refl;
            short_time = omega arith;
            calm = refl;
            small = omega arith;
            fits = omega arith;
          },
          (
            record {
              complete = refl;
              short_time = omega arith;
              calm = refl;
              small = omega arith;
              fits = omega arith;
            },
            (
              record {
                complete = refl;
                short_time = omega arith;
                calm = refl;
                small = omega arith;
                fits = omega arith;
              },
              tt,
            ),
          ),
        ),
      )
      refl (λ i. refl) queue-IsValid refl (omega arith)
