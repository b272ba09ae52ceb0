-- ===== src/Encode/Tests.antt =====
-- The sending thread on concrete inputs.
use monitor_system.Base.{
  ℕ, ◌≡◌, refl, ok, arith, List, [], ◌∷◌, ◌++◌, ◌+◌, ◌-◌, none, some, codes, replicate, true, false,
  write_str,
}
use monitor_system.Message.{Msg, sys_mem, sys_cpu}
use monitor_system.Json.{build}
use monitor_system.Json.Plain.{plain, obj}
use monitor_system.Offline.{newline, persist}
use monitor_system.Reconnect.{Files, try_to_relogin}
use monitor_system.Encode.{Kind, kind_of, strtok, now_time, add_words, object_of, is_urgent}
use monitor_system.Encode.Words.{fields}
use monitor_system.Encode.Object.{record_of, object_of-words}
use monitor_system.Encode.Deliver.{Sender, Calls, send_data_to_server}
use monitor_system.Encode.Effects.{send_rounds}
use monitor_system.Encode.Failures.{mem_failures, failures_counted}

abbrev message : ℕ → List ℕ → Msg
message type line = record { type = type; buff = line ++ (newline ∷ replicate 10 0) }

abbrev no_files : Files
no_files = record { mem = none; cpu = none; disk = none; sys = none }

abbrev fresh : Sender
fresh = record { check_for_relogin = 3; signals = 0; files = no_files; tcp = []; udp = [] }

abbrev unsent : Msg → Calls
unsent m = record { received = some m; sent = false; opened = true; written = true }

abbrev mem_line : Msg
mem_line = message sys_mem (codes "d h 1 2 3 4")

-- The text that the line is printed as.
abbrev mem_text : List ℕ
mem_text = plain.print (
    obj (
      (codes "now_time", some (codes "d h"))
      ∷ (codes "total_mem_value", some (codes "1"))
      ∷ (codes "left_mem_value", some (codes "2"))
      ∷ (codes "mem_usage_rate", some (codes "3"))
      ∷ (codes "mem_prediction_rate", some (codes "4"))
      ∷ []))

abbrev after_mem : Sender
after_mem = record fresh {
  check_for_relogin = 2;
  files = record no_files { mem = some (mem_text ++ (newline ∷ [])) };
}

abbrev cpu_line : Msg
cpu_line = message sys_cpu (codes "d h 1 2 3 4 5 normal")

abbrev cpu_text : List ℕ
cpu_text = plain.print (
    obj (
      (codes "now_time", some (codes "d h"))
      ∷ (codes "load_avg_1", some (codes "1"))
      ∷ (codes "load_avg_2", some (codes "2"))
      ∷ (codes "load_avg_3", some (codes "3"))
      ∷ (codes "utilization", some (codes "4"))
      ∷ (codes "temperature", some (codes "5"))
      ∷ (codes "warning", some (codes "normal"))
      ∷ []))

abbrev lost_mem_cpu_mem : List (List ℕ × Calls)
lost_mem_cpu_mem =
    (replicate 500 0, unsent mem_line)
    ∷ (replicate 500 0, unsent cpu_line)
    ∷ (replicate 500 0, unsent mem_line)
    ∷ []

abbrev last_chance : Sender
last_chance = record fresh { check_for_relogin = 1 }

-- The second failure finds the counter at 0.
abbrev signalled : Sender
signalled = record last_chance {
  check_for_relogin = 0;
  signals = 1;
  files = record no_files {
    mem = some ((mem_text ++ (newline ∷ [])) ++ (mem_text ++ (newline ∷ [])));
    cpu = some (cpu_text ++ (newline ∷ []));
  };
}

failures_counted_example : (signalled.check_for_relogin ≡ 1 - 2) × (signalled.signals ≡ 0 + (2 - 1))
unfolding send_rounds send_data_to_server object_of now_time strtok add_words write_str is_urgent
    persist kind_of mem_failures try_to_relogin
failures_counted_example = failures_counted plain lost_mem_cpu_mem last_chance signalled refl

-- Two blanks in front, and no word for the last two names.
abbrev spread_mem : List ℕ
spread_mem = codes "  d h  1 2" ++ (newline ∷ [])

object_of-words_example :
    object_of plain Kind.mem spread_mem
    ≡ ok (build plain (record_of Kind.mem (codes "d") (codes "h") (codes "1" ∷ codes "2" ∷ [])))
unfolding fields
object_of-words_example =
    object_of-words plain Kind.mem spread_mem (codes "d") (codes "h") (codes "1" ∷ codes "2" ∷ [])
      refl (omega arith)
