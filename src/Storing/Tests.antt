-- ===== src/Storing/Tests.antt =====
-- The workers on concrete inputs, with the concrete store of strings for cJSON.
use monitor_system.Base.{
  ℕ, ◌≡◌, refl, List, [], ◌∷◌, ◌++◌, none, some, codes, replicate, arith, ok, stop, null_pointer,
  strcat_all,
}
use monitor_system.Message.{Msg, sys_mem, sys_disk, pi_ack}
use monitor_system.Json.{find}
use monitor_system.Json.Plain.{plain, obj}
use monitor_system.Storing.{mem_table, table_of, statement, deal_with_monitor_msg}
use monitor_system.Storing.Query.{missing_column_crashes}

-- A text that parses to an object with one member.
abbrev partial : List ℕ
partial = plain.print (obj ((codes "now_time", some (codes "10:00")) ∷ []))

abbrev message : Msg
message = record { type = sys_mem; buff = partial ++ replicate 100 0 }

missing_column_crashes_example : deal_with_monitor_msg plain message ≡ stop null_pointer
unfolding table_of find
missing_column_crashes_example =
    missing_column_crashes plain message mem_table partial (codes "total_mem_value")
      (codes "now_time" ∷ [])
      (codes "left_mem_value" ∷ codes "mem_usage_rate" ∷ codes "mem_prediction_rate" ∷ [])
      (codes "10:00" ∷ []) refl refl refl (refl, tt) refl (omega arith)

-- A message of another type is left alone.
other_type : deal_with_monitor_msg plain (record { type = pi_ack; buff = [] }) ≡ ok none
unfolding deal_with_monitor_msg
other_type = refl

abbrev disk_text : List ℕ → List ℕ
disk_text used = plain.print (
    obj (
      (codes "now_time", some (codes "10:00"))
      ∷ (codes "disk_size", some (codes "9"))
      ∷ (codes "used_space", some used)
      ∷ (codes "avail_space", some (codes "5"))
      ∷ (codes "utilization", some (codes "44%"))
      ∷ []))

-- A quote in a value ends the SQL text there.
quote_in_value :
    deal_with_monitor_msg plain
      (record { type = sys_disk; buff = disk_text (codes "4'), ('x") ++ (0 ∷ []) })
    ≡ ok (
        some (
          codes
            "INSERT INTO monitor_disk_data (now_time, disk_size, used_space, avail_space, utilization) VALUES ('10:00', '9', '4'), ('x', '5', '44%')"))
unfolding deal_with_monitor_msg statement strcat_all find
quote_in_value = refl
