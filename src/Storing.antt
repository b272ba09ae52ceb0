-- ===== src/Storing.antt =====
-- server/server_func.cpp, `deal_with_monitor_msg` and `do_task`: the workers, which turn each message
-- into an INSERT statement. cJSON is the parameter `json`; the statement handed to `mysql_real_query` is
-- the result, since its answer is only reported.
pub mod Query
pub mod Worker
pub mod Turns
mod Tests
use monitor_system.Base.{
  ℕ, List, [], ◌∷◌, map, Option, none, some, codes, ◌==◌, if◌then◌else◌, Exec, ok, stop,
  null_pointer, ◌>>=◌, c_str, strcat_all,
}
use monitor_system.Message.{Msg, sys_mem, sys_cpu, sys_disk, sys_sys}
use monitor_system.Json.{Cjson}

-- A branch of `deal_with_monitor_msg`: the start of its statement, and the members that it asks for,
-- in the order of the columns.
pub record Table : Type 0 where
  pub insert : List ℕ
  pub columns : List (List ℕ)

abbrev pub mem_table : Table
mem_table = record {
  insert =
      codes
        "INSERT INTO monitor_mem_data (now_time, total_mem_value, left_mem_value, mem_usage_rate, mem_prediction_rate) VALUES ('";
  columns =
      codes "now_time"
      ∷ codes "total_mem_value"
      ∷ codes "left_mem_value"
      ∷ codes "mem_usage_rate"
      ∷ codes "mem_prediction_rate"
      ∷ [];
}

abbrev pub cpu_table : Table
cpu_table = record {
  insert =
      codes
        "INSERT INTO monitor_cpu_data (now_time, load_avg_1, load_avg_2, load_avg_3, utilization, temperature, warning) VALUES ('";
  columns =
      codes "now_time"
      ∷ codes "load_avg_1"
      ∷ codes "load_avg_2"
      ∷ codes "load_avg_3"
      ∷ codes "utilization"
      ∷ codes "temperature"
      ∷ codes "warning"
      ∷ [];
}

abbrev pub disk_table : Table
disk_table = record {
  insert =
      codes
        "INSERT INTO monitor_disk_data (now_time, disk_size, used_space, avail_space, utilization) VALUES ('";
  columns =
      codes "now_time"
      ∷ codes "disk_size"
      ∷ codes "used_space"
      ∷ codes "avail_space"
      ∷ codes "utilization"
      ∷ [];
}

abbrev pub sys_table : Table
sys_table = record {
  insert =
      codes
        "INSERT INTO monitor_sys_data (now_time, hostname, os_version, kernel_version, running_time, load_avg_1, load_avg_2, load_avg_3, disk_size, disk_utilization, mem_size, mem_utilization, disk_stat, mem_stat, cpu_stat) VALUES ('";
  columns =
      codes "now_time"
      ∷ codes "hostname"
      ∷ codes "os_version"
      ∷ codes "kernel_version"
      ∷ codes "running_time"
      ∷ codes "load_avg_1"
      ∷ codes "load_avg_2"
      ∷ codes "load_avg_3"
      ∷ codes "disk_size"
      ∷ codes "disk_utilization"
      ∷ codes "mem_size"
      ∷ codes "mem_utilization"
      ∷ codes "disk_stat"
      ∷ codes "mem_stat"
      ∷ codes "cpu_stat"
      ∷ [];
}

-- The tests on `msg->type`.
unfoldable pub table_of : ℕ → Option Table
table_of type =
    if type == sys_mem
    then some mem_table
    else (if type == sys_cpu
        then some cpu_table
        else (if type == sys_disk
            then some disk_table
            else (if type == sys_sys then some sys_table else none)))

-- `char sql[500]`
abbrev pub sql_size : ℕ
sql_size = 500

-- The string that `strcat` reads.
abbrev pub text_in : Option (List ℕ) → Exec (List ℕ)
text_in none = stop null_pointer
text_in (some v) = ok v

module _ (json : Cjson) where
  open json use {Item, parse, get_object_item, valuestring}

  -- `item->valuestring`
  abbrev pub value_of : Option Item → Exec (List ℕ)
  value_of none = stop null_pointer
  value_of (some i) = text_in (valuestring i)

  -- The second arguments of the `strcat` calls behind the first.
  abbrev pub arguments : List (Option Item) → List (Exec (List ℕ))
  arguments [] = []
  arguments (i ∷ []) = value_of i ∷ ok (codes "')") ∷ []
  arguments (i ∷ j ∷ is) = value_of i ∷ ok (codes "', '") ∷ arguments (j ∷ is)

  -- One branch, on the string in `msg->buff`.
  unfoldable pub statement : Table → List ℕ → Exec (List ℕ)
  statement t text =
      strcat_all sql_size []
        (ok t.insert ∷ arguments (map (get_object_item (parse text)) t.columns))

  abbrev pub in_branch : Option Table → List ℕ → Exec (Option (List ℕ))
  in_branch none buff = ok none
  in_branch (some t) buff = c_str buff >>= λ text. statement t text >>= λ sql. ok (some sql)

  -- `deal_with_monitor_msg`: the statement, or `none` for a message of another type.
  unfoldable pub deal_with_monitor_msg : Msg → Exec (Option (List ℕ))
  unfolding table_of
  deal_with_monitor_msg msg = in_branch (table_of msg.type) msg.buff
