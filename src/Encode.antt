-- ===== src/Encode.antt =====
-- client/send_data_to_server.cpp, `send_data_to_server`: a message from the queue is split into words,
-- made into a JSON object, and sent. cJSON is the parameter `json`.
pub mod Words
pub mod Object
pub mod Deliver
pub mod Effects
pub mod Failures
mod Tests
use monitor_system.Base.{
  ℕ, zero, suc, ◌+◌, List, [], ◌∷◌, ◌++◌, Option, none, some, Bool, true, false, ◌||◌, codes,
  length, ◌==◌, if◌then◌else◌, Exec, ok, stop, exits, null_pointer, ◌>>=◌, c_str, strcpy, strcat,
  str_eq, write_str,
}
use monitor_system.Message.{Msg, sys_mem, sys_cpu, sys_disk, sys_sys}
use monitor_system.Json.{Cjson}
use monitor_system.Offline.{persist}
use monitor_system.Reconnect.{Files, try_to_relogin}

-- `const char *delim = " \n"`
abbrev pub is_delim : ℕ → Bool
is_delim b = b == 32 || b == 10

unfoldable pub skip_delims : List ℕ → List ℕ
skip_delims [] = []
skip_delims (b ∷ s) = let rest = skip_delims s in if is_delim b then rest else b ∷ s

-- The word at the start, and what stands behind its delimiter.
unfoldable pub split_word : List ℕ → List ℕ × List ℕ
split_word [] = ([], [])
split_word (b ∷ s) = let r = split_word s in if is_delim b then ([], s) else (b ∷ r.0, r.1)

abbrev pub first_word : List ℕ → Option (List ℕ) × List ℕ
first_word [] = (none, [])
first_word (b ∷ s) = let r = split_word (b ∷ s) in (some r.0, r.1)

-- `strtok(…, delim)`: the next word, or `none` for the null pointer, and where the next call goes on.
unfoldable pub strtok : List ℕ → Option (List ℕ) × List ℕ
unfolding skip_delims split_word
strtok s = first_word (skip_delims s)

-- The four branches of the loop.
pub data Kind : Type 0 where
  mem cpu disk sys : Kind

-- The names of the values behind `now_time`, in the order of the words.
abbrev pub names : Kind → List (List ℕ)
names mem =
    codes "total_mem_value"
    ∷ codes "left_mem_value"
    ∷ codes "mem_usage_rate"
    ∷ codes "mem_prediction_rate"
    ∷ []
names cpu =
    codes "load_avg_1"
    ∷ codes "load_avg_2"
    ∷ codes "load_avg_3"
    ∷ codes "utilization"
    ∷ codes "temperature"
    ∷ codes "warning"
    ∷ []
names disk = codes "disk_size" ∷ codes "used_space" ∷ codes "avail_space" ∷ codes "utilization" ∷ []
names sys =
    codes "hostname"
    ∷ codes "os_version"
    ∷ codes "kernel_version"
    ∷ codes "running_time"
    ∷ codes "load_avg_1"
    ∷ codes "load_avg_2"
    ∷ codes "load_avg_3"
    ∷ codes "disk_size"
    ∷ codes "disk_utilization"
    ∷ codes "mem_size"
    ∷ codes "mem_utilization"
    ∷ codes "disk_stat"
    ∷ codes "mem_stat"
    ∷ codes "cpu_stat"
    ∷ []

abbrev pub type_of : Kind → ℕ
type_of mem = sys_mem
type_of cpu = sys_cpu
type_of disk = sys_disk
type_of sys = sys_sys

-- The tests on `m.type`.
unfoldable pub kind_of : ℕ → Option Kind
kind_of type =
    if type == sys_mem
    then some mem
    else (if type == sys_cpu
        then some cpu
        else (if type == sys_disk then some disk else (if type == sys_sys then some sys else none)))

-- A string handed to `strcpy`, `strcat` or `strcmp`.
abbrev pub followed : Option (List ℕ) → Exec (List ℕ)
followed none = stop null_pointer
followed (some w) = ok w

-- `char now_time[30]`: the first two words with a blank between them, and where `strtok` goes on.
unfoldable pub now_time : List ℕ → Exec (List ℕ × List ℕ)
now_time s =
    let day = strtok s in
    let hour = strtok day.1 in
    followed day.0 >>= λ d. strcpy 30 d >>= λ a.
    strcat 30 a (codes " ") >>= λ b. followed hour.0 >>= λ h. strcat 30 b h >>= λ c. ok (c, hour.1)

module _ (json : Cjson) where
  open json use {Item, create_object, add_string, print, get_object_item, valuestring}

  -- The calls of `cJSON_AddStringToObject` with `strtok(NULL, delim)`.
  unfoldable pub add_words : Item → List (List ℕ) → List ℕ → Item
  add_words o [] s = o
  add_words o (name ∷ more) s = let w = strtok s in add_words (add_string o name w.0) more w.1

  -- The object that a branch builds from the string in `m.buff`.
  unfoldable pub object_of : Kind → List ℕ → Exec Item
  object_of k s = now_time s >>= λ t.
      ok (add_words (add_string create_object (codes "now_time") (some t.0)) (names k) t.1)

  abbrev pub follow_item : Option Item → Exec (List ℕ)
  follow_item none = stop null_pointer
  follow_item (some i) = followed (valuestring i)

  -- `strcmp(item->valuestring, "warning") == 0`
  abbrev pub is_warning : Item → List ℕ → Exec Bool
  is_warning o name =
      follow_item (get_object_item (some o) name) >>= λ v. ok (str_eq v (codes "warning"))

  -- `a || b`: the second test runs if the first fails.
  abbrev pub or_else : Bool → Exec Bool → Exec Bool
  or_else true next = ok true
  or_else false next = next

  -- Whether a branch sends its message by UDP: only for system data with a warning in it.
  unfoldable pub is_urgent : Kind → Item → Exec Bool
  is_urgent mem o = ok false
  is_urgent cpu o = ok false
  is_urgent disk o = ok false
  is_urgent sys o = is_warning o (codes "disk_stat") >>= λ a.
      or_else a
        (is_warning o (codes "mem_stat") >>= λ b. or_else b (is_warning o (codes "cpu_stat")))
