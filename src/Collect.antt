-- ===== src/Collect.antt =====
-- client/collect_local_data.cpp, and `check_data_and_send_to_msg_queue` of
-- client/send_data_to_server.cpp: what the scripts print goes into four buffers, and from there into
-- the message queue of the system.
pub mod Queued
mod Tests
use monitor_system.Base.{
  ℕ, ◌-◌, List, [], ◌∷◌, ◌++◌, Option, none, some, Bool, length, take, replicate, ◌==◌,
  if◌then◌else◌, Exec, ok, stop, exits, ◌>>=◌, c_str, write_str,
}
use monitor_system.Message.{Msg, sys_mem, sys_cpu, sys_disk, sys_sys}

-- `check_for_…` with its buffer of `size` bytes, set to 0 and filled by `fread`: `output` is what the
-- script prints, or `none` if `popen` fails.
unfoldable pub check_for : ℕ → Option (List ℕ) → Exec (List ℕ)
check_for size none = stop exits
check_for size (some output) =
    if length (take size output) == 0
    then stop exits
    else ok (take size output ++ replicate (size - length output) 0)

abbrev pub check_for_mem : Option (List ℕ) → Exec (List ℕ)
check_for_mem output = check_for 100 output

abbrev pub check_for_cpu : Option (List ℕ) → Exec (List ℕ)
check_for_cpu output = check_for 100 output

abbrev pub check_for_disk : Option (List ℕ) → Exec (List ℕ)
check_for_disk output = check_for 100 output

abbrev pub check_for_sys : Option (List ℕ) → Exec (List ℕ)
check_for_sys output = check_for 200 output

-- What the scripts print in one round, and whether each `msgsnd` succeeds.
pub record Outputs : Type 0 where
  pub mem : Option (List ℕ)
  pub cpu : Option (List ℕ)
  pub disk : Option (List ℕ)
  pub sys : Option (List ℕ)

pub record Queues : Type 0 where
  pub mem : Bool
  pub cpu : Bool
  pub disk : Bool
  pub sys : Bool

-- `msg.type = …; strcpy(msg.buff, …); msgsnd(…)`. `buff` is what the array held, the queue has the
-- oldest message first.
unfoldable pub enqueue : ℕ → List ℕ → Bool → List ℕ → List Msg → Exec (List ℕ × List Msg)
enqueue type source taken buff queue = c_str source >>= λ text. write_str buff text >>= λ filled.
    if taken then ok (filled, queue ++ (record { type = type; buff = filled } ∷ [])) else stop exits

-- One round of the loop. `buff` is what the uninitialised array of `msg` holds.
unfoldable pub check_data : Outputs → Queues → List ℕ → List Msg → Exec (List Msg)
check_data out taken buff queue = check_for_mem out.mem >>= λ mem_buf.
    check_for_disk out.disk >>= λ disk_buf. check_for_cpu out.cpu >>= λ cpu_buf.
    check_for_sys out.sys >>= λ sys_buf. enqueue sys_mem mem_buf taken.mem buff queue >>= λ m.
    enqueue sys_cpu cpu_buf taken.cpu m.0 m.1 >>= λ c.
    enqueue sys_disk disk_buf taken.disk c.0 c.1 >>= λ d.
    enqueue sys_sys sys_buf taken.sys d.0 d.1 >>= λ s. ok s.1
