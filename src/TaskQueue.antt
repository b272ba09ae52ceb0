-- ===== src/TaskQueue.antt =====
-- server/thread_pool/thread_poll.cpp: the ring buffer between the dispatcher and the workers.
-- A call that holds `task_lock` is one step; `TaskQueue.Workers` interleaves such steps.
pub mod Bounds
mod Indices
pub mod Fifo
pub mod Calls
pub mod Slots
pub mod Workers
mod Tests
use monitor_system.Base.{
  ℕ, ◌+◌, ◌-◌, ◌%◌, Bool, List, [], ◌∷◌, Option, none, some, set, get_elem?, length, if◌then◌else◌,
  ◌==◌, ℤ, pos, negsuc, inc, dec, Exec, ok, stop, division_by_zero, out_of_bounds,
}
use monitor_system.Message.{Msg}

-- `struct task_queue`, less the mutex and the condition variable. `slots` is the array `data`.
pub record TaskQueue : Type 0 where
  pub slots : List Msg
  pub task_queue_size : ℕ
  pub head : ℕ
  pub tail : ℕ
  pub cur_num : ℤ

-- `task_queue_init`: `allocated` is what `malloc` returns for `data`, with whatever it holds.
pub task_queue_init : ℕ → List Msg → TaskQueue
task_queue_init task_queue_size allocated = record {
  slots = allocated;
  task_queue_size = task_queue_size;
  head = 0;
  tail = 0;
  cur_num = pos 0;
}

pub is_empty : TaskQueue → Bool
is_empty tp = tp.head == tp.tail

-- `length` of the source; `-` is written last, so that no difference falls below 0.
unfoldable pub queue_length : TaskQueue → ℕ
queue_length tp = (tp.tail + tp.task_queue_size - tp.head) % tp.task_queue_size

-- The index after `i`, round the array.
abbrev pub next_slot : TaskQueue → ℕ → ℕ
next_slot tp i = (i + 1) % tp.task_queue_size

-- `push`: -1 and no change on a full queue, else 1 (and then the broadcast).
unfoldable pub push : TaskQueue → Msg → Exec (ℤ × TaskQueue)
push tp msg =
    if tp.task_queue_size == 0
    then stop division_by_zero
    else (if tp.head == next_slot tp tp.tail
        then ok (negsuc 0, tp)
        else ok (
          pos 1,
          record tp {
            slots = set tp.slots tp.tail msg;
            cur_num = inc tp.cur_num;
            tail = next_slot tp tp.tail;
          },
        ))

-- `pop`: `none` where the caller waits on `task_cond`. It returns a pointer into `data`, that is,
-- the index of the slot, and unlocks: the caller reads the slot later, with `read_slot`.
unfoldable pub pop : TaskQueue → Option (ℕ × TaskQueue)
unfolding is_empty
pop tp =
    if is_empty tp
    then none
    else some (tp.head, record tp { cur_num = dec tp.cur_num; head = next_slot tp tp.head })

-- `*msg` for the pointer that `pop` returned.
pub read_slot : TaskQueue → ℕ → Option Msg
read_slot tp i = get_elem? tp.slots i

-- What `clear` gives back.
pub data Resource : Type 0 where
  task_cond task_lock slot_array queue : Resource

-- `clear`: it destroys and frees these, in this order; nothing for a null pointer.
unfoldable pub clear : Option TaskQueue → List Resource
clear none = []
clear (some tp) = task_cond ∷ task_lock ∷ slot_array ∷ queue ∷ []
