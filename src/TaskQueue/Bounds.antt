-- ===== src/TaskQueue/Bounds.antt =====
-- The representation invariant of `task_queue`: every index in bounds, and the counter exact.
use monitor_system.Base.{
  ℕ, ◌+◌, ◌-◌, ◌<◌, ◌≡◌, List, some, arith, length, length-set, ◌==◌, leb, if◌then◌else◌, ℤ, pos,
  ok, mod_once,
}
use monitor_system.Message.{Msg}
use monitor_system.TaskQueue.{TaskQueue, task_queue_init, queue_length, next_slot, push, pop}

pub record IsValid (tp : TaskQueue) : Type 0 where
  pub positive : 0 < tp.task_queue_size
  pub storage : length tp.slots ≡ tp.task_queue_size
  pub head_in : tp.head < tp.task_queue_size
  pub tail_in : tp.tail < tp.task_queue_size
  pub counted : tp.cur_num ≡ pos (queue_length tp)

pub init-IsValid :
    (n : ℕ) (allocated : List Msg)
    → 0 < n
    → length allocated ≡ n
    → IsValid (task_queue_init n allocated)
unfolding task_queue_init queue_length
init-IsValid n allocated h e = ground (arith, mod_once (0 + n - 0) n)

module _ (tp : TaskQueue) where
  -- The two index computations, with the remainder worked out.
  pub next_slot_lem :
      (i : ℕ)
      → i < tp.task_queue_size
      → next_slot tp i ≡ (if i + 1 == tp.task_queue_size then 0 else i + 1)
  next_slot_lem i h = ground (arith, mod_once (i + 1) tp.task_queue_size)

  pub queue_length_lem :
      tp.head < tp.task_queue_size
      → tp.tail < tp.task_queue_size
      → queue_length tp ≡ (
          if leb tp.head tp.tail then tp.tail - tp.head else tp.tail + tp.task_queue_size - tp.head)
  unfolding queue_length
  queue_length_lem h t =
      ground (arith, mod_once (tp.tail + tp.task_queue_size - tp.head) tp.task_queue_size)

pub push-IsValid :
    (tp : TaskQueue) (msg : Msg) {r : ℤ} {tq : TaskQueue}
    → IsValid tp
    → push tp msg ≡ ok (r, tq)
    → IsValid tq
unfolding push
push-IsValid tp msg {r} {tq} v e = ground (
  arith,
  length-set tp.slots tp.tail msg,
  queue_length_lem tp v.head_in v.tail_in,
  queue_length_lem tq,
  next_slot_lem tp tp.tail,
)

pub pop-IsValid :
    (tp : TaskQueue) {i : ℕ} {tq : TaskQueue} → IsValid tp → pop tp ≡ some (i, tq) → IsValid tq
unfolding pop
pop-IsValid tp {i} {tq} v e =
    ground (
      arith,
      queue_length_lem tp v.head_in v.tail_in,
      queue_length_lem tq,
      next_slot_lem tp tp.head,
    )
