-- ===== src/TaskQueue/Tests.antt =====
-- The task queue on concrete inputs.
use monitor_system.Base.{
  ℕ, ◌≡◌, refl, List, [], ◌∷◌, false, none, some, arith, All, pos, negsuc, ok,
}
use monitor_system.Message.{Msg, sys_mem}
use monitor_system.TaskQueue.{
  TaskQueue, task_queue_init, push, pop, read_slot, queue_length, is_empty, clear, task_cond,
  task_lock, slot_array, queue,
}
use monitor_system.TaskQueue.Bounds.{IsValid}
use monitor_system.TaskQueue.Fifo.{put, Holds, pushed}
use monitor_system.TaskQueue.Calls.{
  Call, puts, gets, answers, delivers, waits, run, run_queue, run_refines,
}
use monitor_system.TaskQueue.Slots.{push_all, popped_slot_stable, second_pop_overwrites}
use monitor_system.TaskQueue.Workers.{
  System, working, ready, IsAwake, wake, wake_all, at_start, after, insert, broadcast,
  no_lost_wakeup,
}

abbrev msg_of : ℕ → Msg
msg_of b = record { type = sys_mem; buff = b ∷ [] }

abbrev fresh : TaskQueue
fresh = record {
  slots = msg_of 0 ∷ msg_of 0 ∷ msg_of 0 ∷ [];
  task_queue_size = 3;
  head = 0;
  tail = 0;
  cur_num = pos 0;
}

-- Two messages, which go round the end of the array.
abbrev full : TaskQueue
full = record fresh {
  slots = msg_of 8 ∷ msg_of 0 ∷ msg_of 7 ∷ [];
  head = 2;
  tail = 1;
  cur_num = pos 2;
}

init_fresh : task_queue_init 3 fresh.slots ≡ fresh
unfolding task_queue_init
init_fresh = refl

full-IsValid : IsValid full
unfolding queue_length
full-IsValid = record {
  positive = omega arith;
  storage = refl;
  head_in = omega arith;
  tail_in = omega arith;
  counted = refl;
}

fresh-IsValid : IsValid fresh
unfolding queue_length
fresh-IsValid = record {
  positive = omega arith;
  storage = refl;
  head_in = omega arith;
  tail_in = omega arith;
  counted = refl;
}

full-Holds : Holds full (msg_of 7 ∷ msg_of 8 ∷ [])
unfolding queue_length read_slot
full-Holds = refl

fresh-Holds : Holds fresh []
unfolding queue_length
fresh-Holds = refl

abbrev script : List Call
script = puts (msg_of 1) ∷ puts (msg_of 2) ∷ puts (msg_of 3) ∷ gets ∷ gets ∷ gets ∷ []

run-script :
    run fresh script
    ≡ ok (
        answers (pos 1)
        ∷ answers (pos 1)
        ∷ answers (negsuc 0)
        ∷ delivers (msg_of 1)
        ∷ delivers (msg_of 2)
        ∷ waits
        ∷ [])
unfolding run_queue put
run-script = run_refines script fresh [] fresh-IsValid fresh-Holds

run_refines_example :
    run full (gets ∷ puts (msg_of 9) ∷ []) ≡ ok (delivers (msg_of 7) ∷ answers (pos 1) ∷ [])
unfolding run_queue put
run_refines_example =
    run_refines (gets ∷ puts (msg_of 9) ∷ []) full (msg_of 7 ∷ msg_of 8 ∷ []) full-IsValid
      full-Holds

abbrev after_pop : TaskQueue
after_pop = record full { head = 0; cur_num = pos 1 }

abbrev after_pops : TaskQueue
after_pops = record full { head = 1; cur_num = pos 0 }

popped_slot_stable_example :
    read_slot
      (record after_pop { slots = msg_of 8 ∷ msg_of 5 ∷ msg_of 7 ∷ []; tail = 2; cur_num = pos 2 })
      2
    ≡ read_slot full 2
unfolding pop push push_all
popped_slot_stable_example =
    popped_slot_stable full after_pop _ 2 (msg_of 5 ∷ msg_of 6 ∷ []) full-IsValid refl refl

second_pop_overwrites_example :
    (tu : TaskQueue) × (push_all after_pops (msg_of 5 ∷ msg_of 6 ∷ []) ≡ ok tu)
    × (read_slot tu 2 ≡ some (msg_of 6))
unfolding pop queue_length
second_pop_overwrites_example =
    second_pop_overwrites full after_pop after_pops 2 0 (msg_of 5) (msg_of 6) full-IsValid
      (omega arith) refl refl refl

abbrev at_rest : System
at_rest = record { queue = fresh; workers = ready ∷ working ∷ []; broadcasting = false }

abbrev served : System
served = record at_rest { queue = pushed fresh (msg_of 4) }

no_lost_wakeup_example : IsValid served.queue × All IsAwake served.workers
unfolding is_empty push wake_all wake
no_lost_wakeup_example =
    no_lost_wakeup at_rest served fresh-IsValid ((λ e. cc), ((λ e. cc), tt))
      (after (after at_start (insert (msg_of 4) (pushed fresh (msg_of 4)) refl refl))
        (broadcast refl))
      refl refl

clear_twice :
    (clear none ≡ []) × (clear (some full) ≡ task_cond ∷ task_lock ∷ slot_array ∷ queue ∷ [])
unfolding clear
clear_twice = (refl, refl)
