-- ===== src/TaskQueue/Calls.antt =====
-- A client's calls of the task queue in order, with what each of them answers.
use mathlib.Core.Path.{subst}
use monitor_system.Base.{
  ℕ, ◌-◌, ◌≡◌, refl, List, [], ◌∷◌, Option, none, some, ℤ, Exec, ok, stop, out_of_bounds, ◌>>=◌,
}
use monitor_system.Message.{Msg}
use monitor_system.TaskQueue.{TaskQueue, push, pop, read_slot}
use monitor_system.TaskQueue.Bounds.{IsValid}
use monitor_system.TaskQueue.Fifo.{put, get, Holds, Takes, push_refines, pop_refines}

pub data Call : Type 0 where
  puts : Msg → Call
  gets : Call

pub data Reply : Type 0 where
  answers : ℤ → Reply
  delivers : Msg → Reply
  waits : Reply

-- A `pop` whose pointer is read at once.
pub take_now : TaskQueue → Option (ℕ × TaskQueue) → Exec (Reply × TaskQueue)
take_now tp none = ok (waits, tp)
take_now tp (some (i, tq)) = elim (read_slot tq i) [
  | none ↦ stop out_of_bounds
  | some msg ↦ ok (delivers msg, tq)
]

pub run : TaskQueue → List Call → Exec (List Reply)
run tp [] = ok []
run tp (puts msg ∷ calls) = push tp msg >>= λ s. run s.1 calls >>= λ rs. ok (answers s.0 ∷ rs)
run tp (gets ∷ calls) = take_now tp (pop tp) >>= λ s. run s.1 calls >>= λ rs. ok (s.0 ∷ rs)

-- The same calls on the bounded queue.
unfoldable pub run_queue : ℕ → List Msg → List Call → List Reply
run_queue cap q [] = []
run_queue cap q (puts msg ∷ calls) =
    let (r, q') = put cap q msg in answers r ∷ run_queue cap q' calls
run_queue cap [] (gets ∷ calls) = waits ∷ run_queue cap [] calls
run_queue cap (x ∷ q) (gets ∷ calls) = delivers x ∷ run_queue cap q calls

take_now-none : (tp : TaskQueue) → take_now tp none ≡ ok (waits, tp)
unfolding take_now
take_now-none tp = refl

take_now-some :
    (tp tq : TaskQueue) (i : ℕ) (x : Msg)
    → read_slot tq i ≡ some x
    → take_now tp (some (i, tq)) ≡ ok (delivers x, tq)
unfolding take_now
take_now-some tp tq i x e = rw (e, take_now)

-- No sequence of calls tells a valid ring from the bounded queue of its messages, whose capacity is
-- one less than the number of cells.
pub run_refines :
    (calls : List Call) (tp : TaskQueue) (q : List Msg)
    → IsValid tp
    → Holds tp q
    → run tp calls ≡ ok (run_queue (tp.task_queue_size - 1) q calls)
unfolding run run_queue
run_refines [] tp q v h = refl
run_refines (puts msg ∷ calls) tp q v h =
    let (tq, done, held, valid, same) = push_refines tp q msg v h in
    rw done (
      rw (
        subst
          (λ n. run tq calls ≡ ok (run_queue (n - 1) (put (tp.task_queue_size - 1) q msg).1 calls))
          same (run_refines calls tq _ valid held)))
run_refines (gets ∷ calls) tp [] v h =
    rw (wait, take_now-none tp) (rw (run_refines calls tp [] v h))
  where
    wait : pop tp ≡ none
    wait = unfold get in pop_refines tp [] v h
run_refines (gets ∷ calls) tp (x ∷ q) v h =
    let (i, tq, took, slot, held, valid, same) = taken in
    rw (took, take_now-some tp tq i x slot)
      (rw (
        subst (λ n. run tq calls ≡ ok (run_queue (n - 1) q calls)) same
          (run_refines calls tq q valid held)))
  where
    taken : Takes tp (pop tp) (some (x, q))
    taken = unfold get in pop_refines tp (x ∷ q) v h
