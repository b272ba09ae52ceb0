-- ===== src/TaskQueue/Slots.antt =====
-- `pop` returns a pointer into the array, and the caller reads it after the unlock: how long does
-- the message behind that pointer last?
use mathlib.Core.Path.{subst}
use monitor_system.Base.{
  ℕ, ◌-◌, ◌<◌, ◌≡◌, sym, ◌∙◌, List, [], ◌∷◌, some, arith, get_elem?, get_elem?-set_self, false,
  get_elem?-set_ne, ◌==◌, ℤ, Exec, ok, ◌>>=◌, first_call,
}
use monitor_system.Message.{Msg}
use monitor_system.TaskQueue.{TaskQueue, queue_length, next_slot, push, pop, read_slot}
use monitor_system.TaskQueue.Fifo.{pushed, push-room}
use monitor_system.TaskQueue.Bounds.{
  IsValid, push-IsValid, pop-IsValid, next_slot_lem, queue_length_lem,
}

-- The dispatcher's pushes, one after the other.
unfoldable pub push_all : TaskQueue → List Msg → Exec TaskQueue
push_all tp [] = ok tp
push_all tp (m ∷ ms) = push tp m >>= λ s. push_all s.1 ms

-- The slot just before `head`, the one that the last `pop` handed out.
abbrev IsBehind : TaskQueue → ℕ → Type 0
IsBehind tp i = (i < tp.task_queue_size) × (next_slot tp i ≡ tp.head)

push-keeps :
    (tp tq : TaskQueue) (msg : Msg) (r : ℤ) (i : ℕ)
    → IsValid tp
    → IsBehind tp i
    → push tp msg ≡ ok (r, tq)
    → (read_slot tq i ≡ read_slot tp i) × IsBehind tq i
unfolding push read_slot
push-keeps tp tq msg r i v b e = ground (
  arith,
  next_slot_lem tp i b.0,
  next_slot_lem tp tp.tail v.tail_in,
  get_elem?-set_ne tp.slots tp.tail i msg,
)

push_all-keeps :
    (msgs : List Msg) (tp tq : TaskQueue) (i : ℕ)
    → IsValid tp
    → IsBehind tp i
    → push_all tp msgs ≡ ok tq
    → read_slot tq i ≡ read_slot tp i
unfolding push_all
push_all-keeps [] tp tq i v b e = cc
push_all-keeps (m ∷ ms) tp tq i v b e =
    let ((r, mid), first, rest) = first_call (push tp m) (λ s. push_all s.1 ms) e in
    push_all-keeps ms mid tq i (push-IsValid tp m v first) (push-keeps tp mid m r i v b first).1
      rest
    ∙ (push-keeps tp mid m r i v b first).0

pop-IsBehind : (tp tq : TaskQueue) (i : ℕ) → IsValid tp → pop tp ≡ some (i, tq) → IsBehind tq i
unfolding pop
pop-IsBehind tp tq i v e = ground arith

-- The message behind a pointer that `pop` returned stays as it was at the `pop`, however many
-- messages are pushed, as long as nothing else is popped.
pub popped_slot_stable :
    (tp tq ts : TaskQueue) (i : ℕ) (msgs : List Msg)
    → IsValid tp
    → pop tp ≡ some (i, tq)
    → push_all tq msgs ≡ ok ts
    → read_slot ts i ≡ read_slot tp i
popped_slot_stable tp tq ts i msgs v e es =
    push_all-keeps msgs tq ts i (pop-IsValid tp v e) (pop-IsBehind tp tq i v e) es ∙ same
  where
    same : read_slot tq i ≡ read_slot tp i
    same = unfold pop read_slot in ground arith

-- Where two `pop`s from a full ring leave the indices.
two_pops :
    (tp tq ts : TaskQueue) (i j : ℕ)
    → IsValid tp
    → 2 < tp.task_queue_size
    → queue_length tp ≡ tp.task_queue_size - 1
    → pop tp ≡ some (i, tq)
    → pop tq ≡ some (j, ts)
    → (i ≡ tp.head)
      × (ts.task_queue_size ≡ tp.task_queue_size)
      × (ts.tail ≡ tp.tail)
      × (ts.head ≡ next_slot tp (next_slot tp tp.head))
      × (next_slot tp tp.tail ≡ tp.head)
unfolding pop
two_pops tp tq ts i j v big full e f =
    ground (arith, queue_length_lem tp v.head_in v.tail_in, next_slot_lem tp tp.tail v.tail_in)

-- With a second `pop` it does not last: on a full ring of at least three cells, two `pop`s and two
-- pushes leave the second message pushed where the first `pop` points.
pub second_pop_overwrites :
    (tp tq ts : TaskQueue) (i j : ℕ) (x y : Msg)
    → IsValid tp
    → 2 < tp.task_queue_size
    → queue_length tp ≡ tp.task_queue_size - 1
    → pop tp ≡ some (i, tq)
    → pop tq ≡ some (j, ts)
    → (tu : TaskQueue) × (push_all ts (x ∷ y ∷ []) ≡ ok tu) × (read_slot tu i ≡ some y)
unfolding push_all read_slot
second_pop_overwrites tp tq ts i j x y v big full e f = (
  pushed (pushed ts x) y,
  rw (push-room ts x vs first, push-room (pushed ts x) y vx second),
  subst (λ k. get_elem? (pushed (pushed ts x) y).slots k ≡ some y) (sym around)
      (get_elem?-set_self (pushed ts x).slots (pushed ts x).tail y
        (omega (arith, vx.storage, vx.tail_in))),
)
  where
    vs : IsValid ts
    vs = pop-IsValid tq (pop-IsValid tp v e) f

    first : (ts.head == next_slot ts ts.tail) ≡ false
    first = ground (
      arith,
      two_pops tp tq ts i j v big full e f,
      next_slot_lem tp tp.head v.head_in,
      next_slot_lem tp (next_slot tp tp.head),
      next_slot_lem tp tp.tail v.tail_in,
    )

    vx : IsValid (pushed ts x)
    vx = push-IsValid ts x vs (push-room ts x vs first)

    second : ((pushed ts x).head == next_slot (pushed ts x) (pushed ts x).tail) ≡ false
    second = ground (
      arith,
      two_pops tp tq ts i j v big full e f,
      next_slot_lem tp tp.head v.head_in,
      next_slot_lem tp (next_slot tp tp.head),
      next_slot_lem tp tp.tail v.tail_in,
    )

    around : i ≡ (pushed ts x).tail
    around = ground (
      arith,
      two_pops tp tq ts i j v big full e f,
      next_slot_lem tp tp.head v.head_in,
      next_slot_lem tp (next_slot tp tp.head),
      next_slot_lem tp tp.tail v.tail_in,
    )
