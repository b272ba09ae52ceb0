-- ===== src/TaskQueue/Fifo.antt =====
-- The ring buffer against a bounded first-in first-out queue, which is written first.
use mathlib.Core.Path.{ap₂, subst}
use monitor_system.Base.{
  ℕ, zero, suc, ◌+◌, ◌-◌, ◌%◌, ◌<◌, ◌≡◌, refl, sym, ◌∙◌, ap, ◌≢◌, List, [], ◌∷◌, ◌++◌, map,
  map-append, Option, none, some, arith, length, set, get_elem?, get_elem?-set_self, All,
  if◌then◌else◌, ◌==◌, ℤ, pos, negsuc, inc, dec, false, ok, mod_once, inl, inr, Bool-cases,
}
use monitor_system.Message.{Msg}
use monitor_system.TaskQueue.{
  TaskQueue, task_queue_init, queue_length, next_slot, push, pop, read_slot, is_empty,
}
use monitor_system.TaskQueue.Indices.{run_of, run_of-snoc, run_of_avoids, map-set_avoided}
use monitor_system.TaskQueue.Bounds.{
  IsValid, push-IsValid, pop-IsValid, next_slot_lem, queue_length_lem,
}

-- A bounded queue, oldest first: 1 for a put that is taken, -1 for one that is refused.
unfoldable pub put : ℕ → List Msg → Msg → ℤ × List Msg
put cap q x = if length q == cap then (negsuc 0, q) else (pos 1, q ++ (x ∷ []))

unfoldable pub get : List Msg → Option (Msg × List Msg)
get [] = none
get (x ∷ q) = some (x, q)

-- The queue that a ring holds.
abbrev pub Holds : TaskQueue → List Msg → Type 0
Holds tp q = map (read_slot tp) (run_of tp.task_queue_size tp.head (queue_length tp)) ≡ map some q

-- A new ring holds nothing.
pub init-Holds : (n : ℕ) (allocated : List Msg) → 0 < n → Holds (task_queue_init n allocated) []
unfolding task_queue_init queue_length
init-Holds n allocated h =
    let empty : (0 + n - 0) % n ≡ 0 = ground (arith, mod_once (0 + n - 0) n) in
    ap (λ k. map (read_slot (task_queue_init n allocated)) (run_of n 0 k)) empty

length-run_of : (size h n : ℕ) → length (run_of size h n) ≡ n
length-run_of size h zero = refl
length-run_of size h (suc n) = ap suc (length-run_of size ((h + 1) % size) n)

length-map {ℓ κ} :
    {A : Type ℓ} {B : Type κ} (f : A → B) (xs : List A) → length (map f xs) ≡ length xs
length-map f [] = refl
length-map f (x ∷ xs) = ap suc (length-map f xs)

-- What a ring holds is as long as the ring says.
pub length-Holds : (tp : TaskQueue) (q : List Msg) → Holds tp q → length q ≡ queue_length tp
length-Holds tp q h = omega (
  arith,
  ap length h,
  length-map (read_slot tp) (run_of tp.task_queue_size tp.head (queue_length tp)),
  length-map {B = Option Msg} some q,
  length-run_of tp.task_queue_size tp.head (queue_length tp),
)

-- The ring is full exactly if it holds one message less than its array has cells.
pub full_iff :
    (tp : TaskQueue)
    → IsValid tp
    → (tp.head == next_slot tp tp.tail) ≡ (queue_length tp == tp.task_queue_size - 1)
full_iff tp v =
    ground (arith, queue_length_lem tp v.head_in v.tail_in, next_slot_lem tp tp.tail v.tail_in)

-- The cell that the next write goes to.
pub tail_lem :
    (tp : TaskQueue) → IsValid tp → tp.tail ≡ (tp.head + queue_length tp) % tp.task_queue_size
tail_lem tp v = ground (
  arith,
  queue_length_lem tp v.head_in v.tail_in,
  mod_once (tp.head + queue_length tp) tp.task_queue_size,
)

pub queue_length-lt : (tp : TaskQueue) → IsValid tp → queue_length tp < tp.task_queue_size
queue_length-lt tp v = ground (arith, queue_length_lem tp v.head_in v.tail_in)

-- The ring after a write that is taken.
abbrev pub pushed : TaskQueue → Msg → TaskQueue
pushed tp msg = record tp {
  slots = set tp.slots tp.tail msg;
  cur_num = inc tp.cur_num;
  tail = next_slot tp tp.tail;
}

pub push-room :
    (tp : TaskQueue) (msg : Msg)
    → IsValid tp
    → (tp.head == next_slot tp tp.tail) ≡ false
    → push tp msg ≡ ok (pos 1, pushed tp msg)
unfolding push
push-room tp msg v e = ground arith

queue_length-pushed :
    (tp : TaskQueue) (msg : Msg)
    → IsValid tp
    → (tp.head == next_slot tp tp.tail) ≡ false
    → queue_length (pushed tp msg) ≡ suc (queue_length tp)
queue_length-pushed tp msg v e = ground (
  arith,
  queue_length_lem tp v.head_in v.tail_in,
  queue_length_lem (pushed tp msg) v.head_in,
  next_slot_lem tp tp.tail v.tail_in,
)

Holds-pushed :
    (tp : TaskQueue) (q : List Msg) (msg : Msg)
    → IsValid tp
    → Holds tp q
    → (tp.head == next_slot tp tp.tail) ≡ false
    → Holds (pushed tp msg) (q ++ (msg ∷ []))
unfolding read_slot
Holds-pushed tp q msg v h e =
    ap (λ k. map (get_elem? written) (run_of size head k)) (queue_length-pushed tp msg v e)
    ∙ ap (map (get_elem? written)) (run_of-snoc size head n v.head_in (queue_length-lt tp v))
    ∙ map-append (get_elem? written) (run_of size head n) (((head + n) % size) ∷ [])
    ∙ ap₂ ◌++◌ (kept ∙ h) (ap (λ o. o ∷ []) new)
    ∙ sym (map-append some q (msg ∷ []))
  where
    open tp use {head, task_queue_size as size}

    n : ℕ
    n = queue_length tp

    written : List Msg
    written = set tp.slots tp.tail msg

    kept :
        map (get_elem? written) (run_of size head n) ≡ map (get_elem? tp.slots) (run_of size head n)
    kept = map-set_avoided tp.slots tp.tail msg (run_of size head n) (
        subst (λ j. All (λ i. i ≢ j) (run_of size head n)) (sym (tail_lem tp v))
          (run_of_avoids size head n n v.head_in (omega arith) (queue_length-lt tp v)))

    new : get_elem? written ((head + n) % size) ≡ some msg
    new =
        subst (λ j. get_elem? written j ≡ some msg) (tail_lem tp v)
          (get_elem?-set_self tp.slots tp.tail msg (omega (arith, v.storage, v.tail_in)))

-- What `push` does to a ring that holds `q`: it answers as the bounded queue does, on a full ring
-- and on any other, and the ring then holds what the bounded queue holds.
pub push_refines :
    (tp : TaskQueue) (q : List Msg) (msg : Msg)
    → IsValid tp
    → Holds tp q
    → (tq : TaskQueue) × (push tp msg ≡ ok ((put (tp.task_queue_size - 1) q msg).0, tq))
      × Holds tq (put (tp.task_queue_size - 1) q msg).1
      × IsValid tq
      × (tq.task_queue_size ≡ tp.task_queue_size)
unfolding push put
push_refines tp q msg v h = elim (Bool-cases (tp.head == next_slot tp tp.tail)) [
  | inl full ↦
      rw (ap (λ n. n == tp.task_queue_size - 1) (length-Holds tp q h) ∙ sym (full_iff tp v) ∙ full)
        (tp, ground arith, h, v, refl)
  | inr room ↦
      rw (ap (λ n. n == tp.task_queue_size - 1) (length-Holds tp q h) ∙ sym (full_iff tp v) ∙ room)
        (
          pushed tp msg,
          push-room tp msg v room,
          Holds-pushed tp q msg v h room,
          push-IsValid tp msg v (push-room tp msg v room),
          refl,
        )
]

abbrev popped : TaskQueue → TaskQueue
popped tp = record tp { cur_num = dec tp.cur_num; head = next_slot tp tp.head }

is_empty_iff : (tp : TaskQueue) → IsValid tp → is_empty tp ≡ (queue_length tp == 0)
unfolding is_empty
is_empty_iff tp v = ground (arith, queue_length_lem tp v.head_in v.tail_in)

queue_length-popped :
    (tp : TaskQueue) (n : ℕ) → IsValid tp → queue_length tp ≡ suc n → queue_length (popped tp) ≡ n
queue_length-popped tp n v e = ground (
  arith,
  queue_length_lem tp v.head_in v.tail_in,
  queue_length_lem (popped tp),
  next_slot_lem tp tp.head v.head_in,
)

-- What a taker of the ring sees: it waits, or gets the index of a slot that holds the oldest message.
abbrev pub Takes : TaskQueue → Option (ℕ × TaskQueue) → Option (Msg × List Msg) → Type 0
Takes tp r none = r ≡ none
Takes tp r (some (x, q)) =
    (i : ℕ) × (tq : TaskQueue) × (r ≡ some (i, tq))
    × (read_slot tq i ≡ some x)
    × Holds tq q
    × IsValid tq
    × (tq.task_queue_size ≡ tp.task_queue_size)

pop-wait : (tp : TaskQueue) → IsValid tp → queue_length tp ≡ 0 → pop tp ≡ none
unfolding pop
pop-wait tp v e = ground (arith, is_empty_iff tp v)

pop-take :
    (tp : TaskQueue) (n : ℕ)
    → IsValid tp
    → queue_length tp ≡ suc n
    → pop tp ≡ some (tp.head, popped tp)
unfolding pop
pop-take tp n v e = ground (arith, is_empty_iff tp v)

-- The oldest message stands in the slot at `head`, and the others behind it.
split-Holds :
    (tp : TaskQueue) (x : Msg) (q : List Msg)
    → IsValid tp
    → Holds tp (x ∷ q)
    → (read_slot tp tp.head ≡ some x) × Holds (popped tp) q
unfolding queue_length read_slot
split-Holds tp x q v h = (cc parts, ap rest (queue_length-popped tp (length q) v n) ∙ cc parts)
  where
    n : queue_length tp ≡ suc (length q)
    n = sym (length-Holds tp (x ∷ q) h)

    rest : ℕ → List (Option Msg)
    rest k = map (read_slot tp) (run_of tp.task_queue_size (next_slot tp tp.head) k)

    parts : (read_slot tp tp.head ∷ rest (length q)) ≡ (some x ∷ map some q)
    parts =
        subst (λ k. map (read_slot tp) (run_of tp.task_queue_size tp.head k) ≡ map some (x ∷ q)) n h

-- What `pop` does to a ring that holds `q`: it waits if the bounded queue is empty, and else hands
-- out a pointer to the oldest message and leaves the rest.
pub pop_refines :
    (tp : TaskQueue) (q : List Msg) → IsValid tp → Holds tp q → Takes tp (pop tp) (get q)
unfolding get read_slot
pop_refines tp [] v h = pop-wait tp v (sym (length-Holds tp [] h))
pop_refines tp (x ∷ q) v h = (
  tp.head,
  popped tp,
  take,
  (split-Holds tp x q v h).0,
  (split-Holds tp x q v h).1,
  pop-IsValid tp v take,
  refl,
)
  where
    take : pop tp ≡ some (tp.head, popped tp)
    take = pop-take tp (length q) v (sym (length-Holds tp (x ∷ q) h))
