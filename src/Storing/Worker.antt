-- ===== src/Storing/Worker.antt =====
-- `do_task`: a worker's connection, and the turns of its loop.
use monitor_system.Base.{
  ℕ, zero, suc, ◌+◌, ◌%◌, ◌≤◌, ◌<◌, ◌≡◌, refl, ap, ◌∙◌, inl, inr, Bool, true, false, Bool-cases,
  List, [], ◌∷◌, All, Option, none, some, arith, length, take, get_elem?, get_elem?-some, ◌==◌,
  Exec, ok, stop, null_pointer, out_of_bounds, ◌>>=◌,
}
use monitor_system.Message.{Msg}
use monitor_system.Json.{Cjson}
use monitor_system.TaskQueue.{TaskQueue, pop, read_slot}
use monitor_system.TaskQueue.Bounds.{IsValid}
use monitor_system.TaskQueue.Fifo.{Holds, get, pop_refines}
use monitor_system.DbPool.{get_loop, get_db_connect}
use monitor_system.DbPool.Nodes.{Node, Pool, Attempt, node_at}
use monitor_system.Storing.{deal_with_monitor_msg}

abbrev pub connection : Pool → Option ℕ → Exec (Option ℕ × Pool)
connection sp none = stop null_pointer
connection sp (some i) = node_at sp i >>= λ n. ok (n.mysql_sock, sp)

-- `get_db_connect(sq_conn_poll)->mysql_sock`, before the loop.
unfoldable pub take_connection : (ℕ → Attempt) → (ℕ → Bool) → ℕ → Pool → Exec (Option ℕ × Pool)
take_connection answers pings random sp =
    get_db_connect answers pings random sp >>= λ r. connection r.1 r.0

abbrev pub deal_with_slot : Cjson → Option Msg → Exec (Option (List ℕ))
deal_with_slot json none = stop out_of_bounds
deal_with_slot json (some msg) = deal_with_monitor_msg json msg

abbrev pub after_pop : Cjson → Option (ℕ × TaskQueue) → Option (Exec (Option (List ℕ)) × TaskQueue)
after_pop json none = none
after_pop json (some (i, rest)) = some (deal_with_slot json (read_slot rest i), rest)

-- One turn of the loop: `none` while the worker waits, else what its message leads to and the queue.
unfoldable pub do_task : Cjson → TaskQueue → Option (Exec (Option (List ℕ)) × TaskQueue)
do_task json tq = after_pop json (pop tq)

-- Every node that is in use has its mutex held.
abbrev pub AllLocked : Pool → Type 0
AllLocked sp = All (λ n. n.locked ≡ true) (take sp.pool_number sp.sql_pool)

locked_at :
    (k : ℕ) (ns : List Node) (i : ℕ) (n : Node)
    → All (λ m. m.locked ≡ true) (take k ns)
    → i < k
    → get_elem? ns i ≡ some n
    → n.locked ≡ true
locked_at zero ns i n h lt e = absurd (omega arith)
locked_at (suc k) [] i n h lt e = absurd (cc e)
locked_at (suc k) (m ∷ ns) zero n h lt e = ground arith
locked_at (suc k) (m ∷ ns) (suc i) n h lt e = locked_at k ns i n h.1 (omega arith) e

get_loop-locked :
    (answers : ℕ → Attempt) (pings : ℕ → Bool) (start rounds i : ℕ) (sp : Pool)
    → 0 < sp.pool_number
    → sp.pool_number ≤ length sp.sql_pool
    → AllLocked sp
    → get_loop answers pings start rounds i sp ≡ ok (none, sp)
unfolding get_loop
get_loop-locked answers pings start zero i sp p h all = refl
get_loop-locked answers pings start (suc rounds) i sp p h all =
    let index = (start + i) % sp.pool_number in
    let (n, at) = get_elem?-some sp.sql_pool index (omega arith) in
    let held = locked_at sp.pool_number sp.sql_pool index n all (omega arith) at in
    ground (arith, at, held, get_loop-locked answers pings start rounds (i + 1) sp p h all)

-- Once every node of the pool is locked, one more worker follows a null pointer before its loop.
pub exhausted_pool_crashes :
    (answers : ℕ → Attempt) (pings : ℕ → Bool) (random : ℕ) (sp : Pool)
    → 0 < sp.pool_number
    → sp.pool_number ≤ length sp.sql_pool
    → AllLocked sp
    → take_connection answers pings random sp ≡ stop null_pointer
unfolding take_connection get_db_connect
exhausted_pool_crashes answers pings random sp p h all =
    let none_free =
      get_loop-locked answers pings (random % sp.pool_number) sp.pool_number 0 sp p h all in
    let some_nodes : (sp.pool_number == 0) ≡ false = ground arith in
    elim (Bool-cases sp.shutdown) [
      | inl closing ↦ rw closing refl
      | inr running ↦ simp (running, some_nodes, none_free)
    ]

-- What one turn does to a queue that holds these messages.
abbrev pub Turn : Cjson → TaskQueue → List Msg → Type 0
Turn json tq [] = do_task json tq ≡ none
Turn json tq (msg ∷ q) =
    (rest : TaskQueue) × (do_task json tq ≡ some (deal_with_monitor_msg json msg, rest))
    × Holds rest q
    × IsValid rest

-- A worker whose queue holds messages takes the oldest one, deals with it as
-- `deal_with_monitor_msg` does, and leaves the others; with an empty queue it waits.
pub worker_stores_oldest :
    (json : Cjson) (tq : TaskQueue) (q : List Msg) → IsValid tq → Holds tq q → Turn json tq q
unfolding do_task get
worker_stores_oldest json tq [] v h = ap (after_pop json) (pop_refines tq [] v h)
worker_stores_oldest json tq (msg ∷ q) v h =
    let (i, rest, taken, slot, held, valid, same) = pop_refines tq (msg ∷ q) v h in
    (
      rest,
      ap (after_pop json) taken ∙ ap (λ m. some (deal_with_slot json m, rest)) slot,
      held,
      valid,
    )
