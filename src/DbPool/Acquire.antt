-- ===== src/DbPool/Acquire.antt =====
-- What `get_db_connect` hands out.
use mathlib.Core.Path.{subst}
use native.Mathlib.Nat.{mod-eq_of_lt}
use monitor_system.Base.{
  ℕ, zero, suc, ◌+◌, ◌%◌, ◌≤◌, ◌<◌, ◌≡◌, refl, Bool, true, false, Option, some, arith,
  if◌then◌else◌, length, length-set, get_elem?, get_elem?-set_self, get_elem?-some, Exec, ok,
  Bool-cases, ==-ne, inl, inr, ℤ, pos, negsuc, inc,
}
use monitor_system.DbPool.{
  release_node, check_node, after_connect, use_node, get_loop, get_db_connect,
}
use monitor_system.DbPool.Nodes.{
  Node, Pool, Attempt, connects, SqlState, connected, disconnected, create_db_connect, create-zero,
  put_node,
}

-- The node that a caller gets: in use, connected, and answering.
pub record HandsOut (pings : ℕ → Bool) (i : ℕ) (sp : Pool) : Type 0 where
  pub in_range : i < sp.pool_number
  pub answers : pings i ≡ true
  pub node : Node
  pub stored : get_elem? sp.sql_pool i ≡ some node
  pub used : node.used ≡ true
  pub state : node.sql_state ≡ connected

-- The sizes of a pool, which no step of the search changes.
abbrev SameSize : Pool → Pool → Type 0
SameSize s t =
    (length t.sql_pool ≡ length s.sql_pool)
    × (t.pool_number ≡ s.pool_number)
    × (t.shutdown ≡ s.shutdown)

-- What one locked node makes of the pool: it is handed out, or the search goes on.
abbrev Tried : Bool → ℕ → Pool → Bool × Pool → Type 0
Tried ping i sp (true, t) =
    SameSize sp t
    × (ping ≡ true)
    × ((n : Node) × (get_elem? t.sql_pool i ≡ some n) × (n.used ≡ true) × (n.sql_state ≡ connected))
Tried ping i sp (false, t) = SameSize sp t

check_node-Tried :
    (ping : Bool) (sp : Pool) (i : ℕ) (n : Node)
    → i < length sp.sql_pool
    → n.sql_state ≡ connected
    → Tried ping i sp (check_node ping sp i n)
unfolding check_node release_node
check_node-Tried true sp i n h e = (
  (length-set sp.sql_pool i (record n { used = true }), refl, refl),
  refl,
  (record n { used = true }, get_elem?-set_self sp.sql_pool i _ h, refl, e),
)
check_node-Tried false sp i n h e = (length-set sp.sql_pool i _, refl, refl)

after_connect-Tried :
    (ping : Bool) (sp : Pool) (i : ℕ) (r : ℤ × Node)
    → i < length sp.sql_pool
    → (r.0 ≡ pos 0 → r.1.sql_state ≡ connected)
    → Tried ping i sp (after_connect ping sp i r)
unfolding after_connect release_node
after_connect-Tried ping sp i (pos zero, n) h c = check_node-Tried ping sp i n h (c refl)
after_connect-Tried ping sp i (pos (suc k), n) h c = (length-set sp.sql_pool i _, refl, refl)
after_connect-Tried ping sp i (negsuc k, n) h c = (length-set sp.sql_pool i _, refl, refl)

use_node-Tried :
    (answer : Attempt) (ping : Bool) (sp : Pool) (i : ℕ) (n : Node) (st : SqlState)
    → i < length sp.sql_pool
    → n.sql_state ≡ st
    → Tried ping i sp (use_node answer ping sp i n st)
unfolding use_node
use_node-Tried answer ping sp i n connected h e = check_node-Tried ping sp i n h e
use_node-Tried answer ping sp i n disconnected h e =
    after_connect-Tried ping sp i (create_db_connect sp.shutdown answer n) h
      (λ z. (create-zero sp.shutdown answer n z).0)

-- One round for a node with a free lock.
decide :
    (pings : ℕ → Bool) (j k : ℕ) (sp t : Pool) (more : Pool → Exec (Option ℕ × Pool))
    (r : Bool × Pool)
    → j < sp.pool_number
    → Tried (pings j) j sp r
    → ((s : Pool) → SameSize sp s → more s ≡ ok (some k, t) → HandsOut pings k t)
    → (if r.0 then ok (some j, r.1) else more r.1) ≡ ok (some k, t)
    → HandsOut pings k t
decide pings j k sp t more (false, s) h tried rest e = rest s tried e
decide pings j k sp t more (true, s) h (size, answered, (n, stored, used, state)) rest e =
    let same_index : j ≡ k = ground arith in
    let same_pool : s ≡ t = ground arith in
    subst (λ o. HandsOut pings o t) same_index
      (subst (HandsOut pings j) same_pool (record {
        in_range = omega (arith, size.1);
        answers = answered;
        node = n;
        stored = stored;
        used = used;
        state = state;
      }))

get_loop-HandsOut :
    (answers : ℕ → Attempt) (pings : ℕ → Bool) (start rounds i k : ℕ) (sp t : Pool)
    → 0 < sp.pool_number
    → sp.pool_number ≤ length sp.sql_pool
    → get_loop answers pings start rounds i sp ≡ ok (some k, t)
    → HandsOut pings k t
unfolding get_loop
get_loop-HandsOut answers pings start zero i k sp t p h e = absurd (ground arith)
get_loop-HandsOut answers pings start (suc rounds) i k sp t p h e =
    let j = (start + i) % sp.pool_number in
    let low : j < sp.pool_number = omega arith in
    let (n, at) = get_elem?-some sp.sql_pool j (omega arith) in
    elim (Bool-cases n.locked) [
      | inl held ↦ get_loop-HandsOut answers pings start rounds (i + 1) k sp t p h (ground arith)
      | inr free ↦
          decide pings j k sp t (get_loop answers pings start rounds (i + 1))
            (use_node (answers j) (pings j) sp j (record n { locked = true }) n.sql_state) low
            (use_node-Tried (answers j) (pings j) sp j (record n { locked = true }) n.sql_state
              (omega arith) refl)
            (λ s size run.
              get_loop-HandsOut answers pings start rounds (i + 1) k s t (omega (arith, size.1))
                (omega (arith, size.0, size.1)) run)
            (ground arith)
    ]

-- Whatever reconnections and pings fail on the way, a node that `get_db_connect` hands out is one of
-- the pool's, is marked as used, is connected, and has just answered a ping.
pub get_db_connect-HandsOut :
    (answers : ℕ → Attempt) (pings : ℕ → Bool) (random k : ℕ) (sp t : Pool)
    → sp.pool_number ≤ length sp.sql_pool
    → get_db_connect answers pings random sp ≡ ok (some k, t)
    → HandsOut pings k t
unfolding get_db_connect
get_db_connect-HandsOut answers pings random k sp t h e =
    get_loop-HandsOut answers pings (random % sp.pool_number) sp.pool_number 0 k sp t (ground arith)
      h (ground arith)

-- A search that starts at a node with a free lock, and succeeds there.
starts_here :
    (answers : ℕ → Attempt) (pings : ℕ → Bool) (k : ℕ) (sp t : Pool) (n : Node)
    → k < sp.pool_number
    → sp.shutdown ≡ false
    → get_elem? sp.sql_pool k ≡ some n
    → n.locked ≡ false
    → use_node (answers k) (pings k) sp k (record n { locked = true }) n.sql_state ≡ (true, t)
    → get_db_connect answers pings k sp ≡ ok (some k, t)
unfolding get_db_connect
starts_here answers pings k sp t n lt running at free tries =
    simp (running, ==-ne sp.pool_number 0 (λ z. omega arith)) (go sp.pool_number lt)
  where
    index : (k % sp.pool_number + 0) % sp.pool_number ≡ k
    index = ground (
      arith,
      mod-eq_of_lt {n = k} {m = sp.pool_number},
      mod-eq_of_lt {n = k % sp.pool_number + 0} {m = sp.pool_number},
    )

    go : (m : ℕ) → k < m → get_loop answers pings (k % sp.pool_number) m 0 sp ≡ ok (some k, t)
    go zero p = absurd (omega arith)
    go (suc m) p = ground (arith, index)

-- A node that had lost its connection and is connected anew is handed out with its lock free, since
-- `create_db_connect` sets the mutex up again: the next call that starts there hands out the same
-- node a second time.
pub reconnected_node_shared :
    (answers : ℕ → Attempt) (pings : ℕ → Bool) (k c : ℕ) (sp : Pool) (n : Node)
    → k < sp.pool_number
    → sp.pool_number ≤ length sp.sql_pool
    → sp.shutdown ≡ false
    → get_elem? sp.sql_pool k ≡ some n
    → n.locked ≡ false
    → n.sql_state ≡ disconnected
    → answers k ≡ connects c
    → pings k ≡ true
    → (t u : Pool) × (get_db_connect answers pings k sp ≡ ok (some k, t))
      × (get_db_connect answers pings k t ≡ ok (some k, u))
reconnected_node_shared answers pings k c sp n lt h running at free state ans ping = (
  t,
  (put_node (record t { busy_number = inc t.busy_number }) k
      (record back { used = true; locked = true })),
  starts_here answers pings k sp t n lt running at free first,
  starts_here answers pings k t _ (record back { used = true; locked = false }) lt running
      (get_elem?-set_self sp.sql_pool k _ (omega arith)) refl second,
)
  where
    back : Node
    back = record n { mysql_sock = some c; used = false; sql_state = connected }

    t : Pool
    t =
        put_node (record sp { busy_number = inc sp.busy_number }) k
          (record back { used = true; locked = false })

    first : use_node (answers k) (pings k) sp k (record n { locked = true }) n.sql_state ≡ (true, t)
    first = unfold use_node create_db_connect in rw (state, ans, ping, running)

    second :
        use_node (answers k) (pings k) t k (record back { used = true; locked = true }) connected
        ≡ (
          true,
          put_node
              (record t { busy_number = inc t.busy_number })
              k
              (record back { used = true; locked = true }),
        )
    second = unfold use_node in rw ping
