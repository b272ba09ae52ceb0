-- ===== src/DbPool/Search.antt =====
-- That the search of `get_db_connect` comes round to every node.
use monitor_system.Base.{
  ℕ, zero, suc, ◌+◌, ◌-◌, ◌%◌, ◌≤◌, ◌<◌, ◌≡◌, ◌≢◌, refl, ap, ◌∙◌, inl, inr, Bool, true, false,
  Bool-cases, some, arith, length, length-set, get_elem?, get_elem?-some, get_elem?-set_ne, leb,
  ◌==◌, if◌then◌else◌, mod_once, ok, ℤ, pos, negsuc,
}
use monitor_system.DbPool.{
  release_node, check_node, after_connect, use_node, get_loop, get_db_connect,
}
use monitor_system.DbPool.Acquire.{HandsOut, get_db_connect-HandsOut}
use monitor_system.DbPool.Nodes.{
  Node, Pool, Attempt, SqlState, connected, disconnected, create_db_connect,
}

-- A node that can be handed out at once.
pub record IsFree (pings : ℕ → Bool) (k : ℕ) (n : Node) (sp : Pool) : Type 0 where
  pub in_range : k < sp.pool_number
  pub in_array : sp.pool_number ≤ length sp.sql_pool
  pub stored : get_elem? sp.sql_pool k ≡ some n
  pub unlocked : n.locked ≡ false
  pub state : n.sql_state ≡ connected
  pub answers : pings k ≡ true

-- What a try at another node leaves alone.
abbrev Keeps : ℕ → Pool → Pool → Type 0
Keeps k sp t =
    (t.pool_number ≡ sp.pool_number)
    × (length t.sql_pool ≡ length sp.sql_pool)
    × (get_elem? t.sql_pool k ≡ get_elem? sp.sql_pool k)

check_node-Keeps :
    (k : ℕ) (ping : Bool) (sp : Pool) (j : ℕ) (m : Node)
    → j ≢ k
    → Keeps k sp (check_node ping sp j m).1
unfolding check_node release_node
check_node-Keeps k true sp j m ne =
    (refl, length-set sp.sql_pool j _, get_elem?-set_ne sp.sql_pool j k _ ne)
check_node-Keeps k false sp j m ne =
    (refl, length-set sp.sql_pool j _, get_elem?-set_ne sp.sql_pool j k _ ne)

after_connect-Keeps :
    (k : ℕ) (ping : Bool) (sp : Pool) (j : ℕ) (r : ℤ × Node)
    → j ≢ k
    → Keeps k sp (after_connect ping sp j r).1
unfolding after_connect release_node
after_connect-Keeps k ping sp j (pos zero, m) ne = check_node-Keeps k ping sp j m ne
after_connect-Keeps k ping sp j (pos (suc c), m) ne =
    (refl, length-set sp.sql_pool j _, get_elem?-set_ne sp.sql_pool j k _ ne)
after_connect-Keeps k ping sp j (negsuc c, m) ne =
    (refl, length-set sp.sql_pool j _, get_elem?-set_ne sp.sql_pool j k _ ne)

use_node-Keeps :
    (k : ℕ) (answer : Attempt) (ping : Bool) (sp : Pool) (j : ℕ) (m : Node) (st : SqlState)
    → j ≢ k
    → Keeps k sp (use_node answer ping sp j m st).1
unfolding use_node
use_node-Keeps k answer ping sp j m connected ne = check_node-Keeps k ping sp j m ne
use_node-Keeps k answer ping sp j m disconnected ne =
    after_connect-Keeps k ping sp j (create_db_connect sp.shutdown answer m) ne

IsFree-Keeps :
    (pings : ℕ → Bool) (k : ℕ) (n : Node) (sp t : Pool)
    → IsFree pings k n sp
    → Keeps k sp t
    → IsFree pings k n t
IsFree-Keeps pings k n sp t f (number, size, same) = record {
  in_range = omega (arith, f.in_range);
  in_array = omega (arith, f.in_array);
  stored = same ∙ f.stored;
  unlocked = f.unlocked;
  state = f.state;
  answers = f.answers;
}

-- The node itself is handed out when the search comes to it.
hands_out :
    (answer : Attempt) (pings : ℕ → Bool) (k : ℕ) (n : Node) (sp : Pool)
    → IsFree pings k n sp
    → (use_node answer (pings k) sp k (record n { locked = true }) n.sql_state).0 ≡ true
unfolding use_node check_node
hands_out answer pings k n sp f = rw (f.state, f.answers) refl

-- One round of the search, at a node of the array.
pub get_loop-round :
    (answers : ℕ → Attempt) (pings : ℕ → Bool) (start rounds i : ℕ) (sp : Pool) (m : Node)
    → get_elem? sp.sql_pool ((start + i) % sp.pool_number) ≡ some m
    → get_loop answers pings start (suc rounds) i sp ≡ (
        let j = (start + i) % sp.pool_number in
        let r = use_node (answers j) (pings j) sp j (record m { locked = true }) m.sql_state in
        if m.locked
        then get_loop answers pings start rounds (i + 1) sp
        else (if r.0 then ok (some j, r.1) else get_loop answers pings start rounds (i + 1) r.1))
unfolding get_loop
get_loop-round answers pings start rounds i sp m at = ground (arith, at)

module _ (answers : ℕ → Attempt) (pings : ℕ → Bool) (start k : ℕ) (n : Node) where
  same_at : (x y size : ℕ) → x ≡ y → (start + x) % size ≡ (start + y) % size
  same_at x y size h = ap (λ z. (start + z) % size) h

  differ : (j : ℕ) → (j == k) ≡ false → j ≢ k
  differ j h q = ground (arith, h, q)

  get_loop-IsFree :
      (rounds i d : ℕ) (sp : Pool)
      → IsFree pings k n sp
      → d < rounds
      → (start + (i + d)) % sp.pool_number ≡ k
      → (j : ℕ) × (t : Pool) × (get_loop answers pings start rounds i sp ≡ ok (some j, t))
  get_loop-IsFree zero i d sp f lt e = absurd (omega arith)
  get_loop-IsFree (suc rounds) i d sp f lt e =
      let j = (start + i) % sp.pool_number in
      let below : j < sp.pool_number = omega (arith, f.in_range) in
      let low : j < length sp.sql_pool = omega (arith, f.in_array) in
      let (m, at) = get_elem?-some sp.sql_pool j low in
      let r = use_node (answers j) (pings j) sp j (record m { locked = true }) m.sql_state in
      let round = get_loop-round answers pings start rounds i sp m at in
      elim (Bool-cases (j == k)) [
        | inl same ↦
            (j, r.1, ground (arith, round, at, f.stored, hands_out (answers j) pings k n sp f))
        | inr other ↦
            let ne : j ≢ k = λ q. differ j other q in
            let more : d ≢ 0 = λ z. ne (same_at i (i + d) sp.pool_number (omega arith) ∙ e) in
            let later : (start + (i + 1 + (d - 1))) % sp.pool_number ≡ k =
              same_at (i + 1 + (d - 1)) (i + d) sp.pool_number (omega arith) ∙ e in
            elim (Bool-cases m.locked) [
              | inl held ↦
                  let (j', t, found) =
                    get_loop-IsFree rounds (i + 1) (d - 1) sp f (omega arith) later in
                  (j', t, ground (arith, round, found))
              | inr free ↦ elim (Bool-cases r.0) [
                | inl done ↦ (j, r.1, ground (arith, round))
                | inr failed ↦
                    let kept =
                      use_node-Keeps k (answers j) (pings j) sp j (record m { locked = true })
                        m.sql_state ne in
                    let (j', t, found) =
                      get_loop-IsFree rounds (i + 1) (d - 1) r.1
                        (IsFree-Keeps pings k n sp r.1 f kept) (omega arith)
                        (ap (λ size. (start + (i + 1 + (d - 1))) % size) kept.0 ∙ later) in
                    (j', t, ground (arith, round, found))
              ]
            ]
      ]

starts :
    (answers : ℕ → Attempt) (pings : ℕ → Bool) (random j : ℕ) (sp t : Pool)
    → sp.shutdown ≡ false
    → 0 < sp.pool_number
    → get_loop answers pings (random % sp.pool_number) sp.pool_number 0 sp ≡ ok (some j, t)
    → get_db_connect answers pings random sp ≡ ok (some j, t)
unfolding get_db_connect
starts answers pings random j sp t running size found = ground (arith, running, found)

-- If some node of an open pool is unlocked, connected and answers its ping, `get_db_connect` hands out
-- a node, wherever it starts and whatever reconnections and pings fail on the way: the node is used,
-- connected and has answered its ping.
pub free_node_found :
    (answers : ℕ → Attempt) (pings : ℕ → Bool) (random k : ℕ) (n : Node) (sp : Pool)
    → sp.shutdown ≡ false
    → IsFree pings k n sp
    → (j : ℕ) × (t : Pool) × (get_db_connect answers pings random sp ≡ ok (some j, t))
      × HandsOut pings j t
free_node_found answers pings random k n sp running f =
    let start = random % sp.pool_number in
    let size = sp.pool_number in
    let below : start < size = omega (arith, f.in_range) in
    let d = if leb start k then k - start else k + size - start in
    let near : d < size = ground (arith, f.in_range) in
    let once = mod_once (start + (0 + d)) size (omega arith) in
    let reached : (start + (0 + d)) % size ≡ k = ground (arith, once, f.in_range) in
    let (j, t, found) = get_loop-IsFree answers pings start k n size 0 d sp f near reached in
    let runs = starts answers pings random j sp t running (omega (arith, f.in_range)) found in
    (j, t, runs, get_db_connect-HandsOut answers pings random j sp t f.in_array runs)
