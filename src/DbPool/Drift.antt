-- ===== src/DbPool/Drift.antt =====
-- `busy_number` while the MySQL server does not answer.
use monitor_system.Base.{
  ℕ, zero, suc, ◌+◌, ◌%◌, ◌≤◌, ◌<◌, ◌≡◌, ◌≢◌, refl, sym, ap, ◌∙◌, inl, inr, Bool, true, false,
  Bool-cases, none, some, arith, length, length-set, get_elem?, get_elem?-some, get_elem?-set_self,
  get_elem?-set_ne, ◌==◌, ℤ, pos, negsuc, dec, ok,
}
use monitor_system.DbPool.{
  release_node, check_node, after_connect, use_node, get_loop, get_db_connect,
}
use monitor_system.DbPool.Nodes.{
  Node, Pool, Attempt, SqlState, connected, disconnected, create_db_connect, put_node,
}
use monitor_system.DbPool.Search.{get_loop-round}
use monitor_system.DbPool.Grab.{search_open}

abbrev pub dec_times : ℕ → ℤ → ℤ
dec_times zero z = z
dec_times (suc n) z = dec_times n (dec z)

-- A pool of which no node is in use.
pub record IsIdle (sp : Pool) : Type 0 where
  pub running : sp.shutdown ≡ false
  pub nonempty : 0 < sp.pool_number
  pub in_array : sp.pool_number ≤ length sp.sql_pool
  pub unlocked :
      (i : ℕ) (n : Node) → i < sp.pool_number → get_elem? sp.sql_pool i ≡ some n → n.locked ≡ false

-- The pool after a try at node `i`, which leaves it as `m`.
abbrev given_back : ℕ → Node → Pool → Pool
given_back i m sp = put_node (record sp { busy_number = dec sp.busy_number }) i m

abbrev GivenBack : ℕ → Pool → Bool × Pool → Type 0
GivenBack i sp r = (m : Node) × (r ≡ (false, given_back i m sp)) × (m.locked ≡ false)

after_connect-GivenBack :
    (sp : Pool) (i : ℕ) (r : ℤ × Node) → GivenBack i sp (after_connect false sp i r)
unfolding after_connect check_node release_node
after_connect-GivenBack sp i (pos zero, m) = (_, refl, refl)
after_connect-GivenBack sp i (pos (suc n), m) = (_, refl, refl)
after_connect-GivenBack sp i (negsuc n, m) = (_, refl, refl)

use_node-GivenBack :
    (answer : Attempt) (sp : Pool) (i : ℕ) (n : Node) (st : SqlState)
    → GivenBack i sp (use_node answer false sp i n st)
unfolding use_node check_node release_node
use_node-GivenBack answer sp i n connected = (_, refl, refl)
use_node-GivenBack answer sp i n disconnected =
    after_connect-GivenBack sp i (create_db_connect sp.shutdown answer n)

given_back-IsIdle :
    (sp : Pool) (i : ℕ) (m : Node)
    → IsIdle sp
    → i < sp.pool_number
    → m.locked ≡ false
    → IsIdle (given_back i m sp)
given_back-IsIdle sp i m idle lt free = record {
  running = idle.running;
  nonempty = idle.nonempty;
  in_array = omega (arith, idle.in_array, length-set sp.sql_pool i m);
  unlocked = λ j n below at. elim (Bool-cases (i == j)) [
    | inl same ↦
        let here : i ≡ j = ground (arith, same) in
        let moved : get_elem? (given_back i m sp).sql_pool i ≡ some n =
          ap (λ x. get_elem? (given_back i m sp).sql_pool x) here ∙ at in
        let node : m ≡ n =
          cc (get_elem?-set_self sp.sql_pool i m (omega (arith, lt, idle.in_array)), moved) in
        ap (λ x. x.locked) (sym node) ∙ free
    | inr other ↦
        let ne : i ≢ j = λ e. absurd (ground (arith, other, e)) in
        idle.unlocked j n below (sym (get_elem?-set_ne sp.sql_pool i j m ne) ∙ at)
  ];
}

module _ (answers : ℕ → Attempt) (pings : ℕ → Bool) (silent : (k : ℕ) → pings k ≡ false) where
  get_loop-IsIdle :
      (start rounds i : ℕ) (sp : Pool)
      → IsIdle sp
      → (t : Pool) × (get_loop answers pings start rounds i sp ≡ ok (none, t))
        × (t.busy_number ≡ dec_times rounds sp.busy_number)
        × (t.pool_number ≡ sp.pool_number)
        × IsIdle t
  get_loop-IsIdle start zero i sp idle = (sp, unfold get_loop in refl, refl, refl, idle)
  get_loop-IsIdle start (suc rounds) i sp idle =
      let k = (start + i) % sp.pool_number in
      let below : k < sp.pool_number = omega (arith, idle.nonempty) in
      let (n, at) = get_elem?-some sp.sql_pool k (omega (arith, idle.in_array)) in
      let round = get_loop-round answers pings start rounds i sp n at in
      let free = idle.unlocked k n below at in
      let (m, tried, back) =
        use_node-GivenBack (answers k) sp k (record n { locked = true }) n.sql_state in
      let (t, run, busy, number, still) =
        get_loop-IsIdle start rounds (i + 1) (given_back k m sp)
          (given_back-IsIdle sp k m idle below back) in
      (t, ground (arith, round, silent k, free, tried, run), busy, number, still)

  -- While no node of an open pool is in use and the MySQL server answers no ping, every call of
  -- `get_db_connect` returns the null pointer, whatever reconnections it makes, and takes `busy_number`
  -- down by the size of the pool, although nothing was busy: it does not count the connections in use.
  pub busy_number_drifts :
      (random : ℕ) (sp : Pool)
      → IsIdle sp
      → (t : Pool) × (get_db_connect answers pings random sp ≡ ok (none, t))
        × (t.busy_number ≡ dec_times sp.pool_number sp.busy_number)
        × IsIdle t
  busy_number_drifts random sp idle =
      let (t, run, busy, number, still) =
        get_loop-IsIdle (random % sp.pool_number) sp.pool_number 0 sp idle in
      (t, search_open answers pings random sp idle.running idle.nonempty ∙ run, busy, still)
