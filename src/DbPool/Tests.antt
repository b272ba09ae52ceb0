-- ===== src/DbPool/Tests.antt =====
-- The connection pool on concrete inputs.
use monitor_system.Base.{
  ℕ, zero, suc, negsuc, get_elem?, ◌+◌, ◌≤◌, ◌<◌, ◌≡◌, refl, [], ◌∷◌, true, false, some, none,
  arith, pos, length, replicate, codes, ok, stop, out_of_bounds, ltb, if◌then◌else◌, Bool,
}
use monitor_system.DbPool.{
  sql_pool_destroy, destroy_loop, get_db_connect, change_node_num, sql_pool_create, create_loop,
  clamp_number,
}
use monitor_system.DbPool.Nodes.{
  Node, Pool, Attempt, connects, connect_fails, connected, disconnected, create_db_connect,
}
use monitor_system.DbPool.Destroy.{Closes, destroy-Closes}
use monitor_system.DbPool.Acquire.{HandsOut, get_db_connect-HandsOut, reconnected_node_shared}
use monitor_system.DbPool.Resize.{grow_bound}
use monitor_system.DbPool.Search.{free_node_found}
use monitor_system.DbPool.AllOrNone.{all_succeed, Created, sql_pool_create_cases}
use monitor_system.DbPool.Drift.{IsIdle, busy_number_drifts}

abbrev node : ℕ → Node
node i = record {
  mysql_sock = some (100 + i);
  locked = false;
  used = false;
  index = i;
  sql_state = connected;
}

abbrev lost : Node
lost = record {
  mysql_sock = none;
  locked = false;
  used = false;
  index = 2;
  sql_state = disconnected;
}

abbrev three : Pool
three = record {
  shutdown = false;
  sql_pool = node 0 ∷ node 1 ∷ lost ∷ [];
  pool_number = 3;
  busy_number = pos 0;
  ip = codes "127.0.0.1";
  port = 3306;
  db_name = codes "mysql";
  user = codes "root";
  passwd = codes "12345678";
}

abbrev up : ℕ → Attempt
up i = connects (200 + i)

abbrev answering : ℕ → Bool
answering i = true

destroy-Closes_example :
    (t : Pool) × (sql_pool_destroy three ≡ ok t)
    × (t.shutdown ≡ true)
    × (t.pool_number ≡ 1)
    × Closes 0 2 three t
destroy-Closes_example = destroy-Closes three (omega arith)

-- The search starts at node 1 and takes it.
abbrev second_taken : Pool
second_taken = record three {
  sql_pool = node 0 ∷ record (node 1) { used = true; locked = true } ∷ lost ∷ [];
  busy_number = pos 1;
}

get_db_connect-HandsOut_example : HandsOut answering 1 second_taken
unfolding get_db_connect
get_db_connect-HandsOut_example =
    get_db_connect-HandsOut up answering 4 1 three second_taken (omega arith) refl

reconnected_node_shared_example :
    (t u : Pool) × (get_db_connect up answering 2 three ≡ ok (some 2, t))
    × (get_db_connect up answering 2 t ≡ ok (some 2, u))
reconnected_node_shared_example =
    reconnected_node_shared up answering 2 202 three lost (omega arith) (omega arith) refl refl refl
      refl refl refl

grow_bound_example :
    (3 + 5 ≤ 3
      → (t : Pool) × (change_node_num up three 1 ≡ ok (some t))
        × (t.pool_number ≡ 8)
        × (length t.sql_pool ≡ 3))
    × (3 < 3 + 5 → change_node_num up three 1 ≡ stop out_of_bounds)
grow_bound_example = grow_bound up three (λ i. (200 + i, refl)) refl (omega arith)

-- The address of the server's `main`, with a first node that connects and a second that does not.
create_rolls_back :
    sql_pool_create
      (λ i. if ltb i 1 then connects 7 else connect_fails)
      (some (replicate 20 lost))
      (pos 10)
      (codes "127.0.0.0.1")
      3306
      (codes "mysql")
      (codes "root")
      (codes "12345678")
    ≡ ok none
unfolding sql_pool_create create_loop clamp_number create_db_connect sql_pool_destroy destroy_loop
create_rolls_back = refl

-- The search starts at the node that has lost its connection and cannot have another.
free_node_found_example :
    (j : ℕ) × (t : Pool) × (get_db_connect (λ i. connect_fails) answering 2 three ≡ ok (some j, t))
    × HandsOut answering j t
free_node_found_example =
    free_node_found (λ i. connect_fails) answering 2 1 (node 1) three refl
      (record {
        in_range = omega arith;
        in_array = omega arith;
        stored = refl;
        unlocked = refl;
        state = refl;
        answers = refl;
      })

-- Ten connections are asked for, and the second is refused.
abbrev first_only : ℕ → Attempt
first_only i = if ltb i 1 then connects 7 else connect_fails

sql_pool_create_cases_example :
    (1 ≤ 10)
    × (10 ≤ 20)
    × Created false first_only
        (replicate 20 lost)
        (pos 10)
        (codes "127.0.0.0.1")
        3306
        (codes "mysql")
        (codes "root")
        (codes "12345678")
unfolding all_succeed clamp_number
sql_pool_create_cases_example =
    sql_pool_create_cases first_only (replicate 20 lost) (pos 10) (codes "127.0.0.0.1") 3306
      (codes "mysql") (codes "root") (codes "12345678") refl (omega arith)

three_unlocked : (i : ℕ) (n : Node) → get_elem? three.sql_pool i ≡ some n → n.locked ≡ false
three_unlocked zero n at = cc at
three_unlocked (suc zero) n at = cc at
three_unlocked (suc (suc zero)) n at = cc at
three_unlocked (suc (suc (suc i))) n at = absurd (cc at)

-- A silent server makes the `busy_number` of three idle nodes -3.
busy_number_drifts_example :
    (t : Pool) × (get_db_connect up (λ k. false) 1 three ≡ ok (none, t))
    × (t.busy_number ≡ negsuc 2)
    × IsIdle t
busy_number_drifts_example =
    busy_number_drifts up (λ k. false) (λ k. refl) 1 three
      (record {
        running = refl;
        nonempty = omega arith;
        in_array = omega arith;
        unlocked = λ i n lt at. three_unlocked i n at;
      })
