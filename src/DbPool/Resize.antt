-- ===== src/DbPool/Resize.antt =====
-- `changeNodeNum` and the creation loop, where every connection succeeds.
use monitor_system.Base.{
  ℕ, zero, suc, ◌+◌, ◌≤◌, ◌<◌, ◌≡◌, refl, ap, ◌∙◌, true, false, none, some, arith, ◌==◌, length,
  length-set, get_elem?, get_elem?-some, ok, stop, out_of_bounds, Bool-cases, inl, inr, ==_iff,
  List, [], ◌∷◌,
}
use monitor_system.DbPool.{create_loop, change_node_num}
use monitor_system.DbPool.Nodes.{
  Node, Pool, Attempt, connects, connected, create_db_connect, put_node,
}

abbrev AllConnect : (ℕ → Attempt) → Type 0
AllConnect answers = (i : ℕ) → (c : ℕ) × (answers i ≡ connects c)

-- The node that a successful attempt leaves at `k`.
abbrev pub fresh_node : ℕ → ℕ → Node → Node
fresh_node k c n = record n {
  mysql_sock = some c;
  locked = false;
  used = false;
  index = k;
  sql_state = connected;
}

abbrev pub grown : Pool → ℕ → ℕ → Node → Pool
grown sp k c n = record (put_node sp k (fresh_node k c n)) { pool_number = sp.pool_number + 1 }

pub create-step :
    (answers : ℕ → Attempt) (rounds k c : ℕ) (sp : Pool) (n : Node)
    → sp.shutdown ≡ false
    → get_elem? sp.sql_pool k ≡ some n
    → answers k ≡ connects c
    → create_loop answers (suc rounds) k sp ≡ create_loop answers rounds (k + 1) (grown sp k c n)
unfolding create_loop create_db_connect
create-step answers rounds k c sp n running at ans = ground arith

create-outside :
    (answers : ℕ → Attempt) (rounds k : ℕ) (sp : Pool)
    → get_elem? sp.sql_pool k ≡ none
    → create_loop answers (suc rounds) k sp ≡ stop out_of_bounds
unfolding create_loop
create-outside answers rounds k sp at = ground arith

get_elem?-none {ℓ} : {A : Type ℓ} (xs : List A) → get_elem? xs (length xs) ≡ none
get_elem?-none [] = refl
get_elem?-none (x ∷ xs) = get_elem?-none xs

-- With as many nodes in the array as the loop asks for, it connects them all and counts them.
pub create_loop-fits :
    (answers : ℕ → Attempt) (rounds k : ℕ) (sp : Pool)
    → AllConnect answers
    → sp.shutdown ≡ false
    → k + rounds ≤ length sp.sql_pool
    → (t : Pool) × (create_loop answers rounds k sp ≡ ok (some t))
      × (t.pool_number ≡ sp.pool_number + rounds)
      × (length t.sql_pool ≡ length sp.sql_pool)
unfolding create_loop
create_loop-fits answers zero k sp all running h = (sp, refl, omega arith, refl)
create_loop-fits answers (suc rounds) k sp all running h =
    let (n, at) = get_elem?-some sp.sql_pool k (omega arith) in
    let (c, ans) = all k in
    let kept = length-set sp.sql_pool k (fresh_node k c n) in
    let (t, runs, number, size) =
      create_loop-fits answers rounds (k + 1) (grown sp k c n) all running (omega (arith, kept)) in
    (
      t,
      create-step answers rounds k c sp n running at ans ∙ runs,
      number ∙ omega arith,
      size ∙ kept,
    )

-- With fewer, it writes behind the array.
create_loop-overflows :
    (answers : ℕ → Attempt) (rounds k : ℕ) (sp : Pool)
    → AllConnect answers
    → sp.shutdown ≡ false
    → k ≤ length sp.sql_pool
    → length sp.sql_pool < k + rounds
    → create_loop answers rounds k sp ≡ stop out_of_bounds
create_loop-overflows answers zero k sp all running h over = absurd (omega arith)
create_loop-overflows answers (suc rounds) k sp all running h over =
    elim (Bool-cases (k == length sp.sql_pool)) [
      | inl last ↦ create-outside answers rounds k sp (edge last)
      | inr more ↦
          let (n, at) = get_elem?-some sp.sql_pool k (ground arith) in
          let (c, ans) = all k in
          let kept = length-set sp.sql_pool k (fresh_node k c n) in
          create-step answers rounds k c sp n running at ans
          ∙ create_loop-overflows answers rounds (k + 1) (grown sp k c n) all running
              (ground (arith, kept)) (omega (arith, kept))
    ]
  where
    edge : (k == length sp.sql_pool) ≡ true → get_elem? sp.sql_pool k ≡ none
    edge last =
        ap (get_elem? sp.sql_pool) ((==_iff k (length sp.sql_pool)).0 last)
        ∙ get_elem?-none sp.sql_pool

-- Growing a running pool, with a server that accepts every connection, adds five connections while
-- the array has room for them, and writes behind the array as soon as it has not: the limit of
-- `POOL_MAX_NUMBER` nodes is not tested here.
pub grow_bound :
    (answers : ℕ → Attempt) (sp : Pool)
    → AllConnect answers
    → sp.shutdown ≡ false
    → sp.pool_number ≤ length sp.sql_pool
    → (sp.pool_number + 5 ≤ length sp.sql_pool
        → (t : Pool) × (change_node_num answers sp 1 ≡ ok (some t))
          × (t.pool_number ≡ sp.pool_number + 5)
          × (length t.sql_pool ≡ length sp.sql_pool))
      × (length sp.sql_pool < sp.pool_number + 5
          → change_node_num answers sp 1 ≡ stop out_of_bounds)
unfolding change_node_num
grow_bound answers sp all running h = (
  (λ room. create_loop-fits answers 5 sp.pool_number sp all running room),
  (λ full. create_loop-overflows answers 5 sp.pool_number sp all running h full),
)
