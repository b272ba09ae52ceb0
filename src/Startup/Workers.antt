-- ===== src/Startup/Workers.antt =====
-- The threads that `main` of server/server.cpp creates for `do_task`: each takes a connection of the
-- pool before its loop.
use mathlib.Core.Path.{subst}
use monitor_system.Base.{
  ℕ, suc, ◌+◌, ◌≤◌, ◌<◌, ◌≡◌, ◌≢◌, refl, sym, ap, ◌∙◌, inl, inr, Bool, true, false, Bool-cases,
  List, [], ◌∷◌, All, map, Option, some, arith, length, get_elem?, get_elem?-set_self, leb, ◌==◌,
  Exec, ok, stop, codes, pos, null_pointer, ◌>>=◌,
}
use monitor_system.DbPool.{sql_pool_create, clamp_number}
use monitor_system.DbPool.Created.{sql_pool_create-IsOpen}
use monitor_system.Startup.ServerMain.{Boot, create_pool, or_exit}
use monitor_system.DbPool.Nodes.{Node, Pool, Attempt, connects, node_at}
use monitor_system.DbPool.Free.{free_nodes, none_free}
use monitor_system.DbPool.Grab.{
  IsOpen, Grabs, IsFreeAt, get_db_connect-Grabs, Grabs-IsOpen, Grabs-before,
}
use monitor_system.Storing.Worker.{connection, take_connection, exhausted_pool_crashes}

-- The workers come to their first line in some order, with one result of `rand()` for each.
unfoldable pub start_workers :
    (ℕ → Attempt) → (ℕ → Bool) → List ℕ → Pool → Exec (List (Option ℕ) × Pool)
start_workers answers pings [] sp = ok ([], sp)
start_workers answers pings (random ∷ rs) sp = take_connection answers pings random sp >>= λ r.
    start_workers answers pings rs r.1 >>= λ more. ok (r.0 ∷ more.0, more.1)

abbrev pub AreDistinct : List ℕ → Type 0
AreDistinct [] = Unit
AreDistinct (j ∷ js) = All (λ i. j ≢ i) js × AreDistinct js

-- The workers `rs` have the connections of the nodes `js`, all different and free in `sp`.
abbrev pub Served : (ℕ → Attempt) → (ℕ → Bool) → (ℕ → ℕ) → List ℕ → Pool → Type 0
Served answers pings c rs sp =
    (js : List ℕ) × (t : Pool) × (start_workers answers pings rs sp
      ≡ ok (map (λ j. some (c j)) js, t))
    × (length js ≡ length rs)
    × AreDistinct js
    × All (IsFreeAt sp) js
    × (free_nodes t + length rs ≡ free_nodes sp)

-- Whether there are nodes enough for all workers.
abbrev pub Started : Bool → (ℕ → Attempt) → (ℕ → Bool) → (ℕ → ℕ) → List ℕ → Pool → Type 0
Started true answers pings c rs sp = Served answers pings c rs sp
Started false answers pings c rs sp = start_workers answers pings rs sp ≡ stop null_pointer

module _ (answers : ℕ → Attempt) (pings : ℕ → Bool) (c : ℕ → ℕ)
    (alive : (k : ℕ) → pings k ≡ true) where
  -- Where a node is free, the next worker has it and its connection to itself.
  takes_free :
      (random : ℕ) (sp : Pool)
      → IsOpen c sp
      → 0 < free_nodes sp
      → (j : ℕ) × (t : Pool) × (take_connection answers pings random sp ≡ ok (some (c j), t))
        × Grabs j sp t
  unfolding take_connection
  takes_free random sp o p =
      let (j, t, found, grabs) = get_db_connect-Grabs answers pings c alive random sp o p in
      let (n, lt, at, free, pool) = grabs in
      let (open_t, less) = Grabs-IsOpen c j sp t o grabs in
      let here : get_elem? t.sql_pool j ≡ some (record n { locked = true; used = true }) =
        ap (λ x. get_elem? x.sql_pool j) pool
        ∙ get_elem?-set_self sp.sql_pool j _ (omega (arith, lt, o.in_array)) in
      let node : node_at t j ≡ ok (record n { locked = true; used = true }) =
        ground (arith, here) in
      (
        j,
        t,
        ap (λ r. r >>= λ q. connection q.1 q.0) found
            ∙ ap (λ r. r >>= λ y. ok (y.mysql_sock, t)) node
            ∙ ap (λ r. ok (r, t)) (o.up j n lt at).0,
        grabs,
      )

  one_more :
      (random j : ℕ) (rs : List ℕ) (sp t : Pool)
      → take_connection answers pings random sp ≡ ok (some (c j), t)
      → start_workers answers pings (random ∷ rs) sp
        ≡ (start_workers answers pings rs t >>= λ more. ok (some (c j) ∷ more.0, more.1))
  unfolding start_workers
  one_more random j rs sp t taken =
      ap (λ x. x >>= λ r. start_workers answers pings rs r.1 >>= λ more. ok (r.0 ∷ more.0, more.1))
        taken

  served :
      (rs : List ℕ) (sp : Pool)
      → IsOpen c sp
      → length rs ≤ free_nodes sp
      → Served answers pings c rs sp
  unfolding start_workers
  served [] sp o enough = ([], sp, refl, refl, tt, tt, omega arith)
  served (random ∷ rs) sp o enough =
      let (j, t, taken, grabs) = takes_free random sp o (omega (arith, enough)) in
      let (n, lt, at, free, pool) = grabs in
      let (still, fewer) = Grabs-IsOpen c j sp t o grabs in
      let (js, u, run, size, distinct, frees, left) =
        served rs t still (omega (arith, enough, fewer)) in
      let (others, before) = Grabs-before c j sp t js o grabs frees in
      (
        j ∷ js,
        u,
        one_more random j rs sp t taken
            ∙ ap (λ x. x >>= λ more. ok (some (c j) ∷ more.0, more.1)) run,
        ap suc size,
        (others, distinct),
        ((n, at, free), before),
        omega (arith, left, fewer),
      )

  starved :
      (rs : List ℕ) (sp : Pool)
      → IsOpen c sp
      → free_nodes sp < length rs
      → start_workers answers pings rs sp ≡ stop null_pointer
  unfolding start_workers
  starved [] sp o short = absurd (omega (arith, short))
  starved (random ∷ rs) sp o short = elim (Bool-cases (free_nodes sp == 0)) [
    | inl none_left ↦
        let crash =
          exhausted_pool_crashes answers pings random sp o.nonempty o.in_array
            (none_free sp.pool_number sp.sql_pool (ground (arith, none_left))) in
        ap
          (λ x. x >>= λ r. start_workers answers pings rs r.1 >>= λ more. ok (r.0 ∷ more.0, more.1))
          crash
    | inr some_left ↦
        let (j, t, taken, grabs) = takes_free random sp o (ground (arith, some_left)) in
        let (still, fewer) = Grabs-IsOpen c j sp t o grabs in
        one_more random j rs sp t taken
        ∙ ap (λ x. x >>= λ more. ok (some (c j) ∷ more.0, more.1))
            (starved rs t still (omega (arith, short, fewer)))
  ]

  open_pool :
      (rs : List ℕ) (sp : Pool)
      → IsOpen c sp
      → Started (leb (length rs) (free_nodes sp)) answers pings c rs sp
  open_pool rs sp o = elim (Bool-cases (leb (length rs) (free_nodes sp))) [
    | inl enough ↦
        subst (λ b. Started b answers pings c rs sp) (sym enough)
          (served rs sp o (ground (arith, enough)))
    | inr short ↦
        subst (λ b. Started b answers pings c rs sp) (sym short)
          (starved rs sp o (ground (arith, short)))
  ]

-- The pool of `main`, where MySQL accepts every connection.
pub create_pool-IsOpen :
    (c : ℕ → ℕ) (b : Boot) (nodes : List Node)
    → b.nodes ≡ some nodes
    → length nodes ≡ 20
    → ((i : ℕ) → b.attempts i ≡ connects (c i))
    → (sp : Pool) × (create_pool b ≡ ok sp) × IsOpen c sp × (free_nodes sp ≡ 10)
unfolding create_pool clamp_number
create_pool-IsOpen c b nodes some_nodes size all =
    let (sp, runs, opened, count) =
      sql_pool_create-IsOpen c b.attempts nodes (pos 10) (codes "127.0.0.0.1") 3306 (codes "mysql")
        (codes "root") (codes "12345678") (λ i lt. all i) size
        (omega arith, omega arith, omega arith, omega arith) in
    (
      sp,
      ap
            (λ x.
              sql_pool_create b.attempts x (pos 10) (codes "127.0.0.0.1") 3306 (codes "mysql")
                (codes "root") (codes "12345678")
              >>= or_exit)
            some_nodes
          ∙ ap (λ r. r >>= or_exit) runs,
      opened,
      count,
    )

-- If `malloc` gives the 20 nodes and MySQL accepts every connection and answers every ping, the
-- server makes its pool, and its workers, in whatever order they come and wherever their searches
-- start, each have the connection of a node of their own that was free, as long as there are ten
-- workers at most. With more threads than that, which `-T` and the configuration may ask for, one
-- of them follows a null pointer.
pub workers_and_connections :
    (c : ℕ → ℕ) (b : Boot) (nodes : List Node) (answers : ℕ → Attempt) (pings : ℕ → Bool)
    (rs : List ℕ)
    → b.nodes ≡ some nodes
    → length nodes ≡ 20
    → ((i : ℕ) → b.attempts i ≡ connects (c i))
    → ((k : ℕ) → pings k ≡ true)
    → (sp : Pool) × (create_pool b ≡ ok sp) × Started (leb (length rs) 10) answers pings c rs sp
workers_and_connections c b nodes answers pings rs some_nodes size all alive =
    let (sp, runs, opened, count) = create_pool-IsOpen c b nodes some_nodes size all in
    (
      sp,
      runs,
      subst (λ k. Started (leb (length rs) k) answers pings c rs sp) count
          (open_pool answers pings c alive rs sp opened),
    )
