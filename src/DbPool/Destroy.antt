-- ===== src/DbPool/Destroy.antt =====
-- What `sql_pool_destroy` closes: its loop counts `index` up while it counts `pool_number` down.
use mathlib.Core.Option
use mathlib.Core.Path.{subst}
use monitor_system.Base.{
  ℕ, zero, suc, ◌+◌, ◌-◌, ◌/◌, ◌≤◌, ◌<◌, ◌≡◌, refl, ◌∙◌, true, none, some, arith, ltb, ◌==◌, length,
  length-set, get_elem?, get_elem?-set_self, get_elem?-set_ne, get_elem?-some, ok, Bool-cases, inl,
  inr,
}
use monitor_system.DbPool.{destroy_loop, sql_pool_destroy}
use monitor_system.DbPool.Nodes.{Node, Pool, disconnected, put_node}

-- A node with its connection closed.
abbrev pub closed : Node → Node
closed n = record n { mysql_sock = none; sql_state = disconnected }

-- The pool `t` is `s` with the nodes from `from` up to `to` closed.
pub record Closes (from to : ℕ) (s t : Pool) : Type 0 where
  pub inside :
      (i : ℕ)
      → from ≤ i
      → i < to
      → get_elem? t.sql_pool i ≡ Option.map closed (get_elem? s.sql_pool i)
  pub before : (i : ℕ) → i < from → get_elem? t.sql_pool i ≡ get_elem? s.sql_pool i
  pub behind : (i : ℕ) → to ≤ i → get_elem? t.sql_pool i ≡ get_elem? s.sql_pool i

abbrev step : Pool → ℕ → Node → Pool
step sp k n = record (put_node sp k (closed n)) { pool_number = sp.pool_number - 1 }

Closes-none : (sp : Pool) (k to : ℕ) → to ≡ k → Closes k to sp sp
Closes-none sp k to e = record {
  inside = λ i h l. absurd (omega arith);
  before = λ i h. refl;
  behind = λ i h. refl;
}

Closes-step :
    (sp t : Pool) (k to : ℕ) (n : Node)
    → get_elem? sp.sql_pool k ≡ some n
    → k < length sp.sql_pool
    → k < to
    → Closes (k + 1) to (step sp k n) t
    → Closes k to sp t
Closes-step sp t k to n at h lt c = record {
  inside = λ i low high. elim (Bool-cases (k == i)) [
    | inl e ↦ ground (arith, c.before i, get_elem?-set_self sp.sql_pool k (closed n), at)
    | inr ne ↦ ground (arith, c.inside i, get_elem?-set_ne sp.sql_pool k i (closed n))
  ];
  before = λ i low. ground (arith, c.before i, get_elem?-set_ne sp.sql_pool k i (closed n));
  behind = λ i high. ground (arith, c.behind i, get_elem?-set_ne sp.sql_pool k i (closed n));
}

destroy-step :
    (fuel k : ℕ) (sp : Pool) (n : Node)
    → ltb k sp.pool_number ≡ true
    → get_elem? sp.sql_pool k ≡ some n
    → destroy_loop (suc fuel) k sp ≡ destroy_loop fuel (k + 1) (step sp k n)
unfolding destroy_loop
destroy-step fuel k sp n more at = ground arith

destroy_loop_lem :
    (fuel k : ℕ) (sp : Pool)
    → sp.pool_number ≤ fuel
    → sp.pool_number ≤ length sp.sql_pool
    → (t : Pool) × (destroy_loop fuel k sp ≡ ok t)
      × (t.pool_number ≡ sp.pool_number - (sp.pool_number - k + 1) / 2)
      × (t.shutdown ≡ sp.shutdown)
      × Closes k (k + (sp.pool_number - k + 1) / 2) sp t
unfolding destroy_loop
destroy_loop_lem zero k sp hf hl = (sp, refl, omega arith, refl, Closes-none sp k _ (omega arith))
destroy_loop_lem (suc fuel) k sp hf hl = elim (Bool-cases (ltb k sp.pool_number)) [
  | inr over ↦ (sp, rw over, ground arith, refl, Closes-none sp k _ (ground arith))
  | inl more ↦
      let lt : k < sp.pool_number = ground arith in
      let (n, at) = get_elem?-some sp.sql_pool k (omega arith) in
      let (t, runs, left, same, c) =
        destroy_loop_lem fuel (k + 1) (step sp k n) (omega arith)
          (omega (arith, length-set sp.sql_pool k (closed n))) in
      (
        t,
        destroy-step fuel k sp n more at ∙ runs,
        left ∙ omega arith,
        same,
        Closes-step sp t k _ n at (omega arith) (omega arith)
            (subst (λ to. Closes (k + 1) to (step sp k n) t) (omega arith) c),
      )
]

-- On a pool of `n` nodes `sql_pool_destroy` closes the first half, rounded up, and leaves the other
-- connections open and counted: `n / 2` of them stay.
pub destroy-Closes :
    (sp : Pool)
    → sp.pool_number ≤ length sp.sql_pool
    → (t : Pool) × (sql_pool_destroy sp ≡ ok t)
      × (t.shutdown ≡ true)
      × (t.pool_number ≡ sp.pool_number / 2)
      × Closes 0 ((sp.pool_number + 1) / 2) sp t
unfolding sql_pool_destroy
destroy-Closes sp h =
    let (t, runs, left, same, c) =
      destroy_loop_lem sp.pool_number 0 (record sp { shutdown = true }) (omega arith) h in
    (
      t,
      runs,
      same,
      left ∙ omega arith,
      record {
        inside = λ i low high. c.inside i low (omega arith);
        before = c.before;
        behind = λ i high. c.behind i (omega arith);
      },
    )
