-- ===== src/DbPool/Free.antt =====
-- How many nodes of a pool are free.
use monitor_system.Base.{
  ℕ, zero, suc, ◌+◌, ◌<◌, ◌≡◌, refl, ap, ◌∙◌, inl, inr, true, false, Bool-cases, List, [], ◌∷◌, All,
  some, arith, take, get_elem?, set, if◌then◌else◌,
}
use monitor_system.DbPool.Nodes.{Node, Pool}

-- How many of the first `k` nodes are unlocked.
unfoldable pub free_among : ℕ → List Node → ℕ
free_among zero ns = 0
free_among (suc k) [] = 0
free_among (suc k) (n ∷ ns) = let rest = free_among k ns in if n.locked then rest else rest + 1

abbrev pub free_nodes : Pool → ℕ
free_nodes sp = free_among sp.pool_number sp.sql_pool

pub none_free :
    (k : ℕ) (ns : List Node) → free_among k ns ≡ 0 → All (λ n. n.locked ≡ true) (take k ns)
unfolding free_among
none_free zero ns e = tt
none_free (suc k) [] e = tt
none_free (suc k) (n ∷ ns) e = elim (Bool-cases n.locked) [
  | inl held ↦ (held, none_free k ns (ground (arith, e)))
  | inr free ↦ absurd (ground (arith, e))
]

pub some_free :
    (k : ℕ) (ns : List Node)
    → 0 < free_among k ns
    → (i : ℕ) × (n : Node) × (i < k) × (get_elem? ns i ≡ some n) × (n.locked ≡ false)
unfolding free_among
some_free zero ns p = absurd (omega arith)
some_free (suc k) [] p = absurd (omega arith)
some_free (suc k) (n ∷ ns) p = elim (Bool-cases n.locked) [
  | inl held ↦
      let (i, m, lt, at, free) = some_free k ns (ground (arith, p)) in
      (suc i, m, omega (arith, lt), at, free)
  | inr free ↦ (0, n, omega arith, refl, free)
]

pub one_less :
    (k : ℕ) (ns : List Node) (j : ℕ) (n m : Node)
    → j < k
    → get_elem? ns j ≡ some n
    → n.locked ≡ false
    → m.locked ≡ true
    → free_among k (set ns j m) + 1 ≡ free_among k ns
unfolding free_among
one_less zero ns j n m lt at free held = absurd (omega arith)
one_less (suc k) [] j n m lt at free held = absurd (cc at)
one_less (suc k) (x ∷ ns) zero n m lt at free held =
    let same : x ≡ n = cc at in
    let x_free : x.locked ≡ false = ap (λ y. y.locked) same ∙ free in rw (held, x_free) refl
one_less (suc k) (x ∷ ns) (suc j) n m lt at free held =
    let ih = one_less k ns j n m (omega (arith, lt)) at free held in ground (arith, ih)
