-- ===== src/DbPool/Grab.antt =====
-- What `get_db_connect` does to a pool with all nodes connected: one free node less each time.
use mathlib.Core.Path.{subst}
use monitor_system.Base.{
  ℕ, zero, suc, ◌+◌, ◌%◌, ◌≤◌, ◌<◌, ◌≡◌, ◌≢◌, refl, sym, ap, ◌∙◌, inl, inr, Bool, true, false,
  Bool-cases, List, [], ◌∷◌, All, Option, some, arith, length, length-set, get_elem?,
  get_elem?-some, get_elem?-set_self, get_elem?-set_ne, ◌==◌, inc, Exec, ok,
}
use monitor_system.DbPool.{use_node, check_node, get_loop, get_db_connect}
use monitor_system.DbPool.Free.{free_nodes, some_free, one_less}
use monitor_system.DbPool.Nodes.{Node, Pool, Attempt, connected, put_node}
use monitor_system.DbPool.Search.{get_loop-round, free_node_found}

-- Every node of the pool has the connection `c` of its index.
abbrev pub IsUp : (ℕ → ℕ) → Pool → Type 0
IsUp c sp =
    (k : ℕ) (n : Node)
    → k < sp.pool_number
    → get_elem? sp.sql_pool k ≡ some n
    → (n.mysql_sock ≡ some (c k)) × (n.sql_state ≡ connected)

-- A pool that serves requests.
pub record IsOpen (c : ℕ → ℕ) (sp : Pool) : Type 0 where
  pub running : sp.shutdown ≡ false
  pub nonempty : 0 < sp.pool_number
  pub in_array : sp.pool_number ≤ length sp.sql_pool
  pub up : IsUp c sp

-- The pool once its node `n` at `j` is handed out.
abbrev pub grabbed : ℕ → Node → Pool → Pool
grabbed j n sp =
    put_node (record sp { busy_number = inc sp.busy_number }) j
      (record n { locked = true; used = true })

abbrev pub Grabs : ℕ → Pool → Pool → Type 0
Grabs j sp t =
    (n : Node) × (j < sp.pool_number)
    × (get_elem? sp.sql_pool j ≡ some n)
    × (n.locked ≡ false)
    × (t ≡ grabbed j n sp)

grabbed-at :
    (j : ℕ) (sp : Pool) (n : Node)
    → j < length sp.sql_pool
    → get_elem? (grabbed j n sp).sql_pool j ≡ some (record n { locked = true; used = true })
grabbed-at j sp n lt = get_elem?-set_self sp.sql_pool j _ lt

grabbed-IsUp :
    (c : ℕ → ℕ) (j : ℕ) (sp : Pool) (n : Node)
    → IsOpen c sp
    → j < sp.pool_number
    → get_elem? sp.sql_pool j ≡ some n
    → IsUp c (grabbed j n sp)
grabbed-IsUp c j sp n o lt at k m below there = elim (Bool-cases (j == k)) [
  | inl same ↦
      let here : j ≡ k = ground (arith, same) in
      let moved : get_elem? (grabbed j n sp).sql_pool j ≡ some m =
        ap (λ x. get_elem? (grabbed j n sp).sql_pool x) here ∙ there in
      let node : record n { locked = true; used = true } ≡ m =
        cc (grabbed-at j sp n (omega (arith, lt, o.in_array)), moved) in
      let (sock, state) = o.up j n lt at in
      (
        ap (λ x. x.mysql_sock) (sym node) ∙ sock ∙ ap (λ x. some (c x)) here,
        ap (λ x. x.sql_state) (sym node) ∙ state,
      )
  | inr other ↦
      let ne : j ≢ k = λ e. absurd (ground (arith, other, e)) in
      o.up k m below (sym (get_elem?-set_ne sp.sql_pool j k _ ne) ∙ there)
]

grabbed-IsOpen :
    (c : ℕ → ℕ) (j : ℕ) (sp : Pool) (n : Node)
    → IsOpen c sp
    → j < sp.pool_number
    → get_elem? sp.sql_pool j ≡ some n
    → IsOpen c (grabbed j n sp)
grabbed-IsOpen c j sp n o lt at = record {
  running = o.running;
  nonempty = o.nonempty;
  in_array =
      omega (arith, o.in_array, length-set sp.sql_pool j (record n { locked = true; used = true }));
  up = grabbed-IsUp c j sp n o lt at;
}

-- A node whose lock is free.
abbrev pub IsFreeAt : Pool → ℕ → Type 0
IsFreeAt sp i = (n : Node) × (get_elem? sp.sql_pool i ≡ some n) × (n.locked ≡ false)

-- What is free once `j` is handed out is another node, and was free before.
free_before :
    (j i : ℕ) (sp : Pool) (n : Node)
    → j < length sp.sql_pool
    → IsFreeAt (grabbed j n sp) i
    → (j ≢ i) × IsFreeAt sp i
free_before j i sp n lt (m, at, free) =
    let ne : j ≢ i = λ e.
      let node : record n { locked = true; used = true } ≡ m =
        cc (sym (grabbed-at j sp n lt) ∙ ap (λ x. get_elem? (grabbed j n sp).sql_pool x) e ∙ at) in
      let held : true ≡ m.locked = ap (λ x. x.locked) node in absurd (cc (held, free)) in
    (ne, (m, sym (get_elem?-set_ne sp.sql_pool j i _ ne) ∙ at, free))

pub search_open :
    (answers : ℕ → Attempt) (pings : ℕ → Bool) (random : ℕ) (sp : Pool)
    → sp.shutdown ≡ false
    → 0 < sp.pool_number
    → get_db_connect answers pings random sp
      ≡ get_loop answers pings (random % sp.pool_number) sp.pool_number 0 sp
unfolding get_db_connect
search_open answers pings random sp running size = ground (arith, running)

all_before :
    (j : ℕ) (sp : Pool) (n : Node) (is : List ℕ)
    → j < length sp.sql_pool
    → All (IsFreeAt (grabbed j n sp)) is
    → All (λ i. j ≢ i) is × All (IsFreeAt sp) is
all_before j sp n [] lt h = (tt, tt)
all_before j sp n (i ∷ is) lt (f, h) =
    let (ne, free) = free_before j i sp n lt f in
    let (others, frees) = all_before j sp n is lt h in ((ne, others), (free, frees))

module _ (answers : ℕ → Attempt) (pings : ℕ → Bool) (c : ℕ → ℕ)
    (alive : (k : ℕ) → pings k ≡ true) where
  use_up :
      (sp : Pool) (j : ℕ) (n : Node)
      → n.sql_state ≡ connected
      → use_node (answers j) (pings j) sp j (record n { locked = true }) n.sql_state
        ≡ (true, grabbed j n sp)
  unfolding use_node check_node
  use_up sp j n e = rw (e, alive j) refl

  get_loop-Grabs :
      (start rounds i j : ℕ) (sp t : Pool)
      → IsOpen c sp
      → get_loop answers pings start rounds i sp ≡ ok (some j, t)
      → Grabs j sp t
  get_loop-Grabs start zero i j sp t o e = absurd (unfold get_loop in cc e)
  get_loop-Grabs start (suc rounds) i j sp t o e =
      let k = (start + i) % sp.pool_number in
      let below : k < sp.pool_number = omega (arith, o.nonempty) in
      let (m, at) = get_elem?-some sp.sql_pool k (omega (arith, o.in_array)) in
      let round = get_loop-round answers pings start rounds i sp m at in
      let used = use_up sp k m (o.up k m below at).1 in
      elim (Bool-cases m.locked) [
        | inl held ↦ get_loop-Grabs start rounds (i + 1) j sp t o (ground (arith, round, e))
        | inr free ↦
            let first : ◌≡◌ {A = Exec (Option ℕ × Pool)} (ok (some k, grabbed k m sp))
                (ok (some j, t)) =
              ground (arith, round, used, e) in
            let here : k ≡ j = cc first in
            let pool : t ≡ grabbed k m sp = cc first in
            subst (λ x. Grabs x sp t) here (m, below, at, free, pool)
      ]

  -- Where a node is free, the next caller has one.
  pub get_db_connect-Grabs :
      (random : ℕ) (sp : Pool)
      → IsOpen c sp
      → 0 < free_nodes sp
      → (j : ℕ) × (t : Pool) × (get_db_connect answers pings random sp ≡ ok (some j, t))
        × Grabs j sp t
  get_db_connect-Grabs random sp o p =
      let (i, n, lt, at, free) = some_free sp.pool_number sp.sql_pool p in
      let (j, t, found, out) = free_node_found answers pings random i n sp o.running (record {
        in_range = lt;
        in_array = o.in_array;
        stored = at;
        unlocked = free;
        state = (o.up i n lt at).1;
        answers = alive i;
      }) in
      let search = search_open answers pings random sp o.running o.nonempty in
      (
        j,
        t,
        found,
        get_loop-Grabs (random % sp.pool_number) sp.pool_number 0 j sp t o (sym search ∙ found),
      )

-- What is left then.
pub Grabs-IsOpen :
    (c : ℕ → ℕ) (j : ℕ) (sp t : Pool)
    → IsOpen c sp
    → Grabs j sp t
    → IsOpen c t × (free_nodes t + 1 ≡ free_nodes sp)
Grabs-IsOpen c j sp t o (n, lt, at, free, pool) = (
  subst (IsOpen c) (sym pool) (grabbed-IsOpen c j sp n o lt at),
  ap (λ x. free_nodes x + 1) pool ∙ one_less sp.pool_number sp.sql_pool j n _ lt at free refl,
)

pub Grabs-before :
    (c : ℕ → ℕ) (j : ℕ) (sp t : Pool) (is : List ℕ)
    → IsOpen c sp
    → Grabs j sp t
    → All (IsFreeAt t) is
    → All (λ i. j ≢ i) is × All (IsFreeAt sp) is
Grabs-before c j sp t is o (n, lt, at, free, pool) h =
    all_before j sp n is (omega (arith, lt, o.in_array)) (subst (λ x. All (IsFreeAt x) is) pool h)
