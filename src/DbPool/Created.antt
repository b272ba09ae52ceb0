-- ===== src/DbPool/Created.antt =====
-- The pool that `sql_pool_create` makes where MySQL accepts every connection.
use mathlib.Core.Path.{subst}
use monitor_system.Base.{
  ℕ, zero, suc, ◌+◌, ◌≤◌, ◌<◌, ◌≡◌, ◌≢◌, refl, sym, ap, ◌∙◌, inl, inr, true, false, Bool-cases,
  List, [], ◌∷◌, some, arith, length, length-set, get_elem?, get_elem?-some, get_elem?-set_self,
  get_elem?-set_ne, ltb, ◌==◌, ℤ, pos, negsuc, ok,
}
use monitor_system.DbPool.{create_loop, sql_pool_create, clamp_number}
use monitor_system.DbPool.Nodes.{Node, Pool, Attempt, connects, connected}
use monitor_system.DbPool.Resize.{create-step, fresh_node, grown}
use monitor_system.DbPool.Free.{free_among, free_nodes}
use monitor_system.DbPool.Grab.{IsOpen}

-- The node at `i` has the connection `x` and a free lock.
abbrev IsFresh : Pool → ℕ → ℕ → Type 0
IsFresh sp i x =
    (n : Node) × (get_elem? sp.sql_pool i ≡ some n)
    × (n.mysql_sock ≡ some x)
    × (n.sql_state ≡ connected)
    × (n.locked ≡ false)

grown-IsFresh :
    (c : ℕ → ℕ) (sp : Pool) (k : ℕ) (n : Node)
    → k < length sp.sql_pool
    → ((i : ℕ) → i < k → IsFresh sp i (c i))
    → (i : ℕ) → i < k + 1
    → IsFresh (grown sp k (c k) n) i (c i)
grown-IsFresh c sp k n room old i lt = elim (Bool-cases (k == i)) [
  | inl same ↦
      let here : k ≡ i = ground (arith, same) in
      subst (λ x. IsFresh (grown sp k (c k) n) x (c x)) here
        (fresh_node k (c k) n, get_elem?-set_self sp.sql_pool k _ room, refl, refl, refl)
  | inr other ↦
      let ne : k ≢ i = λ e. absurd (ground (arith, other, e)) in
      let below : i < k = ground (arith, lt, other) in
      let (m, at, sock, state, free) = old i below in
      (m, get_elem?-set_ne sp.sql_pool k i _ ne ∙ at, sock, state, free)
]

create_loop-IsFresh :
    (c : ℕ → ℕ) (answers : ℕ → Attempt) (rounds k : ℕ) (sp : Pool)
    → ((i : ℕ) → i < k + rounds → answers i ≡ connects (c i))
    → sp.shutdown ≡ false
    → sp.pool_number ≡ k
    → k + rounds ≤ length sp.sql_pool
    → ((i : ℕ) → i < k → IsFresh sp i (c i))
    → (t : Pool) × (create_loop answers rounds k sp ≡ ok (some t))
      × (t.shutdown ≡ false)
      × (t.pool_number ≡ k + rounds)
      × (length t.sql_pool ≡ length sp.sql_pool)
      × ((i : ℕ) → i < k + rounds → IsFresh t i (c i))
unfolding create_loop
create_loop-IsFresh c answers zero k sp all running number room old =
    (sp, refl, running, omega (arith, number), refl, λ i lt. old i (omega (arith, lt)))
create_loop-IsFresh c answers (suc rounds) k sp all running number room old =
    let (n, at) = get_elem?-some sp.sql_pool k (omega (arith, room)) in
    let kept = length-set sp.sql_pool k (fresh_node k (c k) n) in
    let (t, runs, open_t, size, array, fresh) =
      create_loop-IsFresh c answers rounds (k + 1) (grown sp k (c k) n)
        (λ i lt. all i (omega (arith, lt))) running (omega (arith, number))
        (omega (arith, kept, room)) (grown-IsFresh c sp k n (omega (arith, room)) old) in
    (
      t,
      create-step answers rounds k (c k) sp n running at (all k (omega arith)) ∙ runs,
      open_t,
      omega (arith, size),
      array ∙ kept,
      λ i lt. fresh i (omega (arith, lt)),
    )

all_free :
    (k : ℕ) (ns : List Node)
    → k ≤ length ns
    → ((i : ℕ) → i < k → (n : Node) × (get_elem? ns i ≡ some n) × (n.locked ≡ false))
    → free_among k ns ≡ k
unfolding free_among
all_free zero ns le h = refl
all_free (suc k) [] le h = absurd (omega (arith, le))
all_free (suc k) (n ∷ ns) le h =
    let (m, at, free) = h 0 (omega arith) in
    let same : n ≡ m = cc at in
    let unlocked : n.locked ≡ false = ap (λ x. x.locked) same ∙ free in
    let rest = all_free k ns (omega (arith, le)) (λ i lt. h (suc i) (omega (arith, lt))) in
    ground (arith, unlocked, rest)

fresh-IsOpen :
    (c : ℕ → ℕ) (sp : Pool)
    → sp.shutdown ≡ false
    → 0 < sp.pool_number
    → sp.pool_number ≤ length sp.sql_pool
    → ((i : ℕ) → i < sp.pool_number → IsFresh sp i (c i))
    → IsOpen c sp
fresh-IsOpen c sp running some_nodes room fresh = record {
  running = running;
  nonempty = some_nodes;
  in_array = room;
  up = λ k n lt at.
      let (m, there, sock, state, free) = fresh k lt in
      let same : m ≡ n = cc (there, at) in
      (ap (λ x. x.mysql_sock) (sym same) ∙ sock, ap (λ x. x.sql_state) (sym same) ∙ state);
}

-- What `strcpy` takes of the names.
abbrev pub NamesFit : List ℕ → List ℕ → List ℕ → List ℕ → Type 0
NamesFit ip db_name user passwd =
    (length ip < 16) × (length db_name < 65) × (length user < 65) × (length passwd < 65)

abbrev pub created : List Node → List ℕ → ℕ → List ℕ → List ℕ → List ℕ → Pool
created nodes ip port db_name user passwd = record {
  shutdown = false;
  sql_pool = nodes;
  pool_number = 0;
  busy_number = pos 0;
  ip = ip;
  port = port;
  db_name = db_name;
  user = user;
  passwd = passwd;
}

pub starts_empty :
    (answers : ℕ → Attempt) (nodes : List Node) (number : ℤ) (ip : List ℕ) (port : ℕ)
    (db_name user passwd : List ℕ)
    → NamesFit ip db_name user passwd
    → sql_pool_create answers (some nodes) number ip port db_name user passwd
      ≡ create_loop answers (clamp_number number) 0 (created nodes ip port db_name user passwd)
unfolding sql_pool_create
starts_empty answers nodes number ip port db_name user passwd (a, b, d, e) =
    let a' : ltb (length ip) 16 ≡ true = ground arith in
    let b' : ltb (length db_name) 65 ≡ true = ground arith in
    let d' : ltb (length user) 65 ≡ true = ground arith in
    let e' : ltb (length passwd) 65 ≡ true = ground arith in simp (a', b', d', e')

pub clamp_bounds : (number : ℤ) → (0 < clamp_number number) × (clamp_number number ≤ 20)
unfolding clamp_number
clamp_bounds (pos n) = ground arith
clamp_bounds (negsuc n) = omega arith

-- With an array of 20 nodes, names that fit and a MySQL server that accepts as many connections
-- as `clamp_number` says, the pool is open with so many nodes, all connected and free.
pub sql_pool_create-IsOpen :
    (c : ℕ → ℕ) (answers : ℕ → Attempt) (nodes : List Node) (number : ℤ) (ip : List ℕ) (port : ℕ)
    (db_name user passwd : List ℕ)
    → ((i : ℕ) → i < clamp_number number → answers i ≡ connects (c i))
    → length nodes ≡ 20
    → NamesFit ip db_name user passwd
    → (t : Pool) × (sql_pool_create answers (some nodes) number ip port db_name user passwd
        ≡ ok (some t))
      × IsOpen c t
      × (free_nodes t ≡ clamp_number number)
sql_pool_create-IsOpen c answers nodes number ip port db_name user passwd all size fit =
    let start = created nodes ip port db_name user passwd in
    let (positive, most) = clamp_bounds number in
    let (t, runs, running, count, array, fresh) =
      create_loop-IsFresh c answers (clamp_number number) 0 start
        (λ i lt. all i (omega (arith, lt))) refl refl (omega (arith, most, size))
        (λ i lt. absurd (omega (arith, lt))) in
    let room : t.pool_number ≤ length t.sql_pool = omega (arith, count, array, most, size) in
    (
      t,
      starts_empty answers nodes number ip port db_name user passwd fit ∙ runs,
      fresh-IsOpen c t running (omega (arith, count, positive)) room
          (λ i lt. fresh i (omega (arith, lt, count))),
      all_free t.pool_number t.sql_pool room (λ i lt.
            let (n, at, sock, state, free) = fresh i (omega (arith, lt, count)) in (n, at, free))
          ∙ omega (arith, count),
    )
