-- ===== src/DbPool/AllOrNone.antt =====
-- `sql_pool_create` with a MySQL server that accepts some connections and refuses others.
use mathlib.Core.Path.{subst}
use monitor_system.Base.{
  ℕ, zero, suc, ◌+◌, ◌≤◌, ◌<◌, ◌≡◌, refl, sym, ◌∙◌, inl, inr, ◌⊎◌, Bool, true, false, ◌&&◌,
  Bool-cases, List, none, some, arith, length, length-set, get_elem?, get_elem?-some, ◌==◌, ℤ, pos,
  negsuc, ok,
}
use monitor_system.DbPool.{create_loop, sql_pool_create, clamp_number}
use monitor_system.DbPool.Nodes.{
  Node, Pool, Attempt, init_fails, connect_fails, connects, create_db_connect, put_node,
}
use monitor_system.DbPool.Destroy.{destroy-Closes}
use monitor_system.DbPool.Resize.{create-step, fresh_node, grown}
use monitor_system.DbPool.Free.{free_nodes}
use monitor_system.DbPool.Grab.{IsOpen}
use monitor_system.DbPool.Created.{
  NamesFit, created, starts_empty, clamp_bounds, sql_pool_create-IsOpen,
}

-- Whether an attempt makes a connection, and which.
abbrev pub succeeds : Attempt → Bool
succeeds init_fails = false
succeeds connect_fails = false
succeeds (connects c) = true

abbrev pub socket : Attempt → ℕ
socket init_fails = 0
socket connect_fails = 0
socket (connects c) = c

-- All of `n` attempts from the `k`-th on do.
unfoldable pub all_succeed : (ℕ → Attempt) → ℕ → ℕ → Bool
all_succeed answers k zero = true
all_succeed answers k (suc n) = succeeds (answers k) && all_succeed answers (k + 1) n

succeeds-connects : (a : Attempt) → succeeds a ≡ true → a ≡ connects (socket a)
succeeds-connects init_fails e = absurd (cc e)
succeeds-connects connect_fails e = absurd (cc e)
succeeds-connects (connects c) e = refl

all_succeed-at :
    (answers : ℕ → Attempt) (n k i : ℕ)
    → all_succeed answers k n ≡ true
    → k ≤ i
    → i < k + n
    → answers i ≡ connects (socket (answers i))
unfolding all_succeed
all_succeed-at answers zero k i e low high = absurd (omega (arith, low, high))
all_succeed-at answers (suc n) k i e low high = elim (Bool-cases (k == i)) [
  | inl here ↦
      let same : k ≡ i = ground (arith, here) in
      subst (λ x. answers x ≡ connects (socket (answers x))) same
        (succeeds-connects (answers k) (ground (arith, e)))
  | inr later ↦
      all_succeed-at answers n (k + 1) i (ground (arith, e)) (ground (arith, later, low))
        (omega (arith, high))
]

refused :
    (shutdown : Bool) (a : Attempt) (n : Node)
    → shutdown ≡ false
    → succeeds a ≡ false
    → ((create_db_connect shutdown a n).0 ≡ negsuc 0) ⊎ ((create_db_connect shutdown a n).0 ≡ pos 1)
unfolding create_db_connect
refused true a n running e = absurd (cc running)
refused false init_fails n running e = inl refl
refused false connect_fails n running e = inr refl
refused false (connects c) n running e = absurd (cc e)

create-refused :
    (answers : ℕ → Attempt) (rounds k : ℕ) (sp : Pool) (n : Node)
    → sp.shutdown ≡ false
    → sp.pool_number ≤ length sp.sql_pool
    → get_elem? sp.sql_pool k ≡ some n
    → succeeds (answers k) ≡ false
    → create_loop answers (suc rounds) k sp ≡ ok none
unfolding create_loop
create-refused answers rounds k sp n running room at e =
    let made = (create_db_connect sp.shutdown (answers k) n).1 in
    let (t, destroyed, closing, left, closed) =
      destroy-Closes (put_node sp k made) (omega (arith, room, length-set sp.sql_pool k made)) in
    elim (refused sp.shutdown (answers k) n running e) [
      | inl no_init ↦ ground (arith, at, no_init, destroyed)
      | inr no_connection ↦ ground (arith, at, no_connection, destroyed)
    ]

create_loop-refused :
    (answers : ℕ → Attempt) (rounds k : ℕ) (sp : Pool)
    → all_succeed answers k rounds ≡ false
    → sp.shutdown ≡ false
    → sp.pool_number ≡ k
    → k + rounds ≤ length sp.sql_pool
    → create_loop answers rounds k sp ≡ ok none
unfolding all_succeed
create_loop-refused answers zero k sp some_fails running number room = absurd (cc some_fails)
create_loop-refused answers (suc rounds) k sp some_fails running number room =
    let (n, at) = get_elem?-some sp.sql_pool k (omega (arith, room)) in
    elim (Bool-cases (succeeds (answers k))) [
      | inr fails ↦
          create-refused answers rounds k sp n running (omega (arith, number, room)) at fails
      | inl connected ↦
          let c = socket (answers k) in
          let kept = length-set sp.sql_pool k (fresh_node k c n) in
          create-step answers rounds k c sp n running at (succeeds-connects (answers k) connected)
          ∙ create_loop-refused answers rounds (k + 1) (grown sp k c n)
              (ground (arith, some_fails, connected)) running (omega (arith, number))
              (omega (arith, kept, room))
    ]

-- What `sql_pool_create` comes to, by whether all attempts succeed.
abbrev pub Created :
    Bool → (ℕ → Attempt) → List Node → ℤ → List ℕ → ℕ → List ℕ → List ℕ → List ℕ → Type 0
Created true answers nodes number ip port db_name user passwd =
    (t : Pool) × (sql_pool_create answers (some nodes) number ip port db_name user passwd
      ≡ ok (some t))
    × IsOpen (λ i. socket (answers i)) t
    × (free_nodes t ≡ clamp_number number)
Created false answers nodes number ip port db_name user passwd =
    sql_pool_create answers (some nodes) number ip port db_name user passwd ≡ ok none

-- With an array of 20 nodes and names that fit, `sql_pool_create` never faults. Whatever number is
-- asked for, and whatever the MySQL server answers, the number is brought between 1 and 20, and the
-- result is an open pool with so many nodes, all free and with the connections of their attempts, if
-- every attempt succeeds, and else the null pointer.
pub sql_pool_create_cases :
    (answers : ℕ → Attempt) (nodes : List Node) (number : ℤ) (ip : List ℕ) (port : ℕ)
    (db_name user passwd : List ℕ)
    → length nodes ≡ 20
    → NamesFit ip db_name user passwd
    → (1 ≤ clamp_number number)
      × (clamp_number number ≤ 20)
      × Created
          (all_succeed answers 0 (clamp_number number))
          answers
          nodes
          number
          ip
          port
          db_name
          user
          passwd
sql_pool_create_cases answers nodes number ip port db_name user passwd size fit =
    let (positive, most) = clamp_bounds number in
    (
      positive,
      most,
      elim (Bool-cases (all_succeed answers 0 (clamp_number number))) [
        | inl all ↦
            subst (λ b. Created b answers nodes number ip port db_name user passwd) (sym all)
              (sql_pool_create-IsOpen (λ i. socket (answers i)) answers nodes number ip port db_name
                user passwd
                (λ i lt.
                  all_succeed-at answers (clamp_number number) 0 i all (omega arith)
                    (omega (arith, lt)))
                size fit)
        | inr some_fails ↦
            subst (λ b. Created b answers nodes number ip port db_name user passwd) (sym some_fails)
              (starts_empty answers nodes number ip port db_name user passwd fit
                ∙ create_loop-refused answers (clamp_number number) 0
                    (created nodes ip port db_name user passwd) some_fails refl refl
                    (omega (arith, most, size)))
      ],
    )
