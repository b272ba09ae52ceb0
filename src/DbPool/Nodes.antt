-- ===== src/DbPool/Nodes.antt =====
-- The nodes and the pool of server/db_connection_pool/db_connection_pool.h, and `create_db_connect`.
use monitor_system.Base.{
  ℕ, ◌≡◌, refl, List, Option, none, some, Bool, true, false, if◌then◌else◌, ℤ, pos, negsuc, Exec,
  ok, stop, out_of_bounds, get_elem?, set, arith,
}

abbrev pub pool_max_number : ℕ
pool_max_number = 20

-- `enum SQL_STATE`
pub data SqlState : Type 0 where
  disconnected : SqlState
  connected : SqlState

-- `SQL_NODE`, less the handle `fd`. `mysql_sock` is the connection or null; `locked` says whether the
-- mutex is held.
pub record Node : Type 0 where
  pub mysql_sock : Option ℕ
  pub locked : Bool
  pub used : Bool
  pub index : ℕ
  pub sql_state : SqlState

-- `SQL_CONN_POOL`
pub record Pool : Type 0 where
  pub shutdown : Bool
  pub sql_pool : List Node
  pub pool_number : ℕ
  pub busy_number : ℤ
  pub ip : List ℕ
  pub port : ℕ
  pub db_name : List ℕ
  pub user : List ℕ
  pub passwd : List ℕ

-- What the library answers to one attempt: `mysql_init` fails, `mysql_real_connect` fails, or the
-- connection stands.
pub data Attempt : Type 0 where
  init_fails : Attempt
  connect_fails : Attempt
  connects : ℕ → Attempt

-- `create_db_connect` past the test of `shutdown`. It sets the mutex up anew, so the lock is free
-- afterwards, also where the caller held it.
pub connect : Attempt → Node → ℤ × Node
connect init_fails node = (negsuc 0, record node { locked = false })
connect connect_fails node =
    (pos 1, record node { locked = false; mysql_sock = none; sql_state = disconnected })
connect (connects c) node = (
  pos 0,
  record node { locked = false; mysql_sock = some c; used = false; sql_state = connected },
)

unfoldable pub create_db_connect : Bool → Attempt → Node → ℤ × Node
unfolding connect
create_db_connect shutdown answer node = if shutdown then (negsuc 0, node) else connect answer node

-- `sp->sql_pool[i]`: the array has `POOL_MAX_NUMBER` nodes, and there is none behind it.
abbrev pub node_at : Pool → ℕ → Exec Node
node_at sp i = elim (get_elem? sp.sql_pool i) [ none ↦ stop out_of_bounds | some n ↦ ok n ]

abbrev pub put_node : Pool → ℕ → Node → Pool
put_node sp i n = record sp { sql_pool = set sp.sql_pool i n }

-- An attempt that answers 0 leaves a connected node with a free lock.
pub create-zero :
    (shutdown : Bool) (answer : Attempt) (node : Node)
    → (create_db_connect shutdown answer node).0 ≡ pos 0
    → ((create_db_connect shutdown answer node).1.sql_state ≡ connected)
      × ((create_db_connect shutdown answer node).1.locked ≡ false)
unfolding create_db_connect
create-zero true answer node e = absurd (cc e)
create-zero false init_fails node e = absurd (cc e)
create-zero false connect_fails node e = absurd (ground arith)
create-zero false (connects c) node e = (refl, refl)
