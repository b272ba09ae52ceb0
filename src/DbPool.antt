-- ===== src/DbPool.antt =====
-- server/db_connection_pool: the pool of MySQL connections. The MySQL library is not modelled: what
-- its calls answer are arguments.
pub mod Nodes
pub mod Destroy
pub mod Acquire
pub mod Search
pub mod Free
pub mod Grab
pub mod Created
pub mod AllOrNone
pub mod Drift
pub mod Resize
mod Tests
use monitor_system.Base.{
  ℕ, zero, suc, ◌+◌, ◌-◌, ◌%◌, List, Option, none, some, Bool, true, false, ltb, ◌==◌,
  if◌then◌else◌, ℤ, pos, negsuc, inc, dec, Exec, ok, stop, out_of_bounds, division_by_zero, ◌>>=◌,
  get_elem?, set, strcpy,
}
use Nodes.{
  Node, Attempt, Pool, pool_max_number, create_db_connect, SqlState, node_at, put_node,
  disconnected, connected,
}

-- `release_node`, for the node at `i`: the mark, the counter and the lock.
unfoldable pub release_node : Pool → ℕ → Node → Pool
release_node sp i node =
    put_node (record sp { busy_number = dec sp.busy_number }) i
      (record node { used = false; locked = false })

-- The loop of `sql_pool_destroy` from `index` on. `fuel` bounds its rounds; `pool_number` falls in
-- each, so that many are enough.
unfoldable pub destroy_loop : ℕ → ℕ → Pool → Exec Pool
destroy_loop zero index sp = ok sp
destroy_loop (suc fuel) index sp =
    let round = node_at sp index >>= λ node.
    destroy_loop fuel (index + 1)
      (record (put_node sp index (record node { mysql_sock = none; sql_state = disconnected })) {
        pool_number = sp.pool_number - 1;
      }) in
    if ltb index sp.pool_number then round else ok sp

unfoldable pub sql_pool_destroy : Pool → Exec Pool
sql_pool_destroy sp = destroy_loop sp.pool_number 0 (record sp { shutdown = true })

-- Connecting the nodes from `index` on, `rounds` of them: the loop of `sql_pool_create` and of the
-- growing branch of `changeNodeNum`. `none` after a failure, with the pool destroyed.
unfoldable pub create_loop : (ℕ → Attempt) → ℕ → ℕ → Pool → Exec (Option Pool)
create_loop answers zero index sp = ok (some sp)
create_loop answers (suc rounds) index sp = node_at sp index >>= λ node.
    let (res, made) = create_db_connect sp.shutdown (answers index) node in
    let more =
      create_loop answers rounds (index + 1)
        (record (put_node sp index (record made { index = index })) {
          pool_number = sp.pool_number + 1;
        }) in
    let failed = sql_pool_destroy (put_node sp index made) >>= λ _. ok none in
    elim res [ pos n ↦ (if n == 0 then more else failed) | negsuc n ↦ failed ]

-- The number of connections that `sql_pool_create` goes for.
unfoldable pub clamp_number : ℤ → ℕ
clamp_number (negsuc n) = 1
clamp_number (pos n) = if ltb n 1 then 1 else (if ltb pool_max_number n then pool_max_number else n)

-- `sql_pool_create`. `allocated` is what `malloc` returns, with whatever the nodes then hold.
unfoldable pub sql_pool_create :
    (ℕ → Attempt)
    → Option (List Node)
    → ℤ
    → List ℕ
    → ℕ
    → List ℕ
    → List ℕ
    → List ℕ
    → Exec (Option Pool)
sql_pool_create answers none number ip port db_name user passwd = ok none
sql_pool_create answers (some nodes) number ip port db_name user passwd = strcpy 16 ip >>= λ ip'.
    strcpy 65 db_name >>= λ db'. strcpy 65 user >>= λ user'. strcpy 65 passwd >>= λ passwd'.
    create_loop answers (clamp_number number) 0 (record {
      shutdown = false;
      sql_pool = nodes;
      pool_number = 0;
      busy_number = pos 0;
      ip = ip';
      port = port;
      db_name = db';
      user = user';
      passwd = passwd';
    })

-- `mysql_ping` and what follows; `true` if the node is handed out.
unfoldable pub check_node : Bool → Pool → ℕ → Node → Bool × Pool
check_node true sp index node = (
  true,
  put_node (record sp { busy_number = inc sp.busy_number }) index (record node { used = true }),
)
check_node false sp index node =
    (false, release_node sp index (record node { sql_state = disconnected }))

-- The reconnection has answered: `res` is 0 for success.
unfoldable pub after_connect : Bool → Pool → ℕ → ℤ × Node → Bool × Pool
unfolding check_node
after_connect ping sp index (pos zero, made) = check_node ping sp index made
after_connect ping sp index (pos (suc n), made) = (false, release_node sp index made)
after_connect ping sp index (negsuc n, made) = (false, release_node sp index made)

-- The body of the loop of `get_db_connect` once `trylock` has succeeded, for the node with its lock
-- held. `ping` is `true` if `mysql_ping` returns 0.
unfoldable pub use_node : Attempt → Bool → Pool → ℕ → Node → SqlState → Bool × Pool
unfolding after_connect
use_node answer ping sp index node connected = check_node ping sp index node
use_node answer ping sp index node disconnected =
    after_connect ping sp index (create_db_connect sp.shutdown answer node)

-- The loop of `get_db_connect`, with `rounds` of it left.
unfoldable pub get_loop : (ℕ → Attempt) → (ℕ → Bool) → ℕ → ℕ → ℕ → Pool → Exec (Option ℕ × Pool)
unfolding use_node
get_loop answers pings start zero i sp = ok (none, sp)
get_loop answers pings start (suc rounds) i sp =
    let index = (start + i) % sp.pool_number in
    node_at sp index >>= λ node.
    let skip = get_loop answers pings start rounds (i + 1) sp in
    let (done, sp') =
      use_node (answers index) (pings index) sp index (record node { locked = true })
        node.sql_state in
    let more = get_loop answers pings start rounds (i + 1) sp' in
    if node.locked then skip else (if done then ok (some index, sp') else more)

-- `get_db_connect`; `random` is what `rand()` returns. `none` is the null pointer.
unfoldable pub get_db_connect : (ℕ → Attempt) → (ℕ → Bool) → ℕ → Pool → Exec (Option ℕ × Pool)
unfolding get_loop
get_db_connect answers pings random sp =
    if sp.shutdown
    then ok (none, sp)
    else (if sp.pool_number == 0
        then stop division_by_zero
        else get_loop answers pings (random % sp.pool_number) sp.pool_number 0 sp)

-- The loop of the shrinking branch of `changeNodeNum`: `rounds` nodes from the end.
unfoldable pub shrink_loop : ℕ → Pool → Exec Pool
shrink_loop zero sp = ok sp
shrink_loop (suc rounds) sp =
    let index = sp.pool_number - 1 in
    let round = node_at sp index >>= λ node.
    shrink_loop rounds
      (record (put_node sp index (record node { mysql_sock = none; sql_state = disconnected })) {
        pool_number = sp.pool_number - 1;
      }) in
    if sp.pool_number == 0 then ok sp else round

-- `changeNodeNum`: five more connections for 1, five fewer for 0.
unfoldable pub change_node_num : (ℕ → Attempt) → Pool → ℕ → Exec (Option Pool)
change_node_num answers sp op =
    if op == 1
    then create_loop answers 5 sp.pool_number sp
    else (if op == 0 then (shrink_loop 5 sp >>= λ t. ok (some t)) else ok (some sp))
