-- ===== src/Server.antt =====
-- server/server_func.cpp and server/function.h: the clients that are logged in, the reactor that
-- watches their sockets, and the handlers that change both.
pub mod Clients
pub mod Heartbeat
pub mod Login
pub mod Dispatch
pub mod Admission
pub mod Registered
pub mod Sessions
pub mod Threads
pub mod Addresses
pub mod LockedOut
pub mod Sound
pub mod Safe
pub mod Interleaved
mod InterleavedTests
mod Tests
use monitor_system.Base.{ℕ, List, [], ◌∷◌, ◌==◌, if◌then◌else◌}
use Clients.{Client, ClientMap}

-- The globals that the handlers share. The descriptors are the process's: `reactor` are those that
-- `epollfd` watches, `open_fds` the open sockets of clients, and `sent` the replies and heartbeats
-- that went out, latest first.
pub data Output : Type 0 where
  -- `ack` of `do_login`
  ack : ℕ → ℕ → Output
  -- a message of type `PI_HEART`
  heart : ℕ → Output

pub record Server : Type 0 where
  pub token : List ℕ
  pub clients : ClientMap
  pub reactor : List ℕ
  pub open_fds : List ℕ
  pub sent : List Output

-- Dropping a descriptor from a set of them.
unfoldable pub drop_fd : ℕ → List ℕ → List ℕ
drop_fd fd [] = []
drop_fd fd (x ∷ xs) = let rest = drop_fd fd xs in if x == fd then rest else x ∷ rest

-- `epoll_ctl(epollfd, EPOLL_CTL_DEL, fd, NULL)`
abbrev pub unregister : Server → ℕ → Server
unregister s fd = record s { reactor = drop_fd fd s.reactor }

-- `close(fd)`
abbrev pub close_fd : Server → ℕ → Server
close_fd s fd = record s { open_fds = drop_fd fd s.open_fds }
