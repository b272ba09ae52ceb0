-- ===== src/Sockets.antt =====
-- common/common.cpp: the TCP sockets of both programs. A socket that is opened and then fails stays
-- open.
use monitor_system.Base.{ℕ, List, ◌∷◌, Option, none, some, Bool, ◌&&◌, if◌then◌else◌}

-- What `socket`, `bind` and `listen` answer. The result of `setsockopt` is not looked at.
pub record Listening : Type 0 where
  pub socket : Option ℕ
  pub bound : Bool
  pub listens : Bool

-- The result, `none` for -1, and the open descriptors.
unfoldable pub socket_create : List ℕ → Listening → Option ℕ × List ℕ
socket_create fds a = elim a.socket [
  | none ↦ (none, fds)
  | some fd ↦ (if a.bound && a.listens then some fd else none, fd ∷ fds)
]

-- `socket` and `connect`.
unfoldable pub socket_connect : List ℕ → Option ℕ → Bool → Option ℕ × List ℕ
socket_connect fds none connected = (none, fds)
socket_connect fds (some fd) connected = (if connected then some fd else none, fd ∷ fds)
