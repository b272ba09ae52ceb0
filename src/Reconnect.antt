-- ===== src/Reconnect.antt =====
-- client/login.cpp: the client's login, and the thread that logs in again after failures.
pub mod Counting
pub mod Token
mod Tests
use monitor_system.Base.{
  ℕ, ◌-◌, List, [], ◌∷◌, ◌++◌, Option, none, some, Bool, true, false, not, ◌==◌, if◌then◌else◌,
  Exec, ok, stop, exits, ◌>>=◌,
}
use monitor_system.Offline.{DataFile, do_with_file}

-- What the system calls of one `login` answer.
pub record Answers : Type 0 where
  -- `socket_connect`: the new socket, or `none` on an error
  pub connected : Option ℕ
  -- `send` of the token
  pub sent : Bool
  -- `select` reports the socket within a second
  pub ready : Bool
  -- `recv`: `none` on an error, else what `ack` then holds (0 if nothing came)
  pub received : Option ℕ

-- The part of the client's state that `login` changes: `sockfd` and the open sockets.
pub record Link : Type 0 where
  pub sockfd : Option ℕ
  pub open_fds : List ℕ

-- The last test: `ack` is 1 or the login has failed. The socket stays open in both cases.
unfoldable pub read_ack : Link → List ℕ → Option ℕ → Bool × Link
read_ack link before none = (false, record link { open_fds = before })
read_ack link before (some ack) = (ack == 1, link)

-- `login`: `true` for the result 1. Without a connection the process ends.
unfoldable pub login : Link → Answers → Exec (Bool × Link)
unfolding read_ack
login link a = elim a.connected [
  | none ↦ stop exits
  | some fd ↦
      let opened = record link { sockfd = some fd; open_fds = fd ∷ link.open_fds } in
      let closed = record opened { open_fds = link.open_fds } in
      if not a.sent
      then ok (false, closed)
      else (if not a.ready
          then ok (false, closed)
          else ok (read_ack opened link.open_fds a.received))
]

abbrev pub relogin_num : ℕ
relogin_num = 3

-- `try_to_relogin` on `check_for_relogin`: its new value, and whether the relogin thread is
-- signalled. The counter starts at 3 and is left alone at 0, so it never falls below.
unfoldable pub try_to_relogin : ℕ → ℕ × Bool
try_to_relogin check = if check == 0 then (0, true) else (check - 1, false)

-- The lines of one record of each type in its file.
abbrev pub mem_lines : ℕ
mem_lines = 7

abbrev pub cpu_lines : ℕ
cpu_lines = 9

abbrev pub disk_lines : ℕ
disk_lines = 7

abbrev pub sys_lines : ℕ
sys_lines = 17

-- The files of unsent data, and the buffers handed to `send` from them.
pub record Files : Type 0 where
  pub mem : DataFile
  pub cpu : DataFile
  pub disk : DataFile
  pub sys : DataFile

pub record Replayed : Type 0 where
  pub mem : List (List ℕ)
  pub cpu : List (List ℕ)
  pub disk : List (List ℕ)
  pub sys : List (List ℕ)

-- The four calls of `do_with_file`: `temp` is what its uninitialised array holds in each, `emptied`
-- whether `empty_file` can open the file.
unfoldable pub replay_files : (ℕ → List ℕ) → (ℕ → Bool) → Files → Exec (Replayed × Files)
replay_files temp emptied files = do_with_file (temp 0) (emptied 0) mem_lines files.mem >>= λ m.
    do_with_file (temp 1) (emptied 1) cpu_lines files.cpu >>= λ c.
    do_with_file (temp 2) (emptied 2) disk_lines files.disk >>= λ d.
    do_with_file (temp 3) (emptied 3) sys_lines files.sys >>= λ s. ok (
      record { mem = m.0; cpu = c.0; disk = d.0; sys = s.0 },
      record { mem = m.1; cpu = c.1; disk = d.1; sys = s.1 },
    )

abbrev nothing : Replayed
nothing = record { mem = []; cpu = []; disk = []; sys = [] }

-- One round of the loop of `relogin`, once `check_for_relogin` is not positive: the counter is set
-- back, and after a login that succeeds the files are replayed.
unfoldable pub relogin_round :
    Link → Answers → (ℕ → List ℕ) → (ℕ → Bool) → Files → Exec (ℕ × Link × Replayed × Files)
relogin_round link a temp emptied files = login link a >>= λ r.
    if r.0
    then (replay_files temp emptied files >>= λ s. ok (relogin_num, r.1, s.0, s.1))
    else ok (relogin_num, r.1, nothing, files)
