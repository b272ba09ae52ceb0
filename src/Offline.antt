-- ===== src/Offline.antt =====
-- client/send_file.cpp, and the part of client/send_data_to_server.cpp that writes unsent data to a
-- file: records that could not be sent are appended to it, and replayed after a reconnection.
pub mod Lines
pub mod RoundTrip
pub mod Resend
pub mod Fuel
pub mod Incomplete
mod Tests
use monitor_system.Base.{
  ℕ, zero, suc, List, [], ◌∷◌, ◌++◌, Option, none, some, Bool, true, false, not, length, ◌==◌, ◌-◌,
  take, replicate, if◌then◌else◌, ℤ, pos, negsuc, dec, Exec, ok, stop, exits, null_pointer, ◌>>=◌,
  strcat, c_str,
}
use monitor_system.Message.{Msg, msg_buff_size}

-- A file: its bytes, or `none` if it does not exist.
abbrev pub DataFile : Type 0
DataFile = Option (List ℕ)

abbrev pub newline : ℕ
newline = 10

-- `open_file`, with what the file then holds: a missing one is created, and a failure ends the process.
abbrev pub open_file : Bool → DataFile → Exec (List ℕ)
open_file false file = stop exits
open_file true none = ok []
open_file true (some old) = ok old

-- `empty_file`: what the file then holds, if it can be opened for writing.
abbrev pub empty_file : Bool → Exec DataFile
empty_file false = stop exits
empty_file true = ok (some [])

-- `open_file`, `write(per_fd, str, strlen(str))` and `write(per_fd, "\n", 1)`: the record goes to the
-- end. `opened` and `written` say whether the calls succeed.
unfoldable pub persist : Bool → Bool → DataFile → List ℕ → Exec DataFile
persist opened written file str = open_file opened file >>= λ old.
    if written then ok (some (old ++ (str ++ (newline ∷ [])))) else stop exits

-- Up to `n` bytes, and none behind the first newline; and what is left.
unfoldable pub take_line : ℕ → List ℕ → List ℕ × List ℕ
take_line zero bs = ([], bs)
take_line (suc n) [] = ([], [])
take_line (suc n) (b ∷ bs) =
    let r = take_line n bs in if b == newline then (b ∷ [], bs) else (b ∷ r.0, r.1)

-- `fgets(a, MSG_BUFF_SIZE, fp)`: `none` at the end of the file.
unfoldable pub fgets : List ℕ → Option (List ℕ × List ℕ)
unfolding take_line
fgets [] = none
fgets (b ∷ bs) = some (take_line 499 (b ∷ bs))

-- The string in an array: the bytes before the first NUL.
unfoldable pub until_nul : List ℕ → List ℕ
until_nul [] = []
until_nul (b ∷ bs) = let rest = until_nul bs in if b == 0 then [] else b ∷ rest

-- `lines == 0`
abbrev pub is_zero : ℤ → Bool
is_zero (pos n) = n == 0
is_zero (negsuc n) = false

-- The loop ends when `fgets` returns null.
abbrev pub on_line :
    Option (List ℕ × List ℕ) → (List ℕ → List ℕ → Exec (List (List ℕ))) → Exec (List (List ℕ))
on_line none body = ok []
on_line (some (a, rest)) body = body a rest

-- The loop of `do_with_file`, with the string in `temp`. It returns the buffers that are handed to
-- `send`, whose result changes nothing. Each round reads a byte at least, so that the length of the
-- file is enough `fuel`.
unfoldable pub replay : ℕ → ℕ → ℤ → List ℕ → List ℕ → Exec (List (List ℕ))
replay zero msg_lines lines temp file = ok []
replay (suc fuel) msg_lines lines temp file = on_line (fgets file) λ a rest.
    strcat msg_buff_size temp (until_nul a) >>= λ filled.
    let next_record =
      replay fuel msg_lines (pos msg_lines) [] rest >>= λ more. ok (filled ∷ more) in
    let same_record = replay fuel msg_lines (dec lines) filled rest in
    if is_zero (dec lines) then (if length filled == 0 then ok [] else next_record) else same_record

-- `do_with_file`: `temp` is what the uninitialised array holds, `emptied` whether `empty_file` can
-- open the file. A missing file gives a null `FILE *`, which `fgets` follows; `temp` is read only where
-- `fgets` returns a line.
unfoldable pub do_with_file : List ℕ → Bool → ℕ → DataFile → Exec (List (List ℕ) × DataFile)
do_with_file temp emptied msg_lines none = stop null_pointer
do_with_file temp emptied msg_lines (some []) = empty_file emptied >>= λ left. ok ([], left)
do_with_file temp emptied msg_lines (some (b ∷ bs)) =
    let file = b ∷ bs in
    c_str temp >>= λ start.
    replay (suc (length file)) msg_lines (pos msg_lines) start file >>= λ sent.
    empty_file emptied >>= λ left. ok (sent, left)

-- The message that a buffer is sent in, by `strncpy(msg.buff, temp, MSG_BUFF_SIZE)`.
unfoldable pub resent_msg : ℕ → List ℕ → Msg
resent_msg type temp = record {
  type = type;
  buff = take msg_buff_size temp ++ replicate (msg_buff_size - length temp) 0;
}
