-- ===== src/Startup.antt =====
-- The start of both programs: command line, configuration and the order of their set-up
-- (server/server.cpp and client/client.cpp).
pub mod Settings
pub mod ServerMain
pub mod ClientMain
pub mod Precedence
pub mod Answers
pub mod Workers
pub mod Ready
pub mod Rejected
pub mod Needed
mod Tests
use monitor_system.Base.{
  ℕ, zero, suc, ◌+◌, ◌-◌, ◌*◌, Bool, true, false, ◌&&◌, ◌||◌, List, [], ◌∷◌, Option, none, some,
  codes, length, leb, ◌==◌, if◌then◌else◌, ℤ, pos, negsuc, Exec, ok, stop, null_pointer, ◌>>=◌,
  strcpy,
}
use monitor_system.Offline.{DataFile, is_zero}
use monitor_system.Config.{get_conf_value}

-- `atoi`: blanks, a sign, and digits up to the first other byte. Numbers beyond `int` are not modelled.
abbrev pub is_digit : ℕ → Bool
is_digit c = leb 48 c && leb c 57

abbrev pub is_space : ℕ → Bool
is_space c = c == 32 || (leb 9 c && leb c 13)

unfoldable pub digits : ℕ → List ℕ → ℕ
digits n [] = n
digits n (c ∷ s) = let rest = digits (n * 10 + (c - 48)) s in if is_digit c then rest else n

abbrev pub minus : ℕ → ℤ
minus zero = pos 0
minus (suc n) = negsuc n

abbrev pub signed : List ℕ → ℤ
signed [] = pos 0
signed (c ∷ s) =
    if c == 45 then minus (digits 0 s) else pos (if c == 43 then digits 0 s else digits 0 (c ∷ s))

unfoldable pub atoi : List ℕ → ℤ
unfolding digits
atoi [] = pos 0
atoi (c ∷ s) = let rest = atoi s in if is_space c then rest else signed (c ∷ s)

-- A result of `get_conf_value` that `atoi` or `strcpy` reads.
abbrev pub read_value : Option (List ℕ) → Exec (List ℕ)
read_value none = stop null_pointer
read_value (some v) = ok v

abbrev pub conf_text : DataFile → List ℕ → Exec (List ℕ)
conf_text file key = get_conf_value file key >>= read_value

-- `if (!n) n = atoi(get_conf_value(config, key))`
unfoldable pub default_number : DataFile → List ℕ → ℤ → Exec ℤ
default_number file key n = if is_zero n then (conf_text file key >>= λ v. ok (atoi v)) else ok n

-- `if (!strlen(s)) strcpy(s, get_conf_value(config, key))`, for an array of 20 bytes.
unfoldable pub default_text : DataFile → List ℕ → List ℕ → Exec (List ℕ)
default_text file key s = if length s == 0 then (conf_text file key >>= λ v. strcpy 20 v) else ok s
