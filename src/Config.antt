-- ===== src/Config.antt =====
-- common/common.cpp, `get_conf_value`: the reader of the configuration files.
pub mod LastWins
mod Tests
use monitor_system.Base.{
  ℕ, List, [], ◌∷◌, Option, none, some, ◌==◌, if◌then◌else◌, Exec, ok, stop, out_of_bounds, ◌>>=◌,
  strcpy,
}
use monitor_system.Offline.{DataFile, newline, until_nul}

abbrev pub equals_sign : ℕ
equals_sign = 61

-- The lines that `getline` reads one after the other, each with its newline.
abbrev pub glue : ℕ → List (List ℕ) → List (List ℕ)
glue b [] = (b ∷ []) ∷ []
glue b (l ∷ ls) = (b ∷ l) ∷ ls

unfoldable pub lines_of : List ℕ → List (List ℕ)
lines_of [] = []
lines_of (b ∷ bs) = let rest = lines_of bs in if b == newline then (b ∷ []) ∷ rest else glue b rest

-- What stands behind `key` if the line starts with it: `strstr(line, key) == line`.
unfoldable pub behind_key : List ℕ → List ℕ → Option (List ℕ)
behind_key [] line = some line
behind_key (k ∷ ks) [] = none
behind_key (k ∷ ks) (b ∷ bs) = let rest = behind_key ks bs in if k == b then rest else none

abbrev pub behind_equals : Option (List ℕ) → Option (List ℕ)
behind_equals none = none
behind_equals (some []) = none
behind_equals (some (b ∷ v)) = if b == equals_sign then some v else none

-- The value that a line gives to `key`, if it does.
unfoldable pub setting : List ℕ → List ℕ → Option (List ℕ)
unfolding behind_key
setting key line = behind_equals (behind_key key line)

-- A newline at the end of `conf_buf` is taken off. In an empty string the byte in front of the array
-- is read.
unfoldable pub chomp : List ℕ → Exec (List ℕ)
chomp [] = stop out_of_bounds
chomp (b ∷ []) = ok (if b == newline then [] else b ∷ [])
chomp (b ∷ c ∷ bs) = chomp (c ∷ bs) >>= λ r. ok (b ∷ r)

-- The body of the loop on `conf_buf`, an array of 512 bytes.
unfoldable pub store : List ℕ → Option (List ℕ) → Exec (List ℕ)
store conf_buf none = ok conf_buf
store conf_buf (some v) = strcpy 512 v >>= chomp

unfoldable pub scan : List ℕ → List ℕ → List (List ℕ) → Exec (List ℕ)
scan key conf_buf [] = ok conf_buf
scan key conf_buf (l ∷ ls) =
    store conf_buf (setting key (until_nul l)) >>= λ stored. scan key stored ls

-- `get_conf_value`: `none` is the null pointer, for a file that cannot be opened.
unfoldable pub get_conf_value : DataFile → List ℕ → Exec (Option (List ℕ))
get_conf_value none key = ok none
get_conf_value (some file) key = scan key [] (lines_of file) >>= λ v. ok (some v)
