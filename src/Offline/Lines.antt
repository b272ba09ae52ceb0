-- ===== src/Offline/Lines.antt =====
-- Records as lists of lines, and how one line is read.
use monitor_system.Base.{
  ℕ, zero, suc, ◌<◌, ◌≡◌, ◌≢◌, refl, ap, ◌∙◌, List, [], ◌∷◌, ◌++◌, append_assoc, some, arith,
  length, All,
}
use monitor_system.Offline.{newline, take_line, fgets, until_nul}

-- A line without its newline: text with no newline and no NUL in it.
abbrev pub IsLine : List ℕ → Type 0
IsLine = All λ b. (b ≢ newline) × (b ≢ 0)

-- Each line with a newline behind it.
abbrev pub text_of : List (List ℕ) → List ℕ
text_of [] = []
text_of (l ∷ ls) = l ++ (newline ∷ text_of ls)

-- The lines with newlines between them: what the client writes for one record.
abbrev pub join : List ℕ → List (List ℕ) → List ℕ
join l [] = l
join l (m ∷ ls) = l ++ (newline ∷ join m ls)

pub join-newline :
    (l : List ℕ) (ls : List (List ℕ)) → join l ls ++ (newline ∷ []) ≡ text_of (l ∷ ls)
join-newline l [] = refl
join-newline l (m ∷ ls) =
    append_assoc l (newline ∷ join m ls) (newline ∷ [])
    ∙ ap (λ r. l ++ (newline ∷ r)) (join-newline m ls)

pub take_line-line :
    (n : ℕ) (l rest : List ℕ)
    → IsLine l
    → length l < n
    → take_line n (l ++ (newline ∷ rest)) ≡ (l ++ (newline ∷ []), rest)
unfolding take_line
take_line-line zero l rest h lt = absurd (omega arith)
take_line-line (suc n) [] rest h lt = refl
take_line-line (suc n) (b ∷ l) rest h lt = ground (arith, take_line-line n l rest h.1 (omega arith))

pub fgets-line :
    (l rest : List ℕ)
    → IsLine l
    → length l < 499
    → fgets (l ++ (newline ∷ rest)) ≡ some (l ++ (newline ∷ []), rest)
unfolding fgets
fgets-line [] rest h lt = refl
fgets-line (b ∷ l) rest h lt = ap some (take_line-line 499 (b ∷ l) rest h lt)

pub until_nul-line : (l : List ℕ) → IsLine l → until_nul (l ++ (newline ∷ [])) ≡ l ++ (newline ∷ [])
unfolding until_nul
until_nul-line [] h = refl
until_nul-line (b ∷ l) h = ground (arith, until_nul-line l h.1)
