-- ===== src/Build/Guards.antt =====
-- The guards of the headers: `#ifndef` around the whole file, and `#define` behind it.
use monitor_system.Base.{
  ℕ, zero, suc, ◌+◌, ◌≡◌, refl, ap, ◌∙◌, Bool, true, false, not, ◌&&◌, List, [], ◌∷◌, ◌++◌, Option,
  some, arith, length,
}
use monitor_system.Build.{
  Line, include, external, ifndef, otherwise, endif, Placed, placed, Pre, flip_branch, leave_branch,
  is_defined, is_active, all_taken, one_line, brings, preprocess,
}

-- What a line does to the nesting of the conditionals.
pub data Level : Type 0 where
  opens : Level
  flips : Level
  shuts : Level
  flat : Level

abbrev pub level : Line → Level
level (ifndef name) = Level.opens
level otherwise = Level.flips
level endif = Level.shuts
level l = Level.flat

abbrev pub is_outermost : ℕ → Bool
is_outermost zero = true
is_outermost (suc n) = false

-- The lines shut this many conditionals, the outermost by the last line, and that one has no `#else`.
abbrev pub closes : ℕ → List Line → Bool
closes zero [] = true
closes zero (l ∷ ls) = false
closes (suc d) [] = false
closes (suc d) (l ∷ ls) = elim (level l) [
  | opens ↦ closes (suc (suc d)) ls
  | flips ↦ not (is_outermost d) && closes (suc d) ls
  | shuts ↦ closes d ls
  | flat ↦ closes (suc d) ls
]

-- `n` and one for each line.
abbrev pub with_lines : List Line → ℕ → ℕ
with_lines [] n = n
with_lines (l ∷ ls) n = suc (with_lines ls n)

pub with_lines-length : (ls : List Line) (n : ℕ) → with_lines ls n ≡ length ls + n
with_lines-length [] n = omega arith
with_lines-length (l ∷ ls) n = omega (arith, with_lines-length ls n)

not_taken : (bs outer : List Bool) → all_taken (bs ++ (false ∷ outer)) ≡ false
not_taken [] outer = refl
not_taken (true ∷ bs) outer = not_taken bs outer
not_taken (false ∷ bs) outer = refl

-- A line where it is not read.
plain_ignored :
    (s : Pre) (l : Line) → level l ≡ Level.flat → is_active s ≡ false → one_line s l ≡ some s
unfolding one_line
plain_ignored s (include h) e off = refl
plain_ignored s (external h) e off = refl
plain_ignored s (ifndef name) e off = cc
plain_ignored s otherwise e off = cc
plain_ignored s endif e off = cc
plain_ignored s l e off = rw off refl

module _ {F : Type 0} (find : F → List ℕ → Option (F × List Line)) where
  brings_nothing : (s : Pre) (f : F) (l : Line) → is_active s ≡ false → brings find s f l ≡ some []
  unfolding brings
  brings_nothing s f (include h) off = rw off refl
  brings_nothing s f l off = refl

  -- A turn on a line that brings nothing in.
  pub turn :
      (n : ℕ) (s t : Pre) (f : F) (l : Line) (rest : List (Placed F))
      → brings find s f l ≡ some []
      → one_line s l ≡ some t
      → preprocess find (suc n) s (record { file = f; line = l } ∷ rest) ≡ preprocess find n t rest
  unfolding preprocess
  turn n s t f l rest b e = rw (b, e) refl

  -- A line without a conditional, where it is not read.
  passed :
      (n : ℕ) (s : Pre) (f : F) (l : Line) (rest : List (Placed F)) (bs outer : List Bool)
      → level l ≡ Level.flat
      → s.branches ≡ bs ++ (false ∷ outer)
      → preprocess find (suc n) s (record { file = f; line = l } ∷ rest) ≡ preprocess find n s rest
  passed n s f l rest bs outer plain e =
      let off : is_active s ≡ false = ap all_taken e ∙ not_taken bs outer in
      turn n s s f l rest (brings_nothing s f l off) (plain_ignored s l plain off)

  -- The rest of a file whose guard is defined.
  pub skipped :
      (ls : List Line) (bs : List Bool) (f : F) (n : ℕ) (s : Pre) (outer : List Bool)
      (rest : List (Placed F))
      → closes (suc (length bs)) ls ≡ true
      → s.branches ≡ bs ++ (false ∷ outer)
      → preprocess find (with_lines ls n) s (placed f ls ++ rest)
        ≡ preprocess find n (record s { branches = outer }) rest
  unfolding one_line brings
  skipped [] bs f n s outer rest c e = cc
  skipped (ifndef name ∷ ls) bs f n s outer rest c e =
      let b = not (is_defined name s.macros) in
      let t = record s { branches = b ∷ s.branches } in
      turn (with_lines ls n) s t f (ifndef name) (placed f ls ++ rest) refl refl
      ∙ skipped ls (b ∷ bs) f n t outer rest c (ap (λ r. b ∷ r) e)
  skipped (otherwise ∷ ls) [] f n s outer rest c e = cc
  skipped (otherwise ∷ ls) (b ∷ bs) f n s outer rest c e =
      let t = record s { branches = not b ∷ (bs ++ (false ∷ outer)) } in
      turn (with_lines ls n) s t f otherwise (placed f ls ++ rest) refl (ap (flip_branch s) e)
      ∙ skipped ls (not b ∷ bs) f n t outer rest c refl
  skipped (endif ∷ []) [] f n s outer rest c e =
      turn n s (record s { branches = outer }) f endif rest refl (ap (leave_branch s) e)
  skipped (endif ∷ l ∷ ls) [] f n s outer rest c e = cc
  skipped (endif ∷ ls) (b ∷ bs) f n s outer rest c e =
      let t = record s { branches = bs ++ (false ∷ outer) } in
      turn (with_lines ls n) s t f endif (placed f ls ++ rest) refl (ap (leave_branch s) e)
      ∙ skipped ls bs f n t outer rest c refl
  skipped (l ∷ ls) bs f n s outer rest c e =
      passed (with_lines ls n) s f l (placed f ls ++ rest) bs outer refl e
      ∙ skipped ls bs f n s outer rest c e
