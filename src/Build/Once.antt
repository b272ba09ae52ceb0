-- ===== src/Build/Once.antt =====
-- A header that is included more than once.
use mathlib.Core.Path.{subst}
use monitor_system.Base.{
  ℕ, zero, suc, ◌+◌, ◌≡◌, refl, sym, ap, ◌∙◌, Bool, Bool-cases, true, false, not, ◌&&◌, inl, inr,
  List, [], ◌∷◌, ◌++◌, Option, none, some, All, length, str_eq,
}
use monitor_system.Build.{
  Line, include, external, define, ifndef, Placed, placed, Pre, is_defined, is_active, one_line,
  brings, after, preprocess,
}
use monitor_system.Build.Headers.{
  Dir, headers, path, parts, follow, same_path, find_in, or_next, find_file, search, search_path,
  find_header,
}
use monitor_system.Build.Macros.{or_left, preprocess-macros}
use monitor_system.Build.Guards.{closes, with_lines, with_lines-length, turn, skipped}

-- The macro of the first `#ifndef`, behind the inclusions in front of it.
abbrev pub guard_of : List Line → List ℕ
guard_of [] = []
guard_of (external h ∷ ls) = guard_of ls
guard_of (ifndef g ∷ ls) = g
guard_of (l ∷ ls) = []

abbrev starts_with : List ℕ → List Line → Bool
starts_with g [] = false
starts_with g (define name text ∷ ls) = str_eq name g
starts_with g (l ∷ ls) = false

-- The guard is defined at once, and its conditional ends with the file.
abbrev pub is_guarded : List Line → Bool
is_guarded [] = false
is_guarded (external h ∷ ls) = is_guarded ls
is_guarded (ifndef g ∷ ls) = starts_with g ls && closes 1 ls
is_guarded (l ∷ ls) = false

and_true : (a b : Bool) → (a && b) ≡ true → (a ≡ true) × (b ≡ true)
and_true true true h = (refl, refl)
and_true true false h = cc
and_true false b h = cc

module _ {F : Type 0} (find : F → List ℕ → Option (F × List Line)) where
  guarded_skipped :
      (ls : List Line) (f : F) (n : ℕ) (s : Pre) (rest : List (Placed F))
      → is_guarded ls ≡ true
      → is_defined (guard_of ls) s.macros ≡ true
      → preprocess find (with_lines ls n) s (placed f ls ++ rest) ≡ preprocess find n s rest
  unfolding one_line brings
  guarded_skipped [] f n s rest g def = cc
  guarded_skipped (external h ∷ ls) f n s rest g def =
      turn find (with_lines ls n) s s f (external h) (placed f ls ++ rest) refl refl
      ∙ guarded_skipped ls f n s rest g def
  guarded_skipped (ifndef name ∷ ls) f n s rest g def =
      let t = record s { branches = false ∷ s.branches } in
      turn find (with_lines ls n) s t f (ifndef name) (placed f ls ++ rest) refl
        (ap (λ b. some (record s { branches = not b ∷ s.branches })) def)
      ∙ skipped find ls [] f n t s.branches rest (and_true (starts_with name ls) (closes 1 ls) g).1
          refl
  guarded_skipped (l ∷ ls) f n s rest g def = cc

  -- After a guarded file the guard is defined.
  guarded_defined :
      (ls : List Line) (f : F) (n : ℕ) (s t : Pre) (rest : List (Placed F))
      → is_guarded ls ≡ true
      → is_active s ≡ true
      → preprocess find n s (placed f ls ++ rest) ≡ some t
      → is_defined (guard_of ls) t.macros ≡ true
  unfolding preprocess one_line brings
  guarded_defined [] f n s t rest g on e = cc
  guarded_defined (external h ∷ ls) f zero s t rest g on e = cc
  guarded_defined (external h ∷ ls) f (suc n) s t rest g on e =
      guarded_defined ls f n s t rest g on e
  guarded_defined (ifndef name ∷ define m text ∷ ls) f zero s t rest g on e = cc
  guarded_defined (ifndef name ∷ define m text ∷ ls) f (suc zero) s t rest g on e = cc
  guarded_defined (ifndef name ∷ define m text ∷ ls) f (suc (suc n)) s t rest g on e =
      elim (Bool-cases (is_defined name s.macros)) [
        | inl def ↦
            preprocess-macros find name (suc (suc n)) s t
              (placed f (ifndef name ∷ define m text ∷ ls) ++ rest) e def
        | inr fresh ↦
            let u = record s { branches = true ∷ s.branches } in
            let v = record u { macros = (m, text) ∷ s.macros } in
            let both =
              turn find (suc n) s u f (ifndef name) (placed f (define m text ∷ ls) ++ rest) refl
                (ap (λ b. some (record s { branches = not b ∷ s.branches })) fresh)
              ∙ turn find n u v f (define m text) (placed f ls ++ rest) refl (rw on refl) in
            preprocess-macros find name n v t (placed f ls ++ rest) (sym both ∙ e) (
              or_left (str_eq m name) (is_defined name s.macros)
                (and_true (str_eq m name) (closes 1 ls) g).0)
      ]
  guarded_defined (l ∷ ls) f n s t rest g on e = cc

  include_brings :
      (s : Pre) (f : F) (name : List ℕ) (h : F × List Line)
      → is_active s ≡ true
      → find f name ≡ some h
      → brings find s f (include name) ≡ some (placed h.0 h.1)
  unfolding brings
  include_brings s f name h on e = rw (on, e) refl

  -- A header whose guard is defined.
  included_again :
      (n : ℕ) (s : Pre) (f : F) (name : List ℕ) (h : F × List Line) (behind : List (Placed F))
      → is_active s ≡ true
      → find f name ≡ some h
      → is_guarded h.1 ≡ true
      → is_defined (guard_of h.1) s.macros ≡ true
      → preprocess find (suc (length h.1 + n)) s (record { file = f; line = include name } ∷ behind)
        ≡ preprocess find n s behind
  unfolding preprocess one_line
  included_again n s f name h behind on e g def =
      ap (λ b. after b (some s) (λ more t. preprocess find (length h.1 + n) t (more ++ behind)))
        (include_brings s f name h on e)
      ∙ ap (λ k. preprocess find k s (placed h.0 h.1 ++ behind)) (sym (with_lines-length h.1 n))
      ∙ guarded_skipped h.1 h.0 n s behind g def

  -- The first inclusion.
  included_first :
      (k : ℕ) (s t : Pre) (f : F) (name : List ℕ) (h : F × List Line) (before : List (Placed F))
      → is_active s ≡ true
      → find f name ≡ some h
      → is_guarded h.1 ≡ true
      → preprocess find k s (record { file = f; line = include name } ∷ before) ≡ some t
      → is_defined (guard_of h.1) t.macros ≡ true
  unfolding preprocess one_line
  included_first zero s t f name h before on e g run = cc
  included_first (suc k) s t f name h before on e g run =
      guarded_defined h.1 h.0 k s t before g on (
        ap (λ b. after b (some s) (λ more u. preprocess find k u (more ++ before)))
          (sym (include_brings s f name h on e))
        ∙ run)

-- What the search finds has what all headers have.
module _ (P : List Line → Type 0) where
  find_in-All :
      (d : Dir) (place : List (List ℕ)) (hs : List (List ℕ × List Line)) (r : Dir × List Line)
      → All (λ h. P h.1) hs
      → find_in d place hs ≡ some r
      → P r.1
  find_in-All d place [] r h e = cc
  find_in-All d place (x ∷ hs) r (one, h) e = elim (Bool-cases (same_path place (x.0 ∷ path d))) [
    | inl same ↦ subst (λ o. In o) (rw same at e) one
    | inr other ↦ find_in-All d place hs r h (rw other at e)
  ]
    where
      In : Option (Dir × List Line) → Type 0
      In none = Unit
      In (some q) = P q.1

  or_next-All :
      (o next : Option (Dir × List Line)) (r : Dir × List Line)
      → (o ≡ some r → P r.1)
      → (next ≡ some r → P r.1)
      → or_next o next ≡ some r
      → P r.1
  or_next-All none next r first later e = later e
  or_next-All (some q) next r first later e = first e

  module _ (h : (d : Dir) → All (λ x. P x.1) (headers d)) where
    find_file-All :
        (ds : List Dir) (place : Option (List (List ℕ))) (r : Dir × List Line)
        → find_file ds place ≡ some r
        → P r.1
    find_file-All ds none r e = cc
    find_file-All [] (some place) r e = cc
    find_file-All (d ∷ ds) (some place) r e =
        or_next-All (find_in d place (headers d)) (find_file ds (some place)) r
          (find_in-All d place (headers d) r (h d)) (find_file-All ds (some place) r) e

    search-All :
        (ds : List Dir) (names : List (List ℕ)) (r : Dir × List Line)
        → search ds names ≡ some r
        → P r.1
    search-All [] names r e = cc
    search-All (d ∷ ds) names r e =
        or_next-All (find_file search_path (follow (some (path d)) names)) (search ds names) r
          (find_file-All search_path (follow (some (path d)) names) r) (search-All ds names r) e

headers-Guarded : (d : Dir) → All (λ h. is_guarded h.1 ≡ true) (headers d)
headers-Guarded Dir.common_dir = (refl, (refl, (refl, (refl, tt))))
headers-Guarded Dir.server_dir = (refl, tt)
headers-Guarded Dir.client_dir = (refl, tt)
headers-Guarded Dir.pool_dir = (refl, tt)
headers-Guarded Dir.queue_dir = (refl, tt)

found-Guarded :
    (d : Dir) (name : List ℕ) (h : Dir × List Line)
    → find_header d name ≡ some h
    → is_guarded h.1 ≡ true
found-Guarded d name h e =
    search-All (λ ls. is_guarded ls ≡ true) headers-Guarded (d ∷ search_path) (parts name) h e

-- Once a header has been included, by any name and from any directory, including it again changes
-- nothing, whatever comes between and behind: if the preprocessor reads the lines behind the first
-- inclusion to their end, and is not in a branch that is left out, then from where it ends the second
-- inclusion takes its own turn and one for each line of the header, and adds no declaration, macro or
-- conditional.
pub included_once :
    (k n : ℕ) (s t : Pre) (d d' : Dir) (name name' : List ℕ) (h : Dir × List Line)
    (before behind : List (Placed Dir))
    → is_active s ≡ true
    → find_header d name ≡ some h
    → preprocess find_header k s (record { file = d; line = include name } ∷ before) ≡ some t
    → is_active t ≡ true
    → find_header d' name' ≡ some h
    → preprocess find_header
        (suc (length h.1 + n))
        t
        (record { file = d'; line = include name' } ∷ behind)
      ≡ preprocess find_header n t behind
included_once k n s t d d' name name' h before behind on e run still e' =
    let g = found-Guarded d name h e in
    included_again find_header n t d' name' h behind still e' g
      (included_first find_header k s t d name h before on e g run)
