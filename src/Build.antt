-- ===== src/Build.antt =====
-- How the C++ files of both programs come together: the lines of their headers and the top level of
-- their sources, the preprocessor that joins them, and the two programs of CMakeLists.txt.
pub mod CommonHeaders
pub mod PartHeaders
pub mod Headers
pub mod ClientSources
pub mod ServerSources
pub mod Sources
pub mod Guards
pub mod Macros
pub mod Once
pub mod Types
pub mod Link
pub mod Units
pub mod Programs
mod Tests
use monitor_system.Base.{
  ℕ, zero, suc, Bool, true, false, not, if◌then◌else◌, ◌&&◌, ◌||◌, List, [], ◌∷◌, ◌++◌, map, Option,
  none, some, str_eq,
}

-- A type as a declaration spells it; `named` is a struct, a class or a name given to a type.
pub data Ty : Type 0 where
  void : Ty
  int : Ty
  long : Ty
  char : Ty
  named : List ℕ → Ty
  pointer : Ty → Ty
  const : Ty → Ty
  array : ℕ → Ty → Ty

-- A line of a file outside the bodies of functions. `external` is the inclusion of a header that is
-- not the repository's own; `define` a macro with the text it stands for, in front of it the arguments
-- that it takes (of a string its bytes); `otherwise` is `#else`; and `prototype` and `extern` declare
-- what `function` and `variable` define, without bodies and initial values.
pub data Line : Type 0 where
  include : List ℕ → Line
  external : List ℕ → Line
  define : List ℕ → List ℕ → Line
  ifndef : List ℕ → Line
  otherwise : Line
  endif : Line
  forward : List ℕ → Line
  typedef : Ty → List ℕ → Line
  struct : List ℕ → List (Ty × List ℕ) → Line
  enum : List ℕ → List (List ℕ) → Line
  prototype : Ty → List ℕ → List Ty → Line
  extern : Ty → List ℕ → Line
  variable : Ty → List ℕ → Line
  function : Ty → List ℕ → List Ty → Line

-- A line with the file that it stands in, by a type of names for the files.
pub record Placed (F : Type 0) : Type 0 where
  pub file : F
  pub line : Line

-- The macros so far, whether the branches around the line are taken, the innermost first, and the
-- declarations so far.
pub record Pre : Type 0 where
  pub macros : List (List ℕ × List ℕ)
  pub branches : List Bool
  pub out : List Line

abbrev pub is_defined : List ℕ → List (List ℕ × List ℕ) → Bool
is_defined name [] = false
is_defined name (m ∷ ms) = str_eq m.0 name || is_defined name ms

abbrev pub all_taken : List Bool → Bool
all_taken [] = true
all_taken (b ∷ bs) = b && all_taken bs

abbrev pub is_active : Pre → Bool
is_active s = all_taken s.branches

-- `#else` and `#endif` need an `#ifndef` before them.
abbrev pub flip_branch : Pre → List Bool → Option Pre
flip_branch s [] = none
flip_branch s (b ∷ bs) = some (record s { branches = not b ∷ bs })

abbrev pub leave_branch : Pre → List Bool → Option Pre
leave_branch s [] = none
leave_branch s (b ∷ bs) = some (record s { branches = bs })

abbrev pub keep : Pre → Line → Option Pre
keep s l = some (if is_active s then record s { out = s.out ++ (l ∷ []) } else s)

-- A line that includes nothing.
unfoldable pub one_line : Pre → Line → Option Pre
one_line s (include h) = some s
one_line s (external h) = some s
one_line s (define name text) =
    some (if is_active s then record s { macros = (name, text) ∷ s.macros } else s)
one_line s (ifndef name) =
    some (record s { branches = not (is_defined name s.macros) ∷ s.branches })
one_line s otherwise = flip_branch s s.branches
one_line s endif = leave_branch s s.branches
one_line s l = keep s l

abbrev pub placed : {F : Type 0} → F → List Line → List (Placed F)
placed f = map λ l. record { file = f; line = l }

abbrev pub after :
    {F : Type 0}
    → Option (List (Placed F))
    → Option Pre
    → (List (Placed F) → Pre → Option Pre)
    → Option Pre
after none t next = none
after (some more) none next = none
after (some more) (some t) next = next more t

module _ {F : Type 0} (find : F → List ℕ → Option (F × List Line)) where
  -- The lines that a line brings in. A header that is not found is an error.
  unfoldable pub brings : Pre → F → Line → Option (List (Placed F))
  brings s f (include h) =
      if is_active s
      then (elim (find f h) [ none ↦ none | some r ↦ some (placed r.0 r.1) ])
      else some []
  brings s f l = some []

  -- The preprocessor on the lines to come. Each turn takes one line of `fuel`; `none` is an error or
  -- too little of it.
  unfoldable pub preprocess : ℕ → Pre → List (Placed F) → Option Pre
  preprocess zero s ls = none
  preprocess (suc n) s [] = some s
  preprocess (suc n) s (l ∷ ls) =
      after (brings s l.file l.line) (one_line s l.line) λ more t. preprocess n t (more ++ ls)
