-- ===== src/Base/CString.antt =====
-- Strings of C: bytes up to the first NUL, in arrays of a fixed size.
use Prim.Native.Nat.{ℕ, suc, ◌<◌}
use Prim.Native.Char.{code}
use Prim.Native.String.{String}
use mathlib.Core.Path.{subst, ◌≡◌, refl, sym, ap, ◌∙◌}
use mathlib.Core.Logic.{◌≢◌, inl, inr}
use mathlib.Core.Bool.{Bool, true, false, ◌&&◌}
use mathlib.Core.List.{map, List, [], ◌∷◌, ◌++◌, append-nil, append_assoc}
use native.Mathlib.Omega.{arith}
use monitor_system.Base.Tests.{ltb, Bool-cases, ◌==◌, if◌then◌else◌}
use monitor_system.Base.Lists.{length, length-append, length-drop, drop, All}
use monitor_system.Base.Outcome.{first_call, Exec, ok, stop, out_of_bounds, ◌>>=◌}

-- A text literal of the source, as bytes (the literals that are used are ASCII).
abbrev pub codes : String → List ℕ
codes String.[] = []
codes (String.◌∷◌ c s) = code c ∷ codes s

-- `strcmp(s, t) == 0`, on the bytes before the NUL.
abbrev pub str_eq : List ℕ → List ℕ → Bool
str_eq [] [] = true
str_eq [] (y ∷ ys) = false
str_eq (x ∷ xs) [] = false
str_eq (x ∷ xs) (y ∷ ys) = x == y && str_eq xs ys

pub str_eq_sound : (s t : List ℕ) → str_eq s t ≡ true → s ≡ t
str_eq_sound [] [] h = refl
str_eq_sound [] (y ∷ ys) h = cc
str_eq_sound (x ∷ xs) [] h = cc
str_eq_sound (x ∷ xs) (y ∷ ys) h = ground (arith, str_eq_sound xs ys)

pub str_eq_refl : (s : List ℕ) → str_eq s s ≡ true
str_eq_refl [] = refl
str_eq_refl (x ∷ xs) = ground (arith, str_eq_refl xs)

-- The string that an array holds: a read that meets no NUL runs off the end of the array.
abbrev pub c_str : List ℕ → Exec (List ℕ)
c_str [] = stop out_of_bounds
c_str (b ∷ bs) = let rest = c_str bs >>= λ s. ok (b ∷ s) in if b == 0 then ok [] else rest

-- `strcpy(dst, src)` into an array of `size` bytes: the string and its NUL have to fit.
abbrev pub strcpy : ℕ → List ℕ → Exec (List ℕ)
strcpy size src = if ltb (length src) size then ok src else stop out_of_bounds

-- `strcat(dst, src)`, where `dst` is an array of `size` bytes that holds a string.
abbrev pub strcat : ℕ → List ℕ → List ℕ → Exec (List ℕ)
strcat size dst src = strcpy size (dst ++ src)

-- A run of `strcat` calls onto one array, each with what its second argument evaluates to.
unfoldable pub strcat_all : ℕ → List ℕ → List (Exec (List ℕ)) → Exec (List ℕ)
strcat_all size dst [] = ok dst
strcat_all size dst (e ∷ es) = e >>= λ s. strcat size dst s >>= λ d. strcat_all size d es

abbrev pub concat : List (List ℕ) → List ℕ
concat [] = []
concat (s ∷ ss) = s ++ concat ss

-- No byte of a string of C is NUL.
abbrev pub IsText : List ℕ → Type 0
IsText = All λ b. b ≢ 0

-- A text with a NUL behind it is read back as it is.
pub c_str-text : (t rest : List ℕ) → IsText t → c_str (t ++ (0 ∷ rest)) ≡ ok t
c_str-text [] rest h = refl
c_str-text (b ∷ t) rest h = ground (arith, c_str-text t rest h.1)

-- `strcpy` into an array with what it holds: the bytes behind the NUL stay.
unfoldable pub write_str : List ℕ → List ℕ → Exec (List ℕ)
write_str dst src =
    if ltb (length src) (length dst)
    then ok (src ++ (0 ∷ drop (suc (length src)) dst))
    else stop out_of_bounds

pub c_str-write_str :
    (dst src : List ℕ)
    → IsText src
    → length src < length dst
    → (a : List ℕ) × (write_str dst src ≡ ok a) × (c_str a ≡ ok src) × (length a ≡ length dst)
unfolding write_str
c_str-write_str dst src h lt =
    let behind = drop (suc (length src)) dst in
    (
      src ++ (0 ∷ behind),
      ground arith,
      c_str-text src behind h,
      omega (arith, length-append src (0 ∷ behind), length-drop (suc (length src)) dst),
    )

-- A run of `strcat` calls onto one array either fits, and then leaves all strings behind one another,
-- or does not.
pub strcat_all_lem :
    (size : ℕ) (dst : List ℕ) (ss : List (List ℕ))
    → length dst < size
    → strcat_all size dst (map ok ss)
      ≡ (if ltb (length (dst ++ concat ss)) size then ok (dst ++ concat ss) else stop out_of_bounds)
unfolding strcat_all
strcat_all_lem size dst [] h =
    subst (λ r. ok dst ≡ (if ltb (length r) size then ok r else stop out_of_bounds))
      (sym (append-nil dst)) (ground arith)
strcat_all_lem size dst (s ∷ ss) h = elim (Bool-cases (ltb (length (dst ++ s)) size)) [
  | inl fits ↦ rw fits (strcat_all_lem size (dst ++ s) ss (ground arith) ∙ simp append_assoc)
  | inr full ↦
      let longer = length-append (dst ++ s) (concat ss) in
      let same = ap length (append_assoc dst s (concat ss)) in
      let over : ltb (length (dst ++ (s ++ concat ss))) size ≡ false = ground arith in
      rw (full, over) refl
]

pub c_str-IsText : (a t : List ℕ) → c_str a ≡ ok t → IsText t
c_str-IsText [] t h = absurd (cc h)
c_str-IsText (b ∷ a) t h = elim (Bool-cases (b == 0)) [
  | inl nul ↦ let none_left : t ≡ [] = ground (arith, h) in subst IsText (sym none_left) tt
  | inr other ↦
      let run : (c_str a >>= λ s. ok (b ∷ s)) ≡ ok t = ground (arith, h) in
      let (s, read, rest) = first_call (c_str a) (λ s. ok (b ∷ s)) run in
      let whole : b ∷ s ≡ t = cc rest in
      subst IsText whole ((λ e. ground (arith, e, other)), c_str-IsText a s read)
]
