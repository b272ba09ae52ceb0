-- ===== src/Build/Units.antt =====
-- The translation units: each source with the headers that it includes.
use monitor_system.Base.{
  ℕ, zero, suc, ◌+◌, ◌≡◌, refl, ap, ◌∙◌, Bool, Bool-cases, true, false, not, ◌&&◌, inl, inr,
  if◌then◌else◌, List, [], ◌∷◌, ◌++◌, Option, none, some, arith, All, codes, str_eq, str_eq_sound,
}
use monitor_system.Build.{Line, Placed, Pre, preprocess, one_line, brings, after}
use monitor_system.Build.Headers.{find_header}
use monitor_system.Build.Sources.{Source, source_lines, Program, sources}
use monitor_system.Build.Link.{start, structs, repeats, look_for, every, every_sound}
use monitor_system.Build.Macros.{after-some}

suc_add : (n k : ℕ) → suc n + k ≡ suc (n + k)
suc_add n k = omega arith

module _ {F : Type 0} (find : F → List ℕ → Option (F × List Line)) where
  -- More fuel changes no result.
  preprocess-more :
      (n k : ℕ) (s t : Pre) (ls : List (Placed F))
      → preprocess find n s ls ≡ some t
      → preprocess find (n + k) s ls ≡ some t
  unfolding preprocess
  preprocess-more zero k s t ls e = cc
  preprocess-more (suc n) k s t [] e = ap (λ m. preprocess find m s []) (suc_add n k) ∙ e
  preprocess-more (suc n) k s t (l ∷ ls) e =
      let (more, u, brought, one, rest) =
        after-some find (brings find s l.file l.line) (one_line s l.line)
          (λ more v. preprocess find n v (more ++ ls)) t e in
      let next =
        λ (brings_in : List (Placed F)) (v : Pre). preprocess find (n + k) v (brings_in ++ ls) in
      ap (λ m. preprocess find m s (l ∷ ls)) (suc_add n k)
      ∙ ap (λ b. after b (one_line s l.line) next) brought
      ∙ ap (λ o. after (some more) o next) one
      ∙ preprocess-more n k u t (more ++ ls) rest

-- What `DBG` stands for.
abbrev pub debug_text : Bool → List ℕ
debug_text release =
    if release then codes "(fmt, args...)" else codes "(fmt, args...) printf(fmt, ##args)"

pub record IsUnit (release : Bool) (t : Pre) : Type 0 where
  pub closed : t.branches ≡ []
  pub structs_once : repeats (structs t.out) ≡ false
  pub debug : look_for (codes "DBG") t.macros ≡ some (debug_text release)

abbrev is_nil : List Bool → Bool
is_nil [] = true
is_nil (b ∷ bs) = false

is_nil_sound : (bs : List Bool) → is_nil bs ≡ true → bs ≡ []
is_nil_sound [] h = refl
is_nil_sound (b ∷ bs) h = cc

abbrev has_text : Option (List ℕ) → List ℕ → Bool
has_text none text = false
has_text (some found) text = str_eq found text

has_text_sound : (o : Option (List ℕ)) (text : List ℕ) → has_text o text ≡ true → o ≡ some text
has_text_sound none text h = cc
has_text_sound (some found) text h = ap some (str_eq_sound found text h)

abbrev is_unit : Bool → Option Pre → Bool
is_unit release none = false
is_unit release (some t) =
    is_nil t.branches
    && (not (repeats (structs t.out))
        && has_text (look_for (codes "DBG") t.macros) (debug_text release))

is_unit_sound :
    (release : Bool) (o : Option Pre)
    → is_unit release o ≡ true
    → (t : Pre) × (o ≡ some t) × IsUnit release t
is_unit_sound release none h = cc
is_unit_sound release (some t) h = elim (Bool-cases (is_nil t.branches)) [
  | inl shut ↦ elim (Bool-cases (repeats (structs t.out))) [
    | inl again ↦ absurd (cc (rw (shut, again) at h))
    | inr once ↦ (
      t,
      refl,
      record {
        closed = is_nil_sound t.branches shut;
        structs_once = once;
        debug =
            has_text_sound (look_for (codes "DBG") t.macros) (debug_text release)
              (rw (shut, once) at h);
      },
    )
  ]
  | inr unclosed ↦ absurd (cc (rw unclosed at h))
]

abbrev unit_read : Bool → Source → Bool
unit_read release u = is_unit release (preprocess find_header 400 (start release) (source_lines u))

units_read : (release : Bool) (p : Program) → every (unit_read release) (sources p) ≡ true
unfolding preprocess one_line brings
units_read true Program.client_program = refl
units_read true Program.server_program = refl
units_read false Program.client_program = refl
units_read false Program.server_program = refl

-- The sources with every bound from 400 on.
pub sources_preprocessed :
    (release : Bool) (p : Program) (k : ℕ)
    → All
        (λ u.
          (t : Pre) × (preprocess find_header (400 + k) (start release) (source_lines u) ≡ some t)
          × IsUnit release t)
        (sources p)
sources_preprocessed release p k =
    every_sound
      (λ u.
        (t : Pre) × (preprocess find_header (400 + k) (start release) (source_lines u) ≡ some t)
        × IsUnit release t)
      (unit_read release)
      (λ u h.
        let (t, e, unit) =
          is_unit_sound release (preprocess find_header 400 (start release) (source_lines u)) h in
        (t, preprocess-more find_header 400 k (start release) t (source_lines u) e, unit))
      (sources p) (units_read release p)
