-- ===== src/Build/Macros.antt =====
-- The macros only grow.
use monitor_system.Base.{
  ℕ, zero, suc, ◌≡◌, refl, sym, ap, ◌∙◌, Bool, Bool-cases, true, false, ◌||◌, inl, inr, List, [],
  ◌∷◌, ◌++◌, Option, none, some, str_eq,
}
use monitor_system.Build.{
  Line, include, external, define, ifndef, otherwise, endif, Placed, Pre, is_defined, is_active,
  one_line, brings, after, preprocess, keep, flip_branch, leave_branch,
}

pub or_left : (a b : Bool) → a ≡ true → (a || b) ≡ true
or_left true b h = refl
or_left false b h = cc

or_true : (a b : Bool) → b ≡ true → (a || b) ≡ true
or_true true b h = refl
or_true false b h = h

abbrev macros_of : Option Pre → List (List ℕ × List ℕ)
macros_of none = []
macros_of (some s) = s.macros

flip_branch-macros : (s t : Pre) (bs : List Bool) → flip_branch s bs ≡ some t → s.macros ≡ t.macros
flip_branch-macros s t [] e = cc
flip_branch-macros s t (b ∷ bs) e = ap macros_of e

leave_branch-macros :
    (s t : Pre) (bs : List Bool) → leave_branch s bs ≡ some t → s.macros ≡ t.macros
leave_branch-macros s t [] e = cc
leave_branch-macros s t (b ∷ bs) e = ap macros_of e

keep-macros : (s t : Pre) (l : Line) → keep s l ≡ some t → s.macros ≡ t.macros
keep-macros s t l e = elim (Bool-cases (is_active s)) [
  | inl on ↦ ap macros_of (rw on at e)
  | inr off ↦ ap macros_of (rw off at e)
]

-- A macro stays defined.
one_line-macros :
    (g : List ℕ) (s t : Pre) (l : Line)
    → one_line s l ≡ some t
    → is_defined g s.macros ≡ true
    → is_defined g t.macros ≡ true
unfolding one_line
one_line-macros g s t (include h) e def = ap (λ o. is_defined g (macros_of o)) (sym e) ∙ def
one_line-macros g s t (external h) e def = ap (λ o. is_defined g (macros_of o)) (sym e) ∙ def
one_line-macros g s t (ifndef name) e def = ap (λ o. is_defined g (macros_of o)) (sym e) ∙ def
one_line-macros g s t otherwise e def =
    ap (is_defined g) (sym (flip_branch-macros s t s.branches e)) ∙ def
one_line-macros g s t endif e def =
    ap (is_defined g) (sym (leave_branch-macros s t s.branches e)) ∙ def
one_line-macros g s t (define name text) e def = elim (Bool-cases (is_active s)) [
  | inl on ↦
      ap (λ o. is_defined g (macros_of o)) (sym (rw on at e))
      ∙ or_true (str_eq name g) (is_defined g s.macros) def
  | inr off ↦ ap (λ o. is_defined g (macros_of o)) (sym (rw off at e)) ∙ def
]
one_line-macros g s t l e def = ap (is_defined g) (sym (keep-macros s t l e)) ∙ def

module _ {F : Type 0} (find : F → List ℕ → Option (F × List Line)) where
  pub after-some :
      (b : Option (List (Placed F))) (o : Option Pre) (next : List (Placed F) → Pre → Option Pre)
      (t : Pre)
      → after b o next ≡ some t
      → (more : List (Placed F)) × (u : Pre) × (b ≡ some more)
        × (o ≡ some u)
        × (next more u ≡ some t)
  after-some none o next t e = cc
  after-some (some more) none next t e = cc
  after-some (some more) (some u) next t e = (more, u, refl, refl, e)

  pub preprocess-macros :
      (g : List ℕ) (n : ℕ) (s t : Pre) (ls : List (Placed F))
      → preprocess find n s ls ≡ some t
      → is_defined g s.macros ≡ true
      → is_defined g t.macros ≡ true
  unfolding preprocess
  preprocess-macros g zero s t ls e def = cc
  preprocess-macros g (suc n) s t [] e def = ap (λ o. is_defined g (macros_of o)) (sym e) ∙ def
  preprocess-macros g (suc n) s t (l ∷ ls) e def =
      let (more, u, brought, one, rest) =
        after-some (brings find s l.file l.line) (one_line s l.line)
          (λ more v. preprocess find n v (more ++ ls)) t e in
      preprocess-macros g n u t (more ++ ls) rest (one_line-macros g s u l.line one def)
