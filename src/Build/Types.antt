-- ===== src/Build/Types.antt =====
-- Equal types, and what declares and defines a name.
use monitor_system.Base.{
  ◌≡◌, refl, ap, ◌∙◌, Bool, true, false, ◌&&◌, ◌==◌, List, [], ◌∷◌, arith, str_eq, str_eq_sound,
}
use monitor_system.Build.{Ty, void, int, long, char, named, pointer, const, array}

abbrev pub same_ty : Ty → Ty → Bool
same_ty void void = true
same_ty int int = true
same_ty long long = true
same_ty char char = true
same_ty (named m) (named n) = str_eq m n
same_ty (pointer s) (pointer t) = same_ty s t
same_ty (const s) (const t) = same_ty s t
same_ty (array m s) (array n t) = m == n && same_ty s t
same_ty s t = false

abbrev pub same_tys : List Ty → List Ty → Bool
same_tys [] [] = true
same_tys (s ∷ ss) (t ∷ ts) = same_ty s t && same_tys ss ts
same_tys ss ts = false

and_true : (a b : Bool) → (a && b) ≡ true → (a ≡ true) × (b ≡ true)
and_true true true h = (refl, refl)
and_true true false h = cc
and_true false b h = cc

pub same_ty_sound : (s t : Ty) → same_ty s t ≡ true → s ≡ t
same_ty_sound void void h = refl
same_ty_sound int int h = refl
same_ty_sound long long h = refl
same_ty_sound char char h = refl
same_ty_sound (named m) (named n) h = ap named (str_eq_sound m n h)
same_ty_sound (pointer s) (pointer t) h = ap pointer (same_ty_sound s t h)
same_ty_sound (const s) (const t) h = ap const (same_ty_sound s t h)
same_ty_sound (array m s) (array n t) h =
    let (same, types) = and_true (m == n) (same_ty s t) h in
    let sizes : m ≡ n = ground (arith, same) in
    ap (λ k. array k s) sizes ∙ ap (array n) (same_ty_sound s t types)
same_ty_sound s t h = cc

pub same_tys_sound : (ss ts : List Ty) → same_tys ss ts ≡ true → ss ≡ ts
same_tys_sound [] [] h = refl
same_tys_sound (s ∷ ss) (t ∷ ts) h =
    let (one, others) = and_true (same_ty s t) (same_tys ss ts) h in
    ap (λ u. u ∷ ss) (same_ty_sound s t one) ∙ ap (λ us. t ∷ us) (same_tys_sound ss ts others)
same_tys_sound ss ts h = cc
