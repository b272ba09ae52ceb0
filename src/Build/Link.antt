-- ===== src/Build/Link.antt =====
-- The two programs of CMakeLists.txt: what their sources declare, and what they define.
use monitor_system.Base.{
  ℕ, ◌≡◌, refl, ap, ◌∙◌, Bool, Bool-cases, true, false, ◌&&◌, ◌||◌, inl, inr, ◌⊎◌, if◌then◌else◌,
  List, [], ◌∷◌, ◌++◌, Option, none, some, All, codes, str_eq, map,
}
use monitor_system.Build.{
  Ty, char, pointer, const, Line, prototype, extern, variable, function, struct, Pre, preprocess,
  one_line, brings,
}
use monitor_system.Build.Headers.{find_header}
use monitor_system.Build.CommonHeaders.{common_h}
use monitor_system.Build.PartHeaders.{
  client_function_h, server_function_h, thread_poll_h, db_connection_pool_h,
}
use monitor_system.Build.Sources.{Source, source_lines, Program, sources}
use monitor_system.Build.Types.{same_ty, same_tys, same_ty_sound, same_tys_sound}

-- Without macros, or with `_R`, which takes the debug output out.
abbrev pub start : Bool → Pre
start release = record {
  macros = if release then (codes "_R", []) ∷ [] else [];
  branches = [];
  out = [];
}

abbrev pub declarations : Option Pre → List Line
declarations none = []
declarations (some s) = s.out

-- All declarations of the sources of a program.
abbrev pub joined : Bool → List Source → List Line
joined release [] = []
joined release (u ∷ us) =
    declarations (preprocess find_header 400 (start release) (source_lines u)) ++ joined release us

pub record Signature : Type 0 where
  pub result : Ty
  pub params : List Ty

abbrev pub externs : List Line → List (List ℕ × Ty)
externs [] = []
externs (extern t n ∷ ls) = (n, t) ∷ externs ls
externs (l ∷ ls) = externs ls

abbrev pub variables : List Line → List (List ℕ × Ty)
variables [] = []
variables (variable t n ∷ ls) = (n, t) ∷ variables ls
variables (l ∷ ls) = variables ls

abbrev pub prototypes : List Line → List (List ℕ × Signature)
prototypes [] = []
prototypes (prototype t n ps ∷ ls) = (n, record { result = t; params = ps }) ∷ prototypes ls
prototypes (l ∷ ls) = prototypes ls

abbrev pub functions : List Line → List (List ℕ × Signature)
functions [] = []
functions (function t n ps ∷ ls) = (n, record { result = t; params = ps }) ∷ functions ls
functions (l ∷ ls) = functions ls

abbrev pub structs : List Line → List (List ℕ)
structs [] = []
structs (struct n fs ∷ ls) = n ∷ structs ls
structs (l ∷ ls) = structs ls

-- The headers with the prototypes of what a program consists of. (Through common/head.h the client also
-- reads those of the server's task queue and pool, which it never calls.)
abbrev pub own_headers : Program → List Line
own_headers Program.client_program = common_h ++ client_function_h
own_headers Program.server_program =
    common_h ++ (server_function_h ++ (thread_poll_h ++ db_connection_pool_h))

abbrev pub look_for : {A : Type 0} → List ℕ → List (List ℕ × A) → Option A
look_for name [] = none
look_for name (d ∷ ds) = let rest = look_for name ds in if str_eq d.0 name then some d.1 else rest

abbrev pub occurs : List ℕ → List (List ℕ) → Bool
occurs name [] = false
occurs name (n ∷ ns) = str_eq n name || occurs name ns

abbrev pub repeats : List (List ℕ) → Bool
repeats [] = false
repeats (n ∷ ns) = occurs n ns || repeats ns

abbrev pub every : {A : Type 0} → (A → Bool) → List A → Bool
every check [] = true
every check (x ∷ xs) = check x && every check xs

module _ {A : Type 0} (P : A → Type 0) (check : A → Bool)
    (sound : (a : A) → check a ≡ true → P a) where
  pub every_sound : (xs : List A) → every check xs ≡ true → All P xs
  every_sound [] h = tt
  every_sound (x ∷ xs) h = elim (Bool-cases (check x)) [
    | inl good ↦ (sound x good, every_sound xs (rw good at h))
    | inr bad ↦ absurd (cc (rw bad at h))
  ]

-- An `extern` variable is defined, by the type that it is declared by, or as `const char *` where it is
-- declared as `char *`.
abbrev pub IsDefined : List (List ℕ × Ty) → List ℕ × Ty → Type 0
IsDefined defined v =
    (t : Ty) × (look_for v.0 defined ≡ some t)
    × ((t ≡ v.1) ⊎ ((t ≡ pointer (const char)) × (v.1 ≡ pointer char)))

abbrev matches : Option Ty → Ty → Bool
matches none t = false
matches (some s) t = same_ty s t || (same_ty s (pointer (const char)) && same_ty t (pointer char))

matches_sound :
    (o : Option Ty) (t : Ty)
    → matches o t ≡ true
    → (s : Ty) × (o ≡ some s) × ((s ≡ t) ⊎ ((s ≡ pointer (const char)) × (t ≡ pointer char)))
matches_sound none t h = cc
matches_sound (some s) t h = elim (Bool-cases (same_ty s t)) [
  | inl same ↦ (s, refl, inl (same_ty_sound s t same))
  | inr other ↦ elim (Bool-cases (same_ty s (pointer (const char)))) [
    | inl path ↦ (
      s,
      refl,
      inr (
        same_ty_sound s (pointer (const char)) path,
        same_ty_sound t (pointer char) (rw (other, path) at h),
      ),
    )
    | inr neither ↦ absurd (cc (rw (other, neither) at h))
  ]
]

-- A function is defined by the types of its prototype.
abbrev pub IsImplemented : List (List ℕ × Signature) → List ℕ × Signature → Type 0
IsImplemented defined f = look_for f.0 defined ≡ some f.1

abbrev implements : Option Signature → Signature → Bool
implements none f = false
implements (some g) f = same_ty g.result f.result && same_tys g.params f.params

implements_sound : (o : Option Signature) (f : Signature) → implements o f ≡ true → o ≡ some f
implements_sound none f h = cc
implements_sound (some g) f h = elim (Bool-cases (same_ty g.result f.result)) [
  | inl same ↦
      ap (λ r. some (record { result = r; params = g.params }))
        (same_ty_sound g.result f.result same)
      ∙ ap (λ rs. some (record { result = f.result; params = rs }))
          (same_tys_sound g.params f.params (rw same at h))
  | inr other ↦ absurd (cc (rw other at h))
]

abbrev pub defined_names : List Line → List (List ℕ)
defined_names ls = map (λ v. v.0) (variables ls) ++ map (λ f. f.0) (functions ls)

abbrev extern_found : List (List ℕ × Ty) → List ℕ × Ty → Bool
extern_found defined v = matches (look_for v.0 defined) v.1

abbrev implemented : List (List ℕ × Signature) → List ℕ × Signature → Bool
implemented defined f = implements (look_for f.0 defined) f.1

externs_found :
    (release : Bool) (p : Program)
    → every
        (extern_found (variables (joined release (sources p))))
        (externs (joined release (sources p)))
      ≡ true
unfolding preprocess one_line brings
externs_found true Program.client_program = refl
externs_found true Program.server_program = refl
externs_found false Program.client_program = refl
externs_found false Program.server_program = refl

all_implemented :
    (release : Bool) (p : Program)
    → every (implemented (functions (joined release (sources p)))) (prototypes (own_headers p))
      ≡ true
unfolding preprocess one_line brings
all_implemented true Program.client_program = refl
all_implemented true Program.server_program = refl
all_implemented false Program.client_program = refl
all_implemented false Program.server_program = refl

pub defined_once :
    (release : Bool) (p : Program) → repeats (defined_names (joined release (sources p))) ≡ false
unfolding preprocess one_line brings
defined_once true Program.client_program = refl
defined_once true Program.server_program = refl
defined_once false Program.client_program = refl
defined_once false Program.server_program = refl

pub externs-IsDefined :
    (release : Bool) (p : Program)
    → All
        (IsDefined (variables (joined release (sources p))))
        (externs (joined release (sources p)))
externs-IsDefined release p =
    let all = variables (joined release (sources p)) in
    every_sound (IsDefined all) (extern_found all) (λ v h. matches_sound (look_for v.0 all) v.1 h)
      (externs (joined release (sources p))) (externs_found release p)

pub prototypes-IsImplemented :
    (release : Bool) (p : Program)
    → All (IsImplemented (functions (joined release (sources p)))) (prototypes (own_headers p))
prototypes-IsImplemented release p =
    let all = functions (joined release (sources p)) in
    every_sound (IsImplemented all) (implemented all)
      (λ f h. implements_sound (look_for f.0 all) f.1 h) (prototypes (own_headers p))
      (all_implemented release p)
