-- ===== src/Pipeline/Kinds.antt =====
-- Lines of all kinds, sorted by their kind.
use monitor_system.Base.{
  ℕ, ◌+◌, ◌≡◌, refl, inl, inr, if◌then◌else◌, Bool-cases, List, [], ◌∷◌, ◌++◌, arith, All, length,
}
use monitor_system.Encode.{Kind}
use monitor_system.Pipeline.Batch.{Line}
use monitor_system.Pipeline.Kept.{same_kind, same_kind-eq, of_kind}

-- The lines in the order of the files that `do_with_file` is called for.
abbrev pub by_kind : List Line → List Line
by_kind ls =
    of_kind Kind.mem ls ++ (of_kind Kind.cpu ls ++ (of_kind Kind.disk ls ++ of_kind Kind.sys ls))

-- What holds of all lines holds of those of one kind.
pub All-of_kind : (P : Line → Type 0) (k : Kind) (ls : List Line) → All P ls → All P (of_kind k ls)
All-of_kind P k [] h = tt
All-of_kind P k (l ∷ ls) (one, h) = elim (Bool-cases (same_kind k l.kind)) [
  | inl same ↦ rw same (one, All-of_kind P k ls h)
  | inr other ↦ rw other (All-of_kind P k ls h)
]

pub of_kind-kind : (k : Kind) (ls : List Line) → All (λ l. l.kind ≡ k) (of_kind k ls)
of_kind-kind k [] = tt
of_kind-kind k (l ∷ ls) = elim (Bool-cases (same_kind k l.kind)) [
  | inl same ↦ rw same (same_kind-eq k l.kind same, of_kind-kind k ls)
  | inr other ↦ rw other (of_kind-kind k ls)
]

-- Each line is of one kind.
count_one : Kind → Kind → ℕ
count_one j k = if same_kind j k then 1 else 0

length-of_kind :
    (j : Kind) (l : Line) (ls : List Line)
    → length (of_kind j (l ∷ ls)) ≡ count_one j l.kind + length (of_kind j ls)
unfolding count_one
length-of_kind j l ls = elim (Bool-cases (same_kind j l.kind)) [
  | inl same ↦ rw same (omega arith)
  | inr other ↦ rw other (omega arith)
]

count_once :
    (k : Kind)
    → count_one Kind.mem k + (count_one Kind.cpu k + (count_one Kind.disk k + count_one Kind.sys k))
      ≡ 1
unfolding count_one
count_once Kind.mem = refl
count_once Kind.cpu = refl
count_once Kind.disk = refl
count_once Kind.sys = refl

pub counts :
    (ls : List Line)
    → length (of_kind Kind.mem ls)
        + (length (of_kind Kind.cpu ls)
            + (length (of_kind Kind.disk ls) + length (of_kind Kind.sys ls)))
      ≡ length ls
counts [] = refl
counts (l ∷ ls) = omega (
  arith,
  length-of_kind Kind.mem l ls,
  length-of_kind Kind.cpu l ls,
  length-of_kind Kind.disk l ls,
  length-of_kind Kind.sys l ls,
  count_once l.kind,
  counts ls,
)
