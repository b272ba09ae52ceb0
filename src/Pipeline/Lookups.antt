-- ===== src/Pipeline/Lookups.antt =====
-- Looking up the fields of a record by their names.
use monitor_system.Base.{
  ℕ, ◌≡◌, ◌≢◌, refl, ◌∙◌, inl, inr, Bool, true, false, not, ◌&&◌, Bool-cases, List, [], ◌∷◌, ◌++◌,
  map, some, arith, All, length, str_eq_refl, IsText, codes,
}
use monitor_system.Json.{Cjson, Fields, find, same_name, to_lower, TextFields, string_at}
use monitor_system.Config.{glue}
use monitor_system.Encode.{Kind, is_delim, names}
use monitor_system.Encode.Object.{fields_of, record_of, two_words}
use monitor_system.Encode.Words.{fields, drop_empty, words}
use monitor_system.Storing.Query.{HasRow}

-- Each name finds its value.
abbrev pub Lookups : Fields → List (List ℕ) → List (List ℕ) → Type 0
Lookups fs [] [] = Unit
Lookups fs [] (w ∷ ws) = ⊥
Lookups fs (n ∷ ns) [] = ⊥
Lookups fs (n ∷ ns) (w ∷ ws) = (find fs n ≡ some w) × Lookups fs ns ws

-- No name of the list is the same as another.
unfoldable pub is_new : List ℕ → List (List ℕ) → Bool
is_new k [] = true
is_new k (n ∷ ns) = not (same_name n k) && is_new k ns

unfoldable pub are_distinct : List (List ℕ) → Bool
unfolding is_new
are_distinct [] = true
are_distinct (n ∷ ns) = is_new n ns && are_distinct ns

Lookups-cons :
    (k v : List ℕ) (fs : Fields) (ns ws : List (List ℕ))
    → is_new k ns ≡ true
    → Lookups fs ns ws
    → Lookups ((k, some v) ∷ fs) ns ws
unfolding is_new find
Lookups-cons k v fs [] [] new h = tt
Lookups-cons k v fs [] (w ∷ ws) new h = h
Lookups-cons k v fs (n ∷ ns) [] new h = h
Lookups-cons k v fs (n ∷ ns) (w ∷ ws) new h = elim (Bool-cases (same_name n k)) [
  | inl same ↦ absurd (refuse same new)
  | inr other ↦ (rw other h.0, Lookups-cons k v fs ns ws (rest other new) h.1)
]
  where
    refuse : same_name n k ≡ true → (not (same_name n k) && is_new k ns) ≡ true → ⊥
    refuse p q = ground (arith, p, q)

    rest : same_name n k ≡ false → (not (same_name n k) && is_new k ns) ≡ true → is_new k ns ≡ true
    rest p q = ground (arith, p, q)

pub Lookups-fields_of :
    (ns ws : List (List ℕ))
    → are_distinct ns ≡ true
    → length ws ≡ length ns
    → Lookups (fields_of ns ws) ns ws
unfolding are_distinct find
Lookups-fields_of [] [] d e = tt
Lookups-fields_of [] (w ∷ ws) d e = absurd (omega arith)
Lookups-fields_of (n ∷ ns) [] d e = absurd (omega arith)
Lookups-fields_of (n ∷ ns) (w ∷ ws) d e =
    let new : is_new n ns ≡ true = ground (arith, d) in
    let others : are_distinct ns ≡ true = ground (arith, d) in
    (
      rw (str_eq_refl (map to_lower n)) refl,
      Lookups-cons n w (fields_of ns ws) ns ws new (Lookups-fields_of ns ws others (omega arith)),
    )

-- A parsed object that finds the values of a record has them in its row.
pub Lookups-HasRow :
    (json : Cjson) (o : json.Item) (fs : Fields) (ns ws : List (List ℕ))
    → ((name : List ℕ) → string_at json (some o) name ≡ find fs name)
    → Lookups fs ns ws
    → HasRow json (some o) ns ws
Lookups-HasRow json o fs [] [] found h = tt
Lookups-HasRow json o fs [] (w ∷ ws) found h = h
Lookups-HasRow json o fs (n ∷ ns) [] found h = h
Lookups-HasRow json o fs (n ∷ ns) (w ∷ ws) found h =
    (found n ∙ h.0, Lookups-HasRow json o fs ns ws found h.1)

glue-All : (b : ℕ) (ws : List (List ℕ)) → b ≢ 0 → All IsText ws → All IsText (glue b ws)
glue-All b [] ne h = ((ne, tt), tt)
glue-All b (w ∷ ws) ne h = ((ne, h.0), h.1)

fields-All : (s : List ℕ) → IsText s → All IsText (fields s)
unfolding fields
fields-All [] h = (tt, tt)
fields-All (b ∷ s) h = elim (Bool-cases (is_delim b)) [
  | inl delim ↦ rw delim (tt, fields-All s h.1)
  | inr other ↦ rw other (glue-All b (fields s) h.0 (fields-All s h.1))
]

drop_empty-All : (ws : List (List ℕ)) → All IsText ws → All IsText (drop_empty ws)
drop_empty-All [] h = tt
drop_empty-All ([] ∷ ws) h = drop_empty-All ws h.1
drop_empty-All ((b ∷ w) ∷ ws) h = (h.0, drop_empty-All ws h.1)

-- The words of a text are texts.
pub words-All : (s : List ℕ) → IsText s → All IsText (words s)
words-All s h = drop_empty-All (fields s) (fields-All s h)

fields_of-TextFields :
    (ns ws : List (List ℕ)) → All IsText ns → All IsText ws → TextFields (fields_of ns ws)
fields_of-TextFields [] ws h k = tt
fields_of-TextFields (n ∷ ns) [] h k = ((h.0, tt), fields_of-TextFields ns [] h.1 tt)
fields_of-TextFields (n ∷ ns) (w ∷ ws) h k = ((h.0, k.0), fields_of-TextFields ns ws h.1 k.1)

names-All : (k : Kind) → All IsText (names k)
names-All Kind.mem = omega arith
names-All Kind.cpu = omega arith
names-All Kind.disk = omega arith
names-All Kind.sys = omega arith

names_distinct : (k : Kind) → are_distinct (codes "now_time" ∷ names k) ≡ true
unfolding are_distinct
names_distinct Kind.mem = refl
names_distinct Kind.cpu = refl
names_distinct Kind.disk = refl
names_distinct Kind.sys = refl

append-IsText : (s t : List ℕ) → IsText s → IsText t → IsText (s ++ t)
append-IsText [] t h k = k
append-IsText (b ∷ s) t h k = (h.0, append-IsText s t h.1 k)

two_words-IsText : (d h : List ℕ) → IsText d → IsText h → IsText (two_words d h)
two_words-IsText d h p q =
    append-IsText (d ++ codes " ") h (append-IsText d (codes " ") p (omega arith)) q

-- A record has its values under the names of its kind.
pub Lookups-record_of :
    (k : Kind) (d h : List ℕ) (ws : List (List ℕ))
    → length ws ≡ length (names k)
    → Lookups (record_of k d h ws) (codes "now_time" ∷ names k) (two_words d h ∷ ws)
Lookups-record_of k d h ws e =
    Lookups-fields_of (codes "now_time" ∷ names k) (two_words d h ∷ ws) (names_distinct k)
      (omega arith)

pub record_of-TextFields :
    (k : Kind) (d h : List ℕ) (ws : List (List ℕ))
    → All IsText (d ∷ h ∷ ws)
    → TextFields (record_of k d h ws)
record_of-TextFields k d h ws (p, (q, r)) =
    ((omega arith, two_words-IsText d h p q), fields_of-TextFields (names k) ws (names-All k) r)
