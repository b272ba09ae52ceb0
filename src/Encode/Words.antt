-- ===== src/Encode/Words.antt =====
-- The words of a text, and what a call of `strtok` takes of them.
use monitor_system.Base.{
  ℕ, ◌≡◌, refl, sym, ap, ◌∙◌, inl, inr, false, Bool-cases, List, [], ◌∷◌, Option, none, some,
  if◌then◌else◌,
}
use monitor_system.Config.{glue}
use monitor_system.Encode.{is_delim, skip_delims, split_word, first_word, strtok}

-- What stands between the delimiters.
unfoldable pub fields : List ℕ → List (List ℕ)
fields [] = [] ∷ []
fields (b ∷ s) = let rest = fields s in if is_delim b then [] ∷ rest else glue b rest

abbrev pub drop_empty : List (List ℕ) → List (List ℕ)
drop_empty [] = []
drop_empty ([] ∷ ws) = drop_empty ws
drop_empty ((b ∷ w) ∷ ws) = (b ∷ w) ∷ drop_empty ws

-- The words of a text.
abbrev pub words : List ℕ → List (List ℕ)
words s = drop_empty (fields s)

words-skip_delims : (s : List ℕ) → words (skip_delims s) ≡ words s
unfolding fields skip_delims
words-skip_delims [] = refl
words-skip_delims (b ∷ s) = elim (Bool-cases (is_delim b)) [
  | inl delim ↦ rw delim (words-skip_delims s)
  | inr other ↦
      let same : skip_delims (b ∷ s) ≡ b ∷ s = rw other refl in ap (λ r. drop_empty (fields r)) same
]

-- The text at the next word.
data AtWord : List ℕ → Type 0 where
  ended : AtWord []
  starts : (b : ℕ) (s : List ℕ) → is_delim b ≡ false → AtWord (b ∷ s)

skip_delims-AtWord : (s : List ℕ) → AtWord (skip_delims s)
unfolding skip_delims
skip_delims-AtWord [] = ended
skip_delims-AtWord (b ∷ s) = elim (Bool-cases (is_delim b)) [
  | inl delim ↦ rw delim (skip_delims-AtWord s)
  | inr other ↦ rw other (starts b s other)
]

fields-split_word :
    (s : List ℕ)
    → (tail : List (List ℕ)) × (fields s ≡ (split_word s).0 ∷ tail)
      × (drop_empty tail ≡ words (split_word s).1)
unfolding fields split_word
fields-split_word [] = ([], refl, refl)
fields-split_word (b ∷ s) = elim (Bool-cases (is_delim b)) [
  | inl delim ↦ (fields s, rw delim refl, rw delim refl)
  | inr other ↦
      let (tail, split, kept) = fields-split_word s in
      (tail, rw other (ap (glue b) split), rw other kept)
]

-- The words that one call finds, and those behind it.
abbrev pub words_from : Option (List ℕ) × List ℕ → List (List ℕ)
words_from (none, rest) = []
words_from (some w, rest) = w ∷ words rest

words-AtWord : {s : List ℕ} → AtWord s → words s ≡ words_from (first_word s)
unfolding fields split_word
words-AtWord ended = refl
words-AtWord (starts b s other) =
    let (tail, split, kept) = fields-split_word s in
    rw other (ap (λ r. drop_empty (glue b r)) split ∙ ap (λ r. (b ∷ (split_word s).0) ∷ r) kept)

pub words-strtok : (s : List ℕ) → words s ≡ words_from (strtok s)
unfolding strtok
words-strtok s = sym (words-skip_delims s) ∙ words-AtWord (skip_delims-AtWord s)

-- Behind the null pointer there are no words.
abbrev pub Ends : Option (List ℕ) × List ℕ → Type 0
Ends (none, rest) = words rest ≡ []
Ends (some w, rest) = Unit

first_word-Ends : (s : List ℕ) → Ends (first_word s)
unfolding fields
first_word-Ends [] = refl
first_word-Ends (b ∷ s) = tt

pub strtok-Ends : (s : List ℕ) → Ends (strtok s)
unfolding strtok
strtok-Ends s = first_word-Ends (skip_delims s)
