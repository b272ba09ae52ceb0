-- ===== src/Config/LastWins.antt =====
-- Which value `get_conf_value` returns.
use monitor_system.Base.{
  ℕ, ◌<◌, ◌≡◌, ◌≢◌, refl, sym, ap, ◌∙◌, List, [], ◌∷◌, ◌++◌, append_assoc, map, map-append, none,
  some, arith, length, length-append, All, Option-cases, inl, inr, ◌==◌, ltb, ok, stop, ◌>>=◌, true,
  false, out_of_bounds,
}
use monitor_system.Offline.{newline, until_nul}
use monitor_system.Offline.Lines.{IsLine, text_of}
use monitor_system.Config.{
  equals_sign, lines_of, behind_key, setting, chomp, store, scan, get_conf_value,
}

-- A line as `getline` returns it.
abbrev pub ended : List ℕ → List ℕ
ended l = l ++ (newline ∷ [])

lines_of-line :
    (l rest : List ℕ) → IsLine l → lines_of (l ++ (newline ∷ rest)) ≡ ended l ∷ lines_of rest
unfolding lines_of
lines_of-line [] rest h = refl
lines_of-line (b ∷ l) rest h =
    let not_end : (b == newline) ≡ false = ground arith in simp (not_end, lines_of-line l rest h.1)

lines_of-text_of : (ls : List (List ℕ)) → All IsLine ls → lines_of (text_of ls) ≡ map ended ls
lines_of-text_of [] h = unfold lines_of in refl
lines_of-text_of (l ∷ ls) h =
    lines_of-line l (text_of ls) h.0 ∙ ap (λ r. ended l ∷ r) (lines_of-text_of ls h.1)

until_nul-ended : (l : List ℕ) → IsLine l → until_nul (ended l) ≡ ended l
unfolding until_nul
until_nul-ended [] h = refl
until_nul-ended (b ∷ l) h = ground (arith, until_nul-ended l h.1)

setting-append : (key v : List ℕ) → setting key (key ++ (equals_sign ∷ v)) ≡ some v
unfolding setting behind_key
setting-append [] v = refl
setting-append (k ∷ key) v = ground (arith, setting-append key v)

setting_sound : (key x v : List ℕ) → setting key x ≡ some v → x ≡ key ++ (equals_sign ∷ v)
unfolding setting behind_key
setting_sound [] [] v h = cc
setting_sound [] (b ∷ x) v h = ground arith
setting_sound (k ∷ key) [] v h = cc
setting_sound (k ∷ key) (b ∷ x) v h = ground (arith, setting_sound key x v)

last : List ℕ → ℕ → ℕ
last [] d = d
last (x ∷ xs) d = last xs x

last-append : (xs ys : List ℕ) (y d : ℕ) → last (xs ++ (y ∷ ys)) d ≡ last ys y
unfolding last
last-append [] ys y d = refl
last-append (x ∷ xs) ys y d = last-append xs ys y x

chomp-ended : (v : List ℕ) → chomp (ended v) ≡ ok v
unfolding chomp
chomp-ended [] = refl
chomp-ended (b ∷ []) = refl
chomp-ended (b ∷ c ∷ v) = ap (λ r. r >>= λ s. ok (b ∷ s)) (chomp-ended (c ∷ v))

chomp_total : (b : ℕ) (v : List ℕ) → (w : List ℕ) × (chomp (b ∷ v) ≡ ok w)
unfolding chomp
chomp_total b [] = (_, refl)
chomp_total b (c ∷ v) = let (w, e) = chomp_total c v in (b ∷ w, ap (λ r. r >>= λ s. ok (b ∷ s)) e)

-- A line that is read gives no empty value: its newline is in it.
no_empty_value : (key l : List ℕ) → setting key (ended l) ≡ some [] → ⊥
unfolding last
no_empty_value key l h = absurd (
    differ (
      sym (last-append l [] newline 0)
      ∙ ap (λ x. last x 0) (setting_sound key (ended l) [] h)
      ∙ last-append key [] equals_sign 0))
  where
    differ : newline ≡ equals_sign → ⊥
    differ e = omega arith

length-setting : (key l v : List ℕ) → setting key (ended l) ≡ some v → length v < length (ended l)
length-setting key l v h =
    let size = ap length (setting_sound key (ended l) v h) ∙ length-append key (equals_sign ∷ v) in
    omega arith

store_total :
    (key l buf : List ℕ)
    → length l < 511
    → (w : List ℕ) × (store buf (setting key (ended l)) ≡ ok w)
unfolding store
store_total key l buf small = elim (Option-cases (setting key (ended l))) [
  | inl none_set ↦ (buf, ap (store buf) none_set)
  | inr ([], set) ↦ absurd (no_empty_value key l set)
  | inr (b ∷ v, set) ↦
      let shorter = length-setting key l (b ∷ v) set in
      let size = length-append l (newline ∷ []) in
      let (w, done) = chomp_total b v in
      let fits : ltb (length (b ∷ v)) 512 ≡ true = ground arith in
      (w, ap (store buf) set ∙ rw (fits, done) refl)
]

-- Lines of the file that give no value to `key`.
abbrev pub IsOther : List ℕ → List ℕ → Type 0
IsOther key l = (v : List ℕ) → ended l ≢ key ++ (equals_sign ∷ v)

IsOther-setting : (key l : List ℕ) → IsOther key l → setting key (ended l) ≡ none
IsOther-setting key l h = elim (Option-cases (setting key (ended l))) [
  | inl none_set ↦ none_set
  | inr (v, set) ↦ absurd (h v (setting_sound key (ended l) v set))
]

-- Any lines, each of which fits the array, leave some string in it.
scan_total :
    (key buf : List ℕ) (ls : List (List ℕ)) (rest : List (List ℕ))
    → All IsLine ls
    → All (λ l. length l < 511) ls
    → (w : List ℕ) × (scan key buf (map ended ls ++ rest) ≡ scan key w rest)
unfolding scan
scan_total key buf [] rest h small = (buf, refl)
scan_total key buf (l ∷ ls) rest h small =
    let (w, stored) = store_total key l buf small.0 in
    let (u, scanned) = scan_total key w ls rest h.1 small.1 in
    (u, rw (until_nul-ended l h.0, stored) scanned)

scan-IsOther :
    (key buf : List ℕ) (ls : List (List ℕ))
    → All IsLine ls
    → All (IsOther key) ls
    → scan key buf (map ended ls) ≡ ok buf
unfolding scan store
scan-IsOther key buf [] h others = refl
scan-IsOther key buf (l ∷ ls) h others =
    rw (until_nul-ended l h.0, IsOther-setting key l others.0)
      (scan-IsOther key buf ls h.1 others.1)

scan-line :
    (key v buf : List ℕ) (rest : List (List ℕ))
    → IsLine (key ++ (equals_sign ∷ v))
    → length v < 511
    → scan key buf (ended (key ++ (equals_sign ∷ v)) ∷ rest) ≡ scan key v rest
unfolding scan store
scan-line key v buf rest h small =
    let same = append_assoc key (equals_sign ∷ v) (newline ∷ []) in
    let size = length-append v (newline ∷ []) in
    let fits : ltb (length (ended v)) 512 ≡ true = ground arith in
    rw
      (
        until_nul-ended (key ++ (equals_sign ∷ v)) h,
        ap (setting key) same ∙ setting-append key (ended v),
        fits,
        chomp-ended v,
      )
      refl

All-append : (ls ms : List (List ℕ)) → All IsLine ls → All IsLine ms → All IsLine (ls ++ ms)
All-append [] ms h k = k
All-append (l ∷ ls) ms h k = (h.0, All-append ls ms h.1 k)

-- In a file of lines without NUL, each ended by a newline, the value of `key` is the text behind
-- `key=` on the last line that starts with it, whatever the lines in front of it say. The lines in
-- front fit `conf_buf`, and so does the value.
pub last_setting_wins :
    (key v : List ℕ) (before after : List (List ℕ))
    → All IsLine before
    → All (λ l. length l < 511) before
    → IsLine (key ++ (equals_sign ∷ v))
    → length v < 511
    → All IsLine after
    → All (IsOther key) after
    → get_conf_value (some (text_of (before ++ ((key ++ (equals_sign ∷ v)) ∷ after)))) key
      ≡ ok (some v)
unfolding get_conf_value
last_setting_wins key v before after hb small hl room ha others =
    let line = key ++ (equals_sign ∷ v) in
    let (w, front) = scan_total key [] before (ended line ∷ map ended after) hb small in
    let read =
      lines_of-text_of (before ++ (line ∷ after)) (All-append before (line ∷ after) hb (hl, ha))
      ∙ map-append ended before (line ∷ after) in
    ap (λ ls. scan key [] ls >>= λ r. ok (some r)) read
    ∙ ap (λ r. r >>= λ s. ok (some s))
        (front ∙ scan-line key v w (map ended after) hl room ∙ scan-IsOther key v after ha others)

-- A key that no line gives a value to has the empty string, which is not the null pointer of a
-- missing file.
missing_key_empty :
    (key : List ℕ) (ls : List (List ℕ))
    → All IsLine ls
    → All (IsOther key) ls
    → (get_conf_value (some (text_of ls)) key ≡ ok (some [])) × (get_conf_value none key ≡ ok none)
unfolding get_conf_value
missing_key_empty key ls h others = (
  ap (λ r. scan key [] r >>= λ s. ok (some s)) (lines_of-text_of ls h)
      ∙ ap (λ r. r >>= λ s. ok (some s)) (scan-IsOther key [] ls h others),
  refl,
)

lines_of-append :
    (ls : List (List ℕ)) (rest : List ℕ)
    → All IsLine ls
    → lines_of (text_of ls ++ rest) ≡ map ended ls ++ lines_of rest
lines_of-append [] rest h = refl
lines_of-append (l ∷ ls) rest h =
    ap lines_of (append_assoc l (newline ∷ text_of ls) rest)
    ∙ lines_of-line l (text_of ls ++ rest) h.0
    ∙ ap (λ r. ended l ∷ r) (lines_of-append ls rest h.1)

lines_of-unended :
    (key : List ℕ)
    → IsLine (key ++ (equals_sign ∷ []))
    → lines_of (key ++ (equals_sign ∷ [])) ≡ (key ++ (equals_sign ∷ [])) ∷ []
unfolding lines_of
lines_of-unended [] h = refl
lines_of-unended (b ∷ key) h =
    let not_end : (b == newline) ≡ false = ground arith in
    rw (not_end, lines_of-unended key h.1) refl

until_nul-line : (l : List ℕ) → IsLine l → until_nul l ≡ l
unfolding until_nul
until_nul-line [] h = refl
until_nul-line (b ∷ l) h = ground (arith, until_nul-line l h.1)

-- A last line `key=` without a newline makes it read the byte in front of `conf_buf`.
unended_empty_value :
    (key : List ℕ) (ls : List (List ℕ))
    → All IsLine ls
    → All (λ l. length l < 511) ls
    → IsLine (key ++ (equals_sign ∷ []))
    → get_conf_value (some (text_of ls ++ (key ++ (equals_sign ∷ [])))) key ≡ stop out_of_bounds
unfolding get_conf_value scan store chomp
unended_empty_value key ls h small line =
    let last_line = key ++ (equals_sign ∷ []) in
    let (w, front) = scan_total key [] ls (last_line ∷ []) h small in
    let read =
      lines_of-append ls last_line h ∙ ap (λ r. map ended ls ++ r) (lines_of-unended key line) in
    ap (λ r. scan key [] r >>= λ s. ok (some s)) read
    ∙ ap (λ r. r >>= λ s. ok (some s)) front
    ∙ rw (until_nul-line last_line line, setting-append key []) refl
