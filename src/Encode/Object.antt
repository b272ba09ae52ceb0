-- ===== src/Encode/Object.antt =====
-- The object that a branch of `send_data_to_server` builds.
use monitor_system.Base.{
  ℕ, ◌<◌, ◌≡◌, refl, sym, ap, ◌∙◌, true, List, [], ◌∷◌, ◌++◌, Option, none, some, arith, codes, ok,
  stop, null_pointer, concat, ltb, length, length-append,
}
use monitor_system.Json.{Cjson, Fields, build, build_from}
use monitor_system.Encode.{strtok, now_time, Kind, names, add_words, object_of}
use monitor_system.Encode.Words.{words, words_from, words-strtok, Ends, strtok-Ends}

-- The names with the words that they get; a name without a word gets the null pointer.
abbrev pub fields_of : List (List ℕ) → List (List ℕ) → Fields
fields_of [] ws = []
fields_of (n ∷ ns) [] = (n, none) ∷ fields_of ns []
fields_of (n ∷ ns) (w ∷ ws) = (n, some w) ∷ fields_of ns ws

-- What the next call of `strtok` returns, by the words that are left.
pub strtok-cons :
    (s w : List ℕ) (ws : List (List ℕ))
    → words s ≡ w ∷ ws
    → ((strtok s).0 ≡ some w) × (words (strtok s).1 ≡ ws)
strtok-cons s w ws h = from (strtok s) (sym (words-strtok s) ∙ h)
  where
    from :
        (r : Option (List ℕ) × List ℕ) → words_from r ≡ w ∷ ws → (r.0 ≡ some w) × (words r.1 ≡ ws)
    from (none, rest) e = absurd (cc e)
    from (some v, rest) e = (cc e, cc e)

pub strtok-nil : (s : List ℕ) → words s ≡ [] → ((strtok s).0 ≡ none) × (words (strtok s).1 ≡ [])
strtok-nil s h = from (strtok s) (strtok-Ends s) (sym (words-strtok s) ∙ h)
  where
    from :
        (r : Option (List ℕ) × List ℕ)
        → Ends r
        → words_from r ≡ []
        → (r.0 ≡ none) × (words r.1 ≡ [])
    from (none, rest) left e = (refl, left)
    from (some v, rest) left e = absurd (cc e)

abbrev pub two_words : List ℕ → List ℕ → List ℕ
two_words d h = (d ++ codes " ") ++ h

now_time-words :
    (s d h : List ℕ) (ws : List (List ℕ))
    → words s ≡ d ∷ h ∷ ws
    → length (two_words d h) < 30
    → (rest : List ℕ) × (now_time s ≡ ok (two_words d h, rest)) × (words rest ≡ ws)
unfolding now_time
now_time-words s d h ws e lt =
    let (day, after_day) = strtok-cons s d (h ∷ ws) e in
    let (hour, after_hour) = strtok-cons (strtok s).1 h ws after_day in
    let shorter = length-append (d ++ codes " ") h in
    let shortest = length-append d (codes " ") in
    let a : ltb (length d) 30 ≡ true = ground arith in
    let b : ltb (length (d ++ codes " ")) 30 ≡ true = ground arith in
    let c : ltb (length (two_words d h)) 30 ≡ true = ground arith in
    ((strtok (strtok s).1).1, rw (day, a, b, hour, c) refl, after_hour)

add_words_lem :
    (json : Cjson) (o : json.Item) (ns : List (List ℕ)) (s : List ℕ) (ws : List (List ℕ))
    → words s ≡ ws
    → add_words json o ns s ≡ build_from json o (fields_of ns ws)
unfolding add_words build_from
add_words_lem json o [] s ws h = refl
add_words_lem json o (n ∷ ns) s [] h =
    let (ends, left) = strtok-nil s h in
    ap (λ v. add_words json (json.add_string o n v) ns (strtok s).1) ends
    ∙ add_words_lem json (json.add_string o n none) ns (strtok s).1 [] left
add_words_lem json o (n ∷ ns) s (w ∷ ws) h =
    let (found, left) = strtok-cons s w ws h in
    ap (λ v. add_words json (json.add_string o n v) ns (strtok s).1) found
    ∙ add_words_lem json (json.add_string o n (some w)) ns (strtok s).1 ws left

-- The fields of a message of this kind whose words are `d`, `h` and then `ws`.
abbrev pub record_of : Kind → List ℕ → List ℕ → List (List ℕ) → Fields
record_of k d h ws = (codes "now_time", some (two_words d h)) ∷ fields_of (names k) ws

-- For a line with at least two words, the first two of which fit `now_time`, each branch of
-- `send_data_to_server` builds the object that pairs `now_time` with these two and the names of its kind
-- with the words behind them in order; a name for which no word is left gets the null pointer, and words
-- behind the last name are dropped. The words are what stands between the blanks and newlines, whatever
-- runs of them there are.
pub object_of-words :
    (json : Cjson) (k : Kind) (s d h : List ℕ) (ws : List (List ℕ))
    → words s ≡ d ∷ h ∷ ws
    → length (two_words d h) < 30
    → object_of json k s ≡ ok (build json (record_of k d h ws))
unfolding object_of build_from
object_of-words json k s d h ws e lt =
    let (rest, time, left) = now_time-words s d h ws e lt in
    rw time (
      ap ok (
        add_words_lem json
          (json.add_string json.create_object (codes "now_time") (some (two_words d h))) (names k)
          rest ws left))

-- A line of fewer than two words, the one of them short enough for `now_time`, makes the client follow
-- a null pointer.
pub short_line_crashes :
    (json : Cjson) (k : Kind) (s : List ℕ) (ws : List (List ℕ))
    → words s ≡ ws
    → length ws < 2
    → length (concat ws) < 29
    → object_of json k s ≡ stop null_pointer
unfolding object_of now_time
short_line_crashes json k s [] e lt small = rw (strtok-nil s e).0 refl
short_line_crashes json k s (w ∷ []) e lt small =
    let (day, after_day) = strtok-cons s w [] e in
    let size = length-append w [] in
    let shortest = length-append w (codes " ") in
    let a : ltb (length w) 30 ≡ true = ground arith in
    let b : ltb (length (w ++ codes " ")) 30 ≡ true = ground arith in
    rw (day, a, b, (strtok-nil (strtok s).1 after_day).0) refl
short_line_crashes json k s (w ∷ v ∷ ws) e lt small = absurd (omega arith)
