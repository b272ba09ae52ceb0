-- ===== src/Offline/Resend.antt =====
-- The records that the client could not send, written to the file and sent from it.
use mathlib.Core.Path.{subst}
use monitor_system.Base.{
  ℕ, Bool, zero, suc, ◌+◌, ◌<◌, ◌≡◌, refl, sym, ap, ◌∙◌, List, [], ◌∷◌, ◌++◌, append_assoc,
  append-nil, map, none, some, arith, length, All, pos, Exec, ok, ◌>>=◌, true, c_str,
}
use monitor_system.Offline.{DataFile, newline, persist, empty_file, fgets, replay, do_with_file}
use monitor_system.Offline.Lines.{IsLine, text_of, join, join-newline}
use monitor_system.Offline.RoundTrip.{replay-lines}

-- A record by its lines, of which there is one at least.
abbrev pub Lines : Type 0
Lines = List ℕ × List (List ℕ)

-- A record as the client writes it, and as it is sent: with a newline at the end.
abbrev pub written : Lines → List ℕ
written r = join r.0 r.1

abbrev pub resent : Lines → List ℕ
resent r = text_of (r.0 ∷ r.1)

-- A record of `k` lines that fits the buffers of `do_with_file`.
abbrev pub Fits : ℕ → Lines → Type 0
Fits k r = IsLine r.0 × All IsLine r.1 × (suc (length r.1) ≡ k) × (length (resent r) < 500)

-- The client writes one record after the other.
unfoldable pub persist_all : DataFile → List Lines → Exec DataFile
persist_all file [] = ok file
persist_all file (r ∷ rs) = persist true true file (written r) >>= λ grown. persist_all grown rs

abbrev pub texts : List Lines → List ℕ
texts [] = []
texts (r ∷ rs) = resent r ++ texts rs

persist_all-some :
    (old : List ℕ) (rs : List Lines) → persist_all (some old) rs ≡ ok (some (old ++ texts rs))
unfolding persist_all persist
persist_all-some old [] = ap (λ t. ok (some t)) (sym (append-nil old))
persist_all-some old (r ∷ rs) =
    persist_all-some (old ++ (written r ++ (newline ∷ []))) rs
    ∙ ap (λ t. ok (some t))
        (append_assoc old (written r ++ (newline ∷ [])) (texts rs)
          ∙ ap (λ t. old ++ (t ++ texts rs)) (join-newline r.0 r.1))

-- A file that is not there, or has been emptied.
abbrev pub IsEmptyFile : DataFile → Type 0
IsEmptyFile none = Unit
IsEmptyFile (some []) = Unit
IsEmptyFile (some (b ∷ bs)) = ⊥

persist_all-empty :
    (file : DataFile) (r : Lines) (rs : List Lines)
    → IsEmptyFile file
    → persist_all file (r ∷ rs) ≡ ok (some (texts (r ∷ rs)))
unfolding persist_all persist
persist_all-empty none r rs h =
    persist_all-some (written r ++ (newline ∷ [])) rs
    ∙ ap (λ t. ok (some (t ++ texts rs))) (join-newline r.0 r.1)
persist_all-empty (some []) r rs h =
    persist_all-some (written r ++ (newline ∷ [])) rs
    ∙ ap (λ t. ok (some (t ++ texts rs))) (join-newline r.0 r.1)
persist_all-empty (some (b ∷ bs)) r rs h = elim h [ ]

replay-nil : (fuel k : ℕ) → replay fuel k (pos k) [] [] ≡ ok []
unfolding replay fgets
replay-nil zero k = refl
replay-nil (suc fuel) k = refl

replay-texts :
    (fuel k : ℕ) (rs : List Lines)
    → All (Fits k) rs
    → length (texts rs) < fuel
    → replay fuel k (pos k) [] (texts rs) ≡ ok (map resent rs)
replay-texts fuel k [] h lt = replay-nil fuel k
replay-texts fuel k (r ∷ rs) h lt =
    let (first, others, number, small) = h.0 in
    let (f, left, runs) = replay-lines fuel k [] r.0 r.1 (texts rs) first others (omega arith) lt in
    subst (λ n. replay fuel k (pos n) [] (texts (r ∷ rs)) ≡ ok (map resent (r ∷ rs))) number
      (runs ∙ ap (λ sent. sent >>= λ more. ok (resent r ∷ more)) (replay-texts f k rs h.1 left))

-- The same where `temp` already holds a text: it goes out in front of the first record.
replay-stale :
    (fuel k : ℕ) (t : List ℕ) (r : Lines) (rs : List Lines)
    → All (Fits k) (r ∷ rs)
    → length t + length (resent r) < 500
    → length (texts (r ∷ rs)) < fuel
    → replay fuel k (pos k) t (texts (r ∷ rs)) ≡ ok ((t ++ resent r) ∷ map resent rs)
replay-stale fuel k t r rs h room lt =
    let (first, others, number, small) = h.0 in
    let (f, left, runs) = replay-lines fuel k t r.0 r.1 (texts rs) first others room lt in
    subst (λ n. replay fuel k (pos n) t (texts (r ∷ rs)) ≡ ok ((t ++ resent r) ∷ map resent rs))
      number
      (runs
        ∙ ap (λ sent. sent >>= λ more. ok ((t ++ resent r) ∷ more)) (replay-texts f k rs h.1 left))

-- `do_with_file` where `temp` holds a string.
pub do_with_file-replay :
    (temp start : List ℕ) (emptied : Bool) (k : ℕ) (file : List ℕ)
    → c_str temp ≡ ok start
    → do_with_file temp emptied k (some file) ≡ (
        replay (suc (length file)) k (pos k) start file >>= λ sent.
        empty_file emptied >>= λ left. ok (sent, left))
unfolding do_with_file replay fgets
do_with_file-replay temp start emptied k [] held = refl
do_with_file-replay temp start emptied k (b ∷ bs) held = rw held refl

-- Records of `k` lines each, written one after the other to a missing or empty file, are all handed
-- to `send` by `do_with_file`, each once, in the order of writing and with a newline behind it, and
-- the file is empty afterwards. What the uninitialised `temp` happens to hold, if it leaves room for
-- the first record, is sent in front of that record.
pub persisted_records_resent :
    (file : DataFile) (k : ℕ) (temp t : List ℕ) (r : Lines) (rs : List Lines)
    → IsEmptyFile file
    → c_str temp ≡ ok t
    → All (Fits k) (r ∷ rs)
    → length t + length (resent r) < 500
    → (persist_all file (r ∷ rs) >>= do_with_file temp true k)
      ≡ ok ((t ++ resent r) ∷ map resent rs, some [])
persisted_records_resent file k temp t r rs empty held h room =
    ap (λ left. left >>= do_with_file temp true k) (persist_all-empty file r rs empty)
    ∙ do_with_file-replay temp t true k (texts (r ∷ rs)) held
    ∙ ap (λ x. x >>= λ sent. empty_file true >>= λ left. ok (sent, left))
        (replay-stale (suc (length (texts (r ∷ rs)))) k t r rs h room (omega arith))
