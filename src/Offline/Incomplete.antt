-- ===== src/Offline/Incomplete.antt =====
-- A file that ends within a record.
use mathlib.Core.Path.{subst}
use monitor_system.Base.{
  ℕ, zero, suc, ◌+◌, ◌<◌, ◌≡◌, refl, ap, ◌∙◌, List, [], ◌∷◌, ◌++◌, append_assoc, map, some, arith,
  length, length-append, All, pos, ok, ◌>>=◌, true, c_str,
}
use monitor_system.Offline.{newline, empty_file, replay, fgets, do_with_file}
use monitor_system.Offline.Lines.{IsLine, text_of}
use monitor_system.Offline.RoundTrip.{replay-line, replay-lines}
use monitor_system.Offline.Resend.{Lines, resent, Fits, texts, do_with_file-replay}

-- Fewer lines than a record still wants are collected and never sent.
replay-incomplete :
    (fuel k n : ℕ) (temp : List ℕ) (ls : List (List ℕ))
    → All IsLine ls
    → length ls < suc n
    → length temp + length (text_of ls) < 500
    → length (text_of ls) < fuel
    → replay fuel k (pos (suc n)) temp (text_of ls) ≡ ok []
unfolding replay fgets
replay-incomplete zero k n temp ls h few small lt = absurd (omega (arith, lt))
replay-incomplete (suc fuel) k n temp [] h few small lt = refl
replay-incomplete (suc fuel) k zero temp (l ∷ ls) h few small lt = absurd (omega (arith, few))
replay-incomplete (suc fuel) k (suc n) temp (l ∷ ls) h few small lt =
    let line = length-append l (newline ∷ text_of ls) in
    replay-line fuel k temp l (text_of ls) h.0 (omega (arith, small, line)) n
    ∙ replay-incomplete fuel k n (temp ++ (l ++ (newline ∷ []))) ls h.1 (omega (arith, few))
        (omega (
          arith,
          small,
          line,
          length-append temp (l ++ (newline ∷ [])),
          length-append l (newline ∷ []),
        ))
        (omega (arith, lt, line))

-- Whole records in front of them are sent.
replay-records :
    (fuel n : ℕ) (rs : List Lines) (ls : List (List ℕ))
    → All (Fits (suc n)) rs
    → All IsLine ls
    → length ls < suc n
    → length (text_of ls) < 500
    → length (texts rs ++ text_of ls) < fuel
    → replay fuel (suc n) (pos (suc n)) [] (texts rs ++ text_of ls) ≡ ok (map resent rs)
replay-records fuel n [] ls h hl few small lt =
    replay-incomplete fuel (suc n) n [] ls hl few (omega (arith, small)) lt
replay-records fuel n (r ∷ rs) ls h hl few small lt =
    let (first, others, number, fits) = h.0 in
    let rest = texts rs ++ text_of ls in
    let same = append_assoc (resent r) (texts rs) (text_of ls) in
    let (f, left, runs) =
      replay-lines fuel (suc n) [] r.0 r.1 rest first others (omega (arith, fits))
        (omega (arith, lt, ap length same)) in
    subst
      (λ m.
        replay fuel (suc n) (pos m) [] (texts (r ∷ rs) ++ text_of ls) ≡ ok (map resent (r ∷ rs)))
      number
      (ap (replay fuel (suc n) (pos (suc (length r.1))) []) same
        ∙ runs
        ∙ ap (λ sent. sent >>= λ more. ok (resent r ∷ more))
            (replay-records f n rs ls h.1 hl few small left))

-- A file of any number of whole records of `n + 1` lines with fewer than `n + 1` lines behind them, as
-- an interrupted write leaves it: with every bound above the length of the file, the loop ends by its
-- own tests and sends the whole records, each once and in order, and nothing of the lines behind them;
-- `do_with_file` then empties the file, so that those are lost. The records, and the lines together, fit
-- the buffer, and `temp` happens to hold an empty string.
pub incomplete_record_lost :
    (fuel n : ℕ) (temp : List ℕ) (rs : List Lines) (ls : List (List ℕ))
    → c_str temp ≡ ok []
    → All (Fits (suc n)) rs
    → All IsLine ls
    → length ls < suc n
    → length (text_of ls) < 500
    → length (texts rs ++ text_of ls) < fuel
    → (replay fuel (suc n) (pos (suc n)) [] (texts rs ++ text_of ls) ≡ ok (map resent rs))
      × (do_with_file temp true (suc n) (some (texts rs ++ text_of ls))
          ≡ ok (map resent rs, some []))
incomplete_record_lost fuel n temp rs ls clean h hl few small lt =
    let file = texts rs ++ text_of ls in
    (
      replay-records fuel n rs ls h hl few small lt,
      do_with_file-replay temp [] true (suc n) file clean
          ∙ ap (λ x. x >>= λ sent. empty_file true >>= λ left. ok (sent, left))
              (replay-records (suc (length file)) n rs ls h hl few small (omega arith)),
    )
