-- ===== src/Offline/RoundTrip.antt =====
-- What `do_with_file` sends of a file that the client wrote.
use monitor_system.Base.{
  ℕ, zero, suc, ◌+◌, ◌<◌, ◌≡◌, ap, ◌∙◌, List, [], ◌∷◌, ◌++◌, append_assoc, some, arith, length,
  length-append, ◌==◌, ==-ne, ltb, All, pos, ok, ◌>>=◌, true, false,
}
use monitor_system.Offline.{newline, fgets, replay}
use monitor_system.Offline.Lines.{IsLine, text_of, fgets-line, until_nul-line}

module _ (fuel k : ℕ) (temp l rest : List ℕ) (h : IsLine l)
    (fits : length temp + length l < 499) where
  room : length (temp ++ (l ++ (newline ∷ []))) < 500
  room = omega (arith, length-append temp (l ++ (newline ∷ [])), length-append l (newline ∷ []))

  in_bounds : ltb (length (temp ++ (l ++ (newline ∷ [])))) 500 ≡ true
  in_bounds = ground (arith, room)

  some_text : (length (temp ++ (l ++ (newline ∷ []))) == 0) ≡ false
  some_text =
      ==-ne (length (temp ++ (l ++ (newline ∷ [])))) 0 (λ e.
        omega (arith, length-append temp (l ++ (newline ∷ [])), length-append l (newline ∷ [])))

  reads : fgets (l ++ (newline ∷ rest)) ≡ some (l ++ (newline ∷ []), rest)
  reads = fgets-line l rest h (omega arith)

  -- A line that does not complete a record is collected.
  pub replay-line :
      (n : ℕ)
      → replay (suc fuel) k (pos (suc (suc n))) temp (l ++ (newline ∷ rest))
        ≡ replay fuel k (pos (suc n)) (temp ++ (l ++ (newline ∷ []))) rest
  unfolding replay
  replay-line n =
      rw reads (rw (until_nul-line l h) (rw in_bounds (rw (==-ne (suc n) 0 (λ e. omega arith)))))

  -- A line that completes one sends it.
  replay-last :
      replay (suc fuel) k (pos 1) temp (l ++ (newline ∷ rest))
      ≡ (replay fuel k (pos k) [] rest >>= λ more. ok ((temp ++ (l ++ (newline ∷ []))) ∷ more))
  unfolding replay
  replay-last = rw reads (rw (until_nul-line l h) (rw in_bounds (rw some_text)))

-- The lines of a record that are still to come, with `temp` holding those before them, are sent
-- together with it, and the loop goes on behind them with an empty `temp`.
pub replay-lines :
    (fuel k : ℕ) (temp l : List ℕ) (ls : List (List ℕ)) (rest : List ℕ)
    → IsLine l
    → All IsLine ls
    → length temp + length (text_of (l ∷ ls)) < 500
    → length (text_of (l ∷ ls) ++ rest) < fuel
    → (f : ℕ) × (length rest < f)
      × (replay fuel k (pos (suc (length ls))) temp (text_of (l ∷ ls) ++ rest)
          ≡ (replay f k (pos k) [] rest >>= λ more. ok ((temp ++ text_of (l ∷ ls)) ∷ more)))
replay-lines zero k temp l ls rest hl hls small h = elim h [ ]
replay-lines (suc fuel) k temp l [] rest hl hls small h = (
  fuel,
  omega (arith, length-append (l ++ (newline ∷ [])) rest, length-append l (newline ∷ [])),
  ap (replay (suc fuel) k (pos 1) temp) (append_assoc l (newline ∷ []) rest)
      ∙ replay-last fuel k temp l rest hl (omega (arith, length-append l (newline ∷ []))),
)
replay-lines (suc fuel) k temp l (m ∷ ls) rest hl hls small h =
    let tail = text_of (m ∷ ls) in
    let head = temp ++ (l ++ (newline ∷ [])) in
    let (f, left, runs) =
      replay-lines fuel k head m ls rest hls.0 hls.1
        (omega (
          arith,
          length-append temp (l ++ (newline ∷ [])),
          length-append l (newline ∷ []),
          length-append l (newline ∷ tail),
        ))
        (omega (
          arith,
          length-append (l ++ (newline ∷ tail)) rest,
          length-append l (newline ∷ tail),
          length-append tail rest,
        )) in
    (
      f,
      left,
      ap (replay (suc fuel) k (pos (suc (suc (length ls)))) temp)
            (append_assoc l (newline ∷ tail) rest)
          ∙ replay-line fuel k temp l (tail ++ rest) hl
              (omega (arith, length-append l (newline ∷ tail))) (length ls)
          ∙ runs
          ∙ ap (λ r. replay f k (pos k) [] rest >>= λ more. ok (r ∷ more))
              (append_assoc temp (l ++ (newline ∷ [])) tail
                ∙ ap (λ r. temp ++ r) (append_assoc l (newline ∷ []) tail)),
    )
