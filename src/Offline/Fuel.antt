-- ===== src/Offline/Fuel.antt =====
-- The bound on the rounds of `replay`.
use monitor_system.Base.{
  ℕ, zero, suc, ◌≤◌, ◌<◌, ◌≡◌, refl, List, [], ◌∷◌, arith, length, ◌==◌, if◌then◌else◌, ℤ, pos, dec,
  ok, ◌>>=◌, strcat,
}
use monitor_system.Message.{msg_buff_size}
use monitor_system.Offline.{take_line, fgets, until_nul, is_zero, replay}

take_line-shorter : (n : ℕ) (bs : List ℕ) → length (take_line n bs).1 ≤ length bs
unfolding take_line
take_line-shorter zero bs = omega arith
take_line-shorter (suc n) [] = omega arith
take_line-shorter (suc n) (b ∷ bs) = ground (arith, take_line-shorter n bs)

-- `fgets` reads a byte at least.
line_read : (b : ℕ) (bs : List ℕ) → length (take_line 499 (b ∷ bs)).1 < length (b ∷ bs)
line_read b bs = first 498 b bs
  where
    first : (n b : ℕ) (bs : List ℕ) → length (take_line (suc n) (b ∷ bs)).1 < length (b ∷ bs)
    first n b bs = unfold take_line in ground (arith, take_line-shorter n bs)

fewer : (rest whole f : ℕ) → rest < whole → whole < suc f → rest < f
fewer rest whole f p q = omega arith

-- With a bound above the length of the file, `replay` ends by its own tests: any two such bounds give
-- the same result, whatever the file and the buffer hold.
replay_ends :
    (f g msg_lines : ℕ) (lines : ℤ) (temp file : List ℕ)
    → length file < f
    → length file < g
    → replay f msg_lines lines temp file ≡ replay g msg_lines lines temp file
unfolding replay fgets
replay_ends zero g k lines temp file p q = absurd (omega arith)
replay_ends (suc f) zero k lines temp file p q = absurd (omega arith)
replay_ends (suc f) (suc g) k lines temp [] p q = refl
replay_ends (suc f) (suc g) k lines temp (b ∷ bs) p q =
    let a = (take_line 499 (b ∷ bs)).0 in
    let rest = (take_line 499 (b ∷ bs)).1 in
    let left = fewer (length rest) (length (b ∷ bs)) f (line_read b bs) p in
    let right = fewer (length rest) (length (b ∷ bs)) g (line_read b bs) q in
    let next_record = replay_ends f g k (pos k) [] rest left right in
    let same_record : (filled : List ℕ)
        → replay f k (dec lines) filled rest ≡ replay g k (dec lines) filled rest =
      λ filled. replay_ends f g k (dec lines) filled rest left right in
    λ i. strcat msg_buff_size temp (until_nul a) >>= λ filled.
    if is_zero (dec lines)
    then (if length filled == 0 then ok [] else (next_record i >>= λ more. ok (filled ∷ more)))
    else same_record filled i
