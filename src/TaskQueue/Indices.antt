-- ===== src/TaskQueue/Indices.antt =====
-- The indices that a ring buffer goes through.
use mathlib.Core.Path.{subst}
use monitor_system.Base.{
  ℕ, zero, suc, ◌+◌, ◌-◌, ◌%◌, ◌<◌, ◌≤◌, ◌≡◌, ◌∙◌, ap, ◌≢◌, List, [], ◌∷◌, ◌++◌, arith, All,
  mod_once, map, get_elem?, set, get_elem?-set_ne, refl, sym,
}

-- The `n` indices from `h` on, round an array of `size` cells.
abbrev pub run_of : ℕ → ℕ → ℕ → List ℕ
run_of size h zero = []
run_of size h (suc n) = h ∷ run_of size ((h + 1) % size) n

module _ (size : ℕ) where
  pub run_of-snoc :
      (h n : ℕ)
      → h < size
      → n < size
      → run_of size h (suc n) ≡ run_of size h n ++ (((h + n) % size) ∷ [])
  run_of-snoc h zero hh hn = ap (λ i. i ∷ []) (ground (arith, mod_once (h + 0) size))
  run_of-snoc h (suc n) hh hn =
      ap (λ is. h ∷ is)
        (run_of-snoc ((h + 1) % size) n (omega arith) (omega arith)
          ∙ ap (λ i. run_of size ((h + 1) % size) n ++ (i ∷ []))
              (ground (
                arith,
                mod_once (h + 1) size,
                mod_once ((h + 1) % size + n) size,
                mod_once (h + suc n) size,
              )))

  -- A run of indices does not reach the index `d` steps on, if it is no longer than that.
  pub run_of_avoids :
      (h n d : ℕ) → h < size → n ≤ d → d < size → All (λ i. i ≢ (h + d) % size) (run_of size h n)
  run_of_avoids h zero d hh hn hd = tt
  run_of_avoids h (suc n) d hh hn hd = (
    ground (arith, mod_once (h + d) size),
    subst (λ j. All (λ i. i ≢ j) (run_of size ((h + 1) % size) n)) shift
        (run_of_avoids ((h + 1) % size) n (d - 1) (omega arith) (omega arith) (omega arith)),
  )
    where
      shift : ((h + 1) % size + (d - 1)) % size ≡ (h + d) % size
      shift = ground (
        arith,
        mod_once (h + 1) size,
        mod_once ((h + 1) % size + (d - 1)) size,
        mod_once (h + d) size,
      )

module _ {ℓ} {A : Type ℓ} where
  -- A write elsewhere leaves what a run of indices reads.
  pub map-set_avoided :
      (xs : List A) (j : ℕ) (v : A) (is : List ℕ)
      → All (λ i. i ≢ j) is
      → map (get_elem? (set xs j v)) is ≡ map (get_elem? xs) is
  map-set_avoided xs j v [] h = refl
  map-set_avoided xs j v (i ∷ is) h =
      cc (get_elem?-set_ne xs j i v (λ e. h.0 (sym e)), map-set_avoided xs j v is h.1)
