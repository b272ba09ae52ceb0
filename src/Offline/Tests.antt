-- ===== src/Offline/Tests.antt =====
-- The file of unsent data on concrete inputs.
use monitor_system.Base.{
  ◌≡◌, ◌++◌, pos, refl, [], ◌∷◌, none, some, arith, ok, stop, null_pointer, codes, true, replicate,
  ◌>>=◌,
}
use monitor_system.Offline.{replay, do_with_file}
use monitor_system.Offline.Incomplete.{incomplete_record_lost}
use monitor_system.Offline.Lines.{text_of}
use monitor_system.Offline.Resend.{Lines, resent, texts, persist_all, persisted_records_resent}

-- `{`, a field, `}`.
abbrev short : Lines
short = (codes "{", codes "a: 1" ∷ codes "}" ∷ [])

abbrev other : Lines
other = (codes "{", codes "b: 2" ∷ codes "}" ∷ [])

persisted_records_resent_example :
    (persist_all none (short ∷ other ∷ []) >>= do_with_file (120 ∷ replicate 499 0) true 3)
    ≡ ok ((120 ∷ resent short) ∷ resent other ∷ [], some [])
persisted_records_resent_example =
    persisted_records_resent none 3 (120 ∷ replicate 499 0) (120 ∷ []) short (other ∷ []) tt refl
      (omega arith) (omega arith)

-- Without a file of unsent data the replay follows a null `FILE *`.
missing_file : do_with_file (replicate 500 0) true 7 none ≡ stop null_pointer
unfolding do_with_file
missing_file = refl

-- Two records of three lines, and two lines of a third one.
incomplete_record_lost_example :
    (replay 100 3 (pos 3) [] (texts (short ∷ other ∷ []) ++ text_of (codes "{" ∷ codes "c: 3" ∷ []))
      ≡ ok (resent short ∷ resent other ∷ []))
    × (do_with_file
          (replicate 500 0)
          true
          3
          (some (texts (short ∷ other ∷ []) ++ text_of (codes "{" ∷ codes "c: 3" ∷ [])))
        ≡ ok (resent short ∷ resent other ∷ [], some []))
incomplete_record_lost_example =
    incomplete_record_lost 100 2 (replicate 500 0) (short ∷ other ∷ [])
      (codes "{" ∷ codes "c: 3" ∷ []) refl (omega arith) (omega arith) (omega arith) (omega arith)
      (omega arith)
