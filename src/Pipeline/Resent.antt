-- ===== src/Pipeline/Resent.antt =====
-- The lines that the client could not send: they are sent from the file of their kind after the next
-- login, and stored by the server then.
use mathlib.Core.Path.{subst}
use monitor_system.Base.{
  ℕ, zero, suc, inl, inr, ◌⊎◌, ◌-◌, ◌<◌, ◌≡◌, refl, sym, ap, ◌∙◌, true, List, [], ◌∷◌, ◌++◌, map,
  some, arith, All, Pairwise, length-Pairwise, length, length-append, take_all, replicate, ltb, ok,
  ◌>>=◌, IsText, c_str, c_str-text,
}
use monitor_system.Json.{Cjson, IsLawful}
use monitor_system.Json.Layout.{IsLaidOut}
use monitor_system.Offline.{DataFile, newline, do_with_file, resent_msg}
use monitor_system.Offline.Lines.{join-newline}
use monitor_system.Offline.Resend.{
  Lines, resent, Fits, persist_all, IsEmptyFile, persisted_records_resent,
}
use monitor_system.Storing.{sql_size, deal_with_monitor_msg}
use monitor_system.Storing.Turns.{deal_with_all}
use monitor_system.Encode.{Kind, type_of}
use monitor_system.Encode.Object.{record_of}
use monitor_system.Encode.Deliver.{Sender, Calls, file_of}
use monitor_system.Encode.Effects.{send_rounds}
use monitor_system.Pipeline.Lookups.{record_of-TextFields}
use monitor_system.Pipeline.Stored.{server_stores_text}
use monitor_system.Pipeline.Batch.{Line, IsStorable, row, printed}
use monitor_system.Pipeline.Kept.{msg_lines, Loses, Layout, same_kind, of_kind, lost_rounds}

c_str-resent_msg :
    (type : ℕ) (t : List ℕ) → IsText t → length t < 500 → c_str (resent_msg type t).buff ≡ ok t
unfolding resent_msg
c_str-resent_msg type t h lt =
    rw (take_all 500 t (omega arith)) (pad (500 - length t) (omega arith))
  where
    pad : (n : ℕ) → 0 < n → c_str (t ++ replicate n 0) ≡ ok t
    pad zero p = absurd (omega arith)
    pad (suc n) p = c_str-text t (replicate n 0) h

IsText-newline : (t : List ℕ) → IsText t → IsText (t ++ (newline ∷ []))
IsText-newline [] h = ((λ e. omega arith), tt)
IsText-newline (b ∷ t) h = (h.0, IsText-newline t h.1)

nothing_persisted : (file : DataFile) → file ≡ some [] → persist_all file [] ≡ ok (some [])
unfolding persist_all
nothing_persisted file empty = ap ok empty

nothing_replayed : (temp : List ℕ) (n : ℕ) → do_with_file temp true n (some []) ≡ ok ([], some [])
unfolding do_with_file
nothing_replayed temp n = refl

length-map : (f : Lines → List ℕ) (rs : List Lines) → length (map f rs) ≡ length rs
length-map f [] = refl
length-map f (r ∷ rs) = ap suc (length-map f rs)

same_kind_refl : (k : Kind) → same_kind k k ≡ true
same_kind_refl Kind.mem = refl
same_kind_refl Kind.cpu = refl
same_kind_refl Kind.disk = refl
same_kind_refl Kind.sys = refl

of_kind-all : (k : Kind) (ls : List Line) → All (λ l. l.kind ≡ k) ls → of_kind k ls ≡ ls
of_kind-all k [] h = refl
of_kind-all k (l ∷ ls) (e, h) =
    let same : same_kind k l.kind ≡ true = ap (same_kind k) e ∙ same_kind_refl k in
    rw same (ap (λ r. l ∷ r) (of_kind-all k ls h))

-- A file that holds nothing, and that is there or will be once these lines are in it.
abbrev pub CanReplay : DataFile → List Line → Type 0
CanReplay file ls = (file ≡ some []) ⊎ (IsEmptyFile file × (0 < length ls))

CanReplay-IsEmptyFile : (file : DataFile) (ls : List Line) → CanReplay file ls → IsEmptyFile file
CanReplay-IsEmptyFile file ls (inl empty) = subst IsEmptyFile (sym empty) tt
CanReplay-IsEmptyFile file ls (inr (empty, some_line)) = empty

module _ (json : Cjson) (law : IsLawful json) (laid : IsLaidOut json) (k : Kind) where
  -- A printed text with a newline behind it, as it is sent from the file.
  resent_text :
      (l : Line) (r : Lines) → Layout json l r → resent r ≡ printed json l ++ (newline ∷ [])
  resent_text l r h = sym (join-newline r.0 r.1) ∙ ap (λ t. t ++ (newline ∷ [])) (sym h.text)

  length-resent :
      (l : Line) (r : Lines)
      → Layout json l r
      → length (printed json l) < 499
      → length (resent r) < 500
  length-resent l r h short =
      omega
        (arith, short, ap length (resent_text l r h), length-append (printed json l) (newline ∷ []))

  layouts-Fits :
      (ls : List Line) (recs : List Lines)
      → All (λ l. l.kind ≡ k) ls
      → All (λ l. length (printed json l) < 499) ls
      → Pairwise (Layout json) ls recs
      → All (Fits (msg_lines k)) recs
  layouts-Fits [] [] kinds short p = tt
  layouts-Fits [] (r ∷ rs) kinds short p = absurd p
  layouts-Fits (l ∷ ls) [] kinds short p = absurd p
  layouts-Fits (l ∷ ls) (r ∷ rs) (kind, kinds) (fits, short) (h, p) = (
    (h.first, h.others, h.number ∙ ap msg_lines kind, length-resent l r h fits),
    layouts-Fits ls rs kinds short p,
  )

  server_stores_resent :
      (l : Line) (r : Lines)
      → l.kind ≡ k
      → IsStorable json l
      → length (printed json l) < 499
      → Layout json l r
      → deal_with_monitor_msg json (resent_msg (type_of k) (resent r)) ≡ ok (some (row l))
  server_stores_resent l r kind good short h =
      let fields = record_of l.kind l.day l.hour l.rest in
      let texts = record_of-TextFields l.kind l.day l.hour l.rest h.words in
      let text =
        subst IsText (sym (resent_text l r h))
          (IsText-newline (printed json l) (law.print_text fields texts)) in
      let parses = ap json.parse (resent_text l r h) ∙ laid.parse_rest fields texts in
      let stored =
        server_stores_text json law l.kind l.day l.hour l.rest (resent_msg (type_of k) (resent r))
          (resent r) h.words good.complete (resent-type (resent r) ∙ ap type_of (sym kind))
          (c_str-resent_msg (type_of k) (resent r) text (length-resent l r h short)) parses in
      let fits : ltb (length (row l)) sql_size ≡ true = ground (arith, good.fits) in
      rw fits at stored
    where
      resent-type : (t : List ℕ) → (resent_msg (type_of k) t).type ≡ type_of k
      resent-type t = unfold resent_msg in refl

  resent_dealt :
      (ls : List Line) (recs : List Lines)
      → All (λ l. l.kind ≡ k) ls
      → All (IsStorable json) ls
      → All (λ l. length (printed json l) < 499) ls
      → Pairwise (Layout json) ls recs
      → deal_with_all json (map (resent_msg (type_of k)) (map resent recs))
        ≡ ok (map (λ l. some (row l)) ls)
  resent_dealt [] [] kinds good short p = refl
  resent_dealt [] (r ∷ rs) kinds good short p = absurd p
  resent_dealt (l ∷ ls) [] kinds good short p = absurd p
  resent_dealt (l ∷ ls) (r ∷ rs) (kind, kinds) (one, good) (fits, short) (h, p) =
      ap
        (λ x. x >>= λ sql.
          deal_with_all json (map (resent_msg (type_of k)) (map resent rs)) >>= λ more.
          ok (sql ∷ more))
        (server_stores_resent l r kind one fits h)
      ∙ ap (λ x. x >>= λ more. ok (some (row l) ∷ more)) (resent_dealt ls rs kinds good short p)

  -- What `do_with_file` makes of the file.
  replayed :
      (file kept : DataFile) (temp : List ℕ) (r : Lines) (recs : List Lines)
      → IsEmptyFile file
      → c_str temp ≡ ok []
      → All (Fits (msg_lines k)) (r ∷ recs)
      → persist_all file (r ∷ recs) ≡ ok kept
      → do_with_file temp true (msg_lines k) kept ≡ ok (map resent (r ∷ recs), some [])
  replayed file kept temp r recs empty clean fits e =
      ap (λ x. x >>= do_with_file temp true (msg_lines k)) (sym e)
      ∙ persisted_records_resent file (msg_lines k) temp [] r recs empty clean fits
          (omega (arith, fits.0.3))

  -- The file of the kind after any rounds: what is sent from it, and what the server makes of that.
  pub file_stored :
      (ls : List Line) (recs : List Lines) (file kept : DataFile) (temp : List ℕ)
      → CanReplay file ls
      → c_str temp ≡ ok []
      → All (λ l. l.kind ≡ k) ls
      → All (IsStorable json) ls
      → All (λ l. length (printed json l) < 499) ls
      → Pairwise (Layout json) ls recs
      → persist_all file recs ≡ ok kept
      → (texts : List (List ℕ)) × (do_with_file temp true (msg_lines k) kept ≡ ok (texts, some []))
        × (length texts ≡ length ls)
        × (deal_with_all json (map (resent_msg (type_of k)) texts)
            ≡ ok (map (λ l. some (row l)) ls))
  file_stored [] [] file kept temp (inl empty) clean kinds good short p e = (
    [],
    ap (λ x. x >>= do_with_file temp true (msg_lines k)) (sym e ∙ nothing_persisted file empty)
        ∙ nothing_replayed temp (msg_lines k),
    refl,
    refl,
  )
  file_stored [] [] file kept temp (inr (empty, some_line)) clean kinds good short p e =
      absurd (omega (arith, some_line))
  file_stored [] (r ∷ recs) file kept temp ready clean kinds good short p e = absurd p
  file_stored (l ∷ ls) [] file kept temp ready clean kinds good short p e = absurd p
  file_stored (l ∷ ls) (r ∷ recs) file kept temp ready clean kinds good short p e = (
    map resent (r ∷ recs),
    replayed file kept temp r recs (CanReplay-IsEmptyFile file (l ∷ ls) ready) clean
        (layouts-Fits (l ∷ ls) (r ∷ recs) kinds short p) e,
    length-map resent (r ∷ recs) ∙ sym (length-Pairwise (Layout json) (l ∷ ls) (r ∷ recs) p),
    resent_dealt (l ∷ ls) (r ∷ recs) kinds good short p,
  )

  -- With a lawful cJSON that prints a line for each brace and field and parses a text with a newline
  -- behind it as it parses the text, one or more lines of one kind that the sending thread receives,
  -- one in each round, and cannot send are not lost. If each is storable and prints as fewer than 499
  -- bytes, the file of their kind is missing or empty and can be written, and `temp` happens to hold an
  -- empty string, then the rounds go through and send nothing to the server, `do_with_file` takes from
  -- the file as many messages as there are lines and leaves it empty, and the server makes of these
  -- messages the rows of the lines, in order.
  unsent_lines_stored :
      (temp : List ℕ) (ls : List Line) (rs : List (List ℕ × Calls)) (s : Sender)
      → 0 < length ls
      → All (λ l. l.kind ≡ k) ls
      → All (IsStorable json) ls
      → All (λ l. length (printed json l) < 499) ls
      → Pairwise Loses ls rs
      → IsEmptyFile (file_of k s.files)
      → c_str temp ≡ ok []
      → (t : Sender) × (send_rounds json rs s ≡ ok t)
        × (t.tcp ≡ s.tcp)
        × (texts : List (List ℕ)) × (do_with_file temp true (msg_lines k) (file_of k t.files)
            ≡ ok (texts, some []))
        × (deal_with_all json (map (resent_msg (type_of k)) texts)
            ≡ ok (map (λ l. some (row l)) ls))
  unsent_lines_stored temp ls rs s some_line kinds good short loses empty clean =
      let (t, runs, tcp, held) = lost_rounds json law laid ls rs s good loses in
      let (recs, file, of_these) = held k in
      let layouts =
        subst (λ xs. Pairwise (Layout json) xs recs) (of_kind-all k ls kinds) of_these in
      let (texts, taken, number, dealt) =
        file_stored ls recs (file_of k s.files) (file_of k t.files) temp (inr (empty, some_line))
          clean kinds good short layouts file in
      (t, runs, tcp, texts, taken, dealt)
