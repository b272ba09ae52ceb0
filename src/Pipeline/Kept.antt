-- ===== src/Pipeline/Kept.antt =====
-- Lines that the client cannot send, up to the file of their kind.
use mathlib.Core.Path.{subst}
use monitor_system.Base.{
  ℕ, suc, Bool, Bool-cases, inl, inr, if◌then◌else◌, ◌≡◌, refl, sym, ap, ◌∙◌, true, false, List, [],
  ◌∷◌, some, arith, All, Pairwise, length, ok, ◌>>=◌, IsText, c_str-IsText,
}
use monitor_system.Message.{Msg}
use monitor_system.Json.{Cjson, IsLawful}
use monitor_system.Json.Layout.{IsLaidOut, field_number}
use monitor_system.Offline.{DataFile, persist}
use monitor_system.Offline.Lines.{join, join-newline}
use monitor_system.Offline.Lines as Text
use monitor_system.Offline.Resend.{Lines, written, persist_all}
use monitor_system.Reconnect.{mem_lines, cpu_lines, disk_lines, sys_lines}
use monitor_system.Encode.{Kind, names}
use monitor_system.Encode.Object.{record_of, fields_of}
use monitor_system.Encode.Deliver.{
  Sender, Calls, file_of, put_file, note_failure, send_data_to_server,
}
use monitor_system.Encode.Effects.{send_rounds}
use monitor_system.Pipeline.Lookups.{words-All, record_of-TextFields}
use monitor_system.Pipeline.Stored.{IsLine, client_keeps}
use monitor_system.Pipeline.Batch.{Line, IsStorable, printed}

-- The number of lines that `relogin` gives to `do_with_file` for a kind.
abbrev pub msg_lines : Kind → ℕ
msg_lines Kind.mem = mem_lines
msg_lines Kind.cpu = cpu_lines
msg_lines Kind.disk = disk_lines
msg_lines Kind.sys = sys_lines

-- It is a line for each brace, for the time and for each name.
msg_lines-names : (k : Kind) → msg_lines k ≡ suc (suc (suc (length (names k))))
msg_lines-names Kind.mem = refl
msg_lines-names Kind.cpu = refl
msg_lines-names Kind.disk = refl
msg_lines-names Kind.sys = refl

-- A round of the sending thread in which it receives a message with this line and cannot send, but can
-- write the file.
pub record Loses (l : Line) (r : List ℕ × Calls) : Type 0 where
  pub message : Msg
  pub received : r.1.received ≡ some message
  pub lost : r.1.sent ≡ false
  pub opened : r.1.opened ≡ true
  pub written : r.1.written ≡ true
  pub array : length r.0 ≡ 500
  pub line : IsLine l.kind message l.day l.hour l.rest

-- The lines that the text of a line's object consists of.
pub record Layout (json : Cjson) (l : Line) (r : Lines) : Type 0 where
  pub text : printed json l ≡ written r
  pub first : Text.IsLine r.0
  pub others : All Text.IsLine r.1
  pub number : suc (length r.1) ≡ msg_lines l.kind
  pub words : All IsText (l.day ∷ l.hour ∷ l.rest)

field_number-fields_of :
    (ns ws : List (List ℕ)) → length ws ≡ length ns → field_number (fields_of ns ws) ≡ length ns
field_number-fields_of [] ws e = refl
field_number-fields_of (n ∷ ns) [] e = absurd (omega (arith, e))
field_number-fields_of (n ∷ ns) (w ∷ ws) e =
    ap suc (field_number-fields_of ns ws (omega (arith, e)))

layout :
    (json : Cjson) (l : Line)
    → IsLaidOut json
    → All IsText (l.day ∷ l.hour ∷ l.rest)
    → length l.rest ≡ length (names l.kind)
    → (r : Lines) × Layout json l r
layout json l laid words complete =
    let (first, others, text, a, b, number) =
      laid.print_lines (record_of l.kind l.day l.hour l.rest)
        (record_of-TextFields l.kind l.day l.hour l.rest words) in
    let fields = field_number-fields_of (names l.kind) l.rest complete in
    (
      (first, others),
      record {
        text = text;
        first = a;
        others = b;
        number = omega (arith, number, fields, msg_lines-names l.kind);
        words = words;
      },
    )

file_of-note_failure :
    (k : Kind) (f : DataFile) (s : Sender)
    → (file_of k (note_failure k (record s { files = put_file k f s.files })).files ≡ f)
      × ((note_failure k (record s { files = put_file k f s.files })).tcp ≡ s.tcp)
unfolding note_failure
file_of-note_failure Kind.mem f s = (refl, refl)
file_of-note_failure Kind.cpu f s = (refl, refl)
file_of-note_failure Kind.disk f s = (refl, refl)
file_of-note_failure Kind.sys f s = (refl, refl)

abbrev pub same_kind : Kind → Kind → Bool
same_kind Kind.mem Kind.mem = true
same_kind Kind.cpu Kind.cpu = true
same_kind Kind.disk Kind.disk = true
same_kind Kind.sys Kind.sys = true
same_kind j k = false

pub same_kind-eq : (j k : Kind) → same_kind j k ≡ true → k ≡ j
same_kind-eq Kind.mem Kind.mem e = refl
same_kind-eq Kind.cpu Kind.cpu e = refl
same_kind-eq Kind.disk Kind.disk e = refl
same_kind-eq Kind.sys Kind.sys e = refl
same_kind-eq _ _ e = absurd (cc e)

-- The lines of one kind, in order.
abbrev pub of_kind : Kind → List Line → List Line
of_kind k [] = []
of_kind k (l ∷ ls) = let rest = of_kind k ls in if same_kind k l.kind then l ∷ rest else rest

file_of-other :
    (j k : Kind) (f : DataFile) (s : Sender)
    → same_kind j k ≡ false
    → file_of j (note_failure k (record s { files = put_file k f s.files })).files
      ≡ file_of j s.files
unfolding note_failure
file_of-other Kind.mem Kind.mem f s e = absurd (cc e)
file_of-other Kind.cpu Kind.cpu f s e = absurd (cc e)
file_of-other Kind.disk Kind.disk f s e = absurd (cc e)
file_of-other Kind.sys Kind.sys f s e = absurd (cc e)
file_of-other _ _ f s e = refl

module _ (json : Cjson) (law : IsLawful json) (laid : IsLaidOut json) where
  -- One round: the text is in the file of its kind, the other files are as they were, and nothing was
  -- sent.
  lost_round :
      (l : Line) (r : List ℕ × Calls) (s : Sender)
      → IsStorable json l
      → Loses l r
      → (t : Sender) × (send_data_to_server json r.0 r.1 s ≡ ok t)
        × (t.tcp ≡ s.tcp)
        × (persist true true (file_of l.kind s.files) (printed json l)
            ≡ ok (file_of l.kind t.files))
        × ((j : Kind) → same_kind j l.kind ≡ false → file_of j t.files ≡ file_of j s.files)
        × All IsText (l.day ∷ l.hour ∷ l.rest)
  lost_round l r s good lose =
      let (f, kept, runs) =
        client_keeps json law l.kind l.day l.hour l.rest lose.message r.0 r.1 s lose.line
          lose.received lose.lost lose.opened lose.written good.calm
          (omega (arith, good.small, lose.array)) in
      let (file, tcp) = file_of-note_failure l.kind f s in
      (
        note_failure l.kind (record s { files = put_file l.kind f s.files }),
        runs,
        tcp,
        kept ∙ ap ok (sym file),
        (λ j other. file_of-other j l.kind f s other),
        subst (All IsText) lose.line.split (
            words-All lose.line.text
              (c_str-IsText lose.message.buff lose.line.text lose.line.read)),
      )

  -- What the file of each kind holds after rounds with these lines.
  abbrev pub Held : List Line → Sender → Sender → Type 0
  Held ls s t =
      (k : Kind)
      → (recs : List Lines) × (persist_all (file_of k s.files) recs ≡ ok (file_of k t.files))
        × Pairwise (Layout json) (of_kind k ls) recs

  -- The file of one kind after one more round in front.
  Held-first :
      (l : Line) (ls : List Line) (s u t : Sender) (k : Kind)
      → persist true true (file_of l.kind s.files) (printed json l) ≡ ok (file_of l.kind u.files)
      → ((j : Kind) → same_kind j l.kind ≡ false → file_of j u.files ≡ file_of j s.files)
      → (r : Lines) → Layout json l r
      → Held ls u t
      → (recs : List Lines) × (persist_all (file_of k s.files) recs ≡ ok (file_of k t.files))
        × Pairwise (Layout json) (of_kind k (l ∷ ls)) recs
  unfolding persist_all
  Held-first l ls s u t k kept others r laid_out held =
      let (recs, file, layouts) = held k in
      elim (Bool-cases (same_kind k l.kind)) [
        | inl same ↦
            let here =
              subst
                (λ x.
                  persist true true (file_of x s.files) (printed json l) ≡ ok (file_of x u.files))
                (same_kind-eq k l.kind same) kept in
            (
              r ∷ recs,
              ap (λ x. persist true true (file_of k s.files) x >>= λ grown. persist_all grown recs)
                    (sym laid_out.text)
                  ∙ ap (λ x. x >>= λ grown. persist_all grown recs) here
                  ∙ file,
              rw same (laid_out, layouts),
            )
        | inr other ↦
            (recs, ap (λ x. persist_all x recs) (sym (others k other)) ∙ file, rw other layouts)
      ]

  -- Rounds that lose lines of any kinds.
  pub lost_rounds :
      (ls : List Line) (rs : List (List ℕ × Calls)) (s : Sender)
      → All (IsStorable json) ls
      → Pairwise Loses ls rs
      → (t : Sender) × (send_rounds json rs s ≡ ok t) × (t.tcp ≡ s.tcp) × Held ls s t
  unfolding send_rounds persist_all
  lost_rounds [] [] s good p = (s, refl, refl, (λ k. ([], refl, tt)))
  lost_rounds [] (r ∷ rs) s good p = absurd p
  lost_rounds (l ∷ ls) [] s good p = absurd p
  lost_rounds (l ∷ ls) ((old, calls) ∷ rs) s (one, good) (lose, p) =
      let (u, runs, tcp, kept, others, words) = lost_round l (old, calls) s one lose in
      let (r, laid_out) = layout json l laid words one.complete in
      let (t, more, more_tcp, held) = lost_rounds ls rs u good p in
      (
        t,
        ap (λ x. x >>= λ v. send_rounds json rs v) runs ∙ more,
        more_tcp ∙ tcp,
        (λ k. Held-first l ls s u t k kept others r laid_out held),
      )
