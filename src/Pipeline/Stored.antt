-- ===== src/Pipeline/Stored.antt =====
-- What the server stores of a line that the client sends.
use monitor_system.Base.{
  none, ℕ, ◌<◌, ◌≡◌, refl, sym, ap, ◌∙◌, true, false, List, [], ◌∷◌, ◌++◌, some, arith, All, ◌==◌,
  ltb, if◌then◌else◌, length, codes, ok, stop, out_of_bounds, IsText, c_str, c_str-IsText,
  c_str-write_str,
}
use mathlib.Core.Path.{subst}
use monitor_system.Message.{Msg}
use monitor_system.Json.{Cjson, IsLawful, build}
use monitor_system.Storing.{table_of, sql_size, deal_with_monitor_msg}
use monitor_system.Storing.Query.{HasRow, insert_row, stored_row}
use monitor_system.Encode.{Kind, type_of, kind_of, names, is_urgent}
use monitor_system.Encode.Words.{words, fields}
use monitor_system.Encode.Object.{two_words, record_of, object_of-words}
use monitor_system.Encode.Deliver.{
  Sender, Calls, file_of, put_file, note_failure, deliver, send_record, branch, on_received,
  send_data_to_server,
}
use monitor_system.Offline.{DataFile, persist}
use monitor_system.Pipeline.{table}
use monitor_system.Pipeline.Lookups.{
  words-All, Lookups-record_of, Lookups-HasRow, record_of-TextFields,
}

-- A line for a branch of the client: a day and an hour, and a word for each name.
pub record IsLine (k : Kind) (m : Msg) (d h : List ℕ) (ws : List (List ℕ)) : Type 0 where
  pub kind : kind_of m.type ≡ some k
  pub text : List ℕ
  pub read : c_str m.buff ≡ ok text
  pub split : words text ≡ d ∷ h ∷ ws
  pub complete : length ws ≡ length (names k)
  pub short_time : length (two_words d h) < 30

table_of-type_of : (k : Kind) → table_of (type_of k) ≡ some (table k)
unfolding table_of
table_of-type_of Kind.mem = refl
table_of-type_of Kind.cpu = refl
table_of-type_of Kind.disk = refl
table_of-type_of Kind.sys = refl

-- The server asks for the members in the order in which the client adds them.
columns-names : (k : Kind) → (table k).columns ≡ codes "now_time" ∷ names k
columns-names Kind.mem = refl
columns-names Kind.cpu = refl
columns-names Kind.disk = refl
columns-names Kind.sys = refl

pub words_nonempty :
    (s w : List ℕ) (ws : List (List ℕ)) → words s ≡ w ∷ ws → (length s == 0) ≡ false
unfolding fields
words_nonempty [] w ws h = absurd (cc h)
words_nonempty (b ∷ s) w ws h = ground arith

persist-runs :
    (file : DataFile) (str : List ℕ) → (f : DataFile) × (persist true true file str ≡ ok f)
unfolding persist
persist-runs none str = (_, refl)
persist-runs (some old) str = (_, refl)

module _ (json : Cjson) (law : IsLawful json) (k : Kind) (d h : List ℕ) (ws : List (List ℕ)) where
  -- What the server makes of a message whose text parses as the printed object.
  pub server_stores_text :
      (msg : Msg) (text : List ℕ)
      → All IsText (d ∷ h ∷ ws)
      → length ws ≡ length (names k)
      → msg.type ≡ type_of k
      → c_str msg.buff ≡ ok text
      → json.parse text ≡ json.parse (json.print (build json (record_of k d h ws)))
      → deal_with_monitor_msg json msg ≡ (
          if ltb (length (insert_row (table k) (two_words d h ∷ ws))) sql_size
          then ok (some (insert_row (table k) (two_words d h ∷ ws)))
          else stop out_of_bounds)
  server_stores_text msg text texts complete kind read parses =
      let (o, parsed, found) =
        law.parse_print (record_of k d h ws) (record_of-TextFields k d h ws texts) in
      let lookups = Lookups-record_of k d h ws complete in
      let row =
        Lookups-HasRow json o (record_of k d h ws) (codes "now_time" ∷ names k) (two_words d h ∷ ws)
          found lookups in
      stored_row json msg (table k) text (two_words d h ∷ ws)
        (ap table_of kind ∙ table_of-type_of k) read
        (subst (λ p. HasRow json p (table k).columns (two_words d h ∷ ws)) (sym (parses ∙ parsed))
          (subst (λ cs. HasRow json (some o) cs (two_words d h ∷ ws)) (sym (columns-names k)) row))

  -- What the server makes of a message with the printed object.
  pub server_stores :
      (msg : Msg)
      → All IsText (d ∷ h ∷ ws)
      → length ws ≡ length (names k)
      → msg.type ≡ type_of k
      → c_str msg.buff ≡ ok (json.print (build json (record_of k d h ws)))
      → deal_with_monitor_msg json msg ≡ (
          if ltb (length (insert_row (table k) (two_words d h ∷ ws))) sql_size
          then ok (some (insert_row (table k) (two_words d h ∷ ws)))
          else stop out_of_bounds)
  server_stores msg texts complete kind read =
      server_stores_text msg (json.print (build json (record_of k d h ws))) texts complete kind read
        refl

  -- The client's round, if its message is not urgent and the server's socket takes it.
  pub client_sends :
      (m : Msg) (old : List ℕ) (calls : Calls) (s : Sender)
      → IsLine k m d h ws
      → calls.received ≡ some m
      → calls.sent ≡ true
      → is_urgent json k (build json (record_of k d h ws)) ≡ ok false
      → length (json.print (build json (record_of k d h ws))) < length old
      → (msg : Msg) × (send_data_to_server json old calls s
          ≡ ok (record s { tcp = s.tcp ++ (msg ∷ []) }))
        × (msg.type ≡ type_of k)
        × (c_str msg.buff ≡ ok (json.print (build json (record_of k d h ws))))
  unfolding send_data_to_server send_record deliver
  client_sends m old calls s line got sent calm small =
      let texts = record_of-TextFields k d h ws (
        subst (All IsText) line.split
          (words-All line.text (c_str-IsText m.buff line.text line.read))) in
      let (filled, wrote, held, size) =
        c_str-write_str old (json.print (build json (record_of k d h ws)))
          (law.print_text (record_of k d h ws) texts) small in
      let built = object_of-words json k line.text d h ws line.split line.short_time in
      let some_text = words_nonempty line.text d (h ∷ ws) line.split in
      (
        record { type = type_of k; buff = filled },
        ap (λ r. on_received json r old calls s) got
            ∙ ap (λ c. branch json c old calls m.buff s) line.kind
            ∙ simp (line.read, some_text, built, wrote, calm, sent),
        refl,
        held,
      )

  -- With a lawful cJSON, a line of a day and an hour of fewer than 30 bytes together and a word for
  -- each name of its kind, which is not urgent and whose object fits the message, is sent to the server
  -- where its socket takes it, and the server makes of the client's message the statement that stores
  -- these words in the columns of its table, in their order. If that takes 500 bytes or more, the
  -- server writes outside its array instead.
  pub line_stored :
      (m : Msg) (old : List ℕ) (calls : Calls) (s : Sender)
      → IsLine k m d h ws
      → calls.received ≡ some m
      → calls.sent ≡ true
      → is_urgent json k (build json (record_of k d h ws)) ≡ ok false
      → length (json.print (build json (record_of k d h ws))) < length old
      → (msg : Msg) × (send_data_to_server json old calls s
          ≡ ok (record s { tcp = s.tcp ++ (msg ∷ []) }))
        × (deal_with_monitor_msg json msg ≡ (
            if ltb (length (insert_row (table k) (two_words d h ∷ ws))) sql_size
            then ok (some (insert_row (table k) (two_words d h ∷ ws)))
            else stop out_of_bounds))
  line_stored m old calls s line got sent calm small =
      let texts =
        subst (All IsText) line.split
          (words-All line.text (c_str-IsText m.buff line.text line.read)) in
      let (msg, runs, kind, read) = client_sends m old calls s line got sent calm small in
      (msg, runs, server_stores msg texts line.complete kind read)

  -- The client's round, if its message is not urgent, the socket does not take it, and the file of its
  -- kind can be written.
  pub client_keeps :
      (m : Msg) (old : List ℕ) (calls : Calls) (s : Sender)
      → IsLine k m d h ws
      → calls.received ≡ some m
      → calls.sent ≡ false
      → calls.opened ≡ true
      → calls.written ≡ true
      → is_urgent json k (build json (record_of k d h ws)) ≡ ok false
      → length (json.print (build json (record_of k d h ws))) < length old
      → (f : DataFile) × (persist true true
            (file_of k s.files)
            (json.print (build json (record_of k d h ws)))
          ≡ ok f)
        × (send_data_to_server json old calls s
            ≡ ok (note_failure k (record s { files = put_file k f s.files })))
  unfolding send_data_to_server send_record deliver
  client_keeps m old calls s line got lost opened written calm small =
      let texts = record_of-TextFields k d h ws (
        subst (All IsText) line.split
          (words-All line.text (c_str-IsText m.buff line.text line.read))) in
      let str = json.print (build json (record_of k d h ws)) in
      let (filled, wrote, held, size) =
        c_str-write_str old str (law.print_text (record_of k d h ws) texts) small in
      let built = object_of-words json k line.text d h ws line.split line.short_time in
      let some_text = words_nonempty line.text d (h ∷ ws) line.split in
      let (f, kept) = persist-runs (file_of k s.files) str in
      (
        f,
        kept,
        ap (λ r. on_received json r old calls s) got
            ∙ ap (λ c. branch json c old calls m.buff s) line.kind
            ∙ simp (line.read, some_text, built, wrote, calm, lost, opened, written, kept),
      )
