-- ===== src/Encode/Effects.antt =====
-- What a round of `send_data_to_server` does to the client's state.
use mathlib.Core.Path.{subst}
use monitor_system.Base.{
  ℕ, ◌≡◌, ◌≢◌, refl, sym, ap, ◌∙◌, inl, inr, List, [], ◌∷◌, ◌++◌, Option, none, some, Option-cases,
  Bool, true, false, Bool-cases, arith, All, length, ◌==◌, Exec, ok, ◌>>=◌, first_call, c_str,
  write_str,
}
use monitor_system.Message.{Msg}
use monitor_system.Json.{Cjson}
use monitor_system.Offline.{DataFile, persist, newline}
use monitor_system.Encode.{Kind, type_of, kind_of, object_of, is_urgent}
use monitor_system.Encode.Deliver.{
  Sender, Calls, file_of, put_file, note_failure, deliver, send_record, branch, on_received,
  send_data_to_server,
}

-- A file, which may not exist, with a record and a newline behind it.
abbrev pub extended : DataFile → List ℕ → List ℕ
extended none str = str ++ (newline ∷ [])
extended (some old) str = old ++ (str ++ (newline ∷ []))

-- What a round does with the text `str`, where `urgent` is the outcome of the tests for a warning: an
-- urgent text goes out in a message to the server's UDP socket; another one in a message to the server,
-- if `send` takes it, and otherwise into the file of its kind, which can then be opened and written. A
-- failed `send` counts towards a new login only for memory data. `old` is what the array of the message
-- held.
pub data Kept (k : Kind) (urgent : Bool) (calls : Calls) (old str : List ℕ) (s t : Sender)
    : Type 0 where
  by_tcp :
      (msg : Msg)
      → urgent ≡ false
      → calls.sent ≡ true
      → msg.type ≡ type_of k
      → write_str old str ≡ ok msg.buff
      → t ≡ record s { tcp = s.tcp ++ (msg ∷ []) }
      → Kept k urgent calls old str s t
  by_udp :
      (msg : Msg)
      → urgent ≡ true
      → msg.type ≡ type_of k
      → write_str old str ≡ ok msg.buff
      → k ≡ Kind.sys
      → t ≡ record s { udp = s.udp ++ (msg ∷ []) }
      → Kept k urgent calls old str s t
  in_file :
      urgent ≡ false
      → calls.sent ≡ false
      → calls.opened ≡ true
      → calls.written ≡ true
      → t
        ≡ note_failure k
            (record s { files = put_file k (some (extended (file_of k s.files) str)) s.files })
      → Kept k urgent calls old str s t

persist-ok :
    (opened written : Bool) (f g : DataFile) (str : List ℕ)
    → persist opened written f str ≡ ok g
    → (opened ≡ true) × (written ≡ true) × (g ≡ some (extended f str))
unfolding persist
persist-ok false written f g str e = absurd (cc e)
persist-ok true false none g str e = absurd (cc e)
persist-ok true false (some old) g str e = absurd (cc e)
persist-ok true true none g str e = (refl, refl, cc e)
persist-ok true true (some old) g str e = (refl, refl, cc e)

deliver-Kept :
    (k : Kind) (urgent : Bool) (calls : Calls) (msg : Msg) (old str : List ℕ) (s t : Sender)
    → msg.type ≡ type_of k
    → write_str old str ≡ ok msg.buff
    → (urgent ≡ true → k ≡ Kind.sys)
    → deliver k urgent calls msg str s ≡ ok t
    → Kept k urgent calls old str s t
unfolding deliver
deliver-Kept k true calls msg old str s t kind wrote only e =
    by_udp msg refl kind wrote (only refl) (cc e)
deliver-Kept k false calls msg old str s t kind wrote only e = elim (Bool-cases calls.sent) [
  | inl sent ↦ by_tcp msg refl sent kind wrote (ground (arith, e))
  | inr failed ↦
      let after =
        λ (f : DataFile). ok (note_failure k (record s { files = put_file k f s.files })) in
      let run : (persist calls.opened calls.written (file_of k s.files) str >>= after) ≡ ok t =
        ground (arith, e) in
      let (f, kept, rest) =
        first_call (persist calls.opened calls.written (file_of k s.files) str) after run in
      let (opened, written, stored) =
        persist-ok calls.opened calls.written (file_of k s.files) f str kept in
      in_file refl failed opened written (cc (rest, stored))
]

pub is_urgent-sys :
    (json : Cjson) (k : Kind) (o : json.Item) (urgent : Bool)
    → is_urgent json k o ≡ ok urgent
    → urgent ≡ true
    → k ≡ Kind.sys
unfolding is_urgent
is_urgent-sys json Kind.mem o urgent e h = absurd (cc (e, h))
is_urgent-sys json Kind.cpu o urgent e h = absurd (cc (e, h))
is_urgent-sys json Kind.disk o urgent e h = absurd (cc (e, h))
is_urgent-sys json Kind.sys o urgent e h = refl

-- What a round makes of the message `m`: the object of its words is printed and kept, and a message of
-- another type changes nothing.
abbrev pub Round : Cjson → Option Kind → Calls → List ℕ → Msg → Sender → Sender → Type 0
Round json none calls old m s t = t ≡ s
Round json (some k) calls old m s t =
    (text : List ℕ) × (o : json.Item) × (urgent : Bool) × (c_str m.buff ≡ ok text)
    × (object_of json k text ≡ ok o)
    × (is_urgent json k o ≡ ok urgent)
    × Kept k urgent calls old (json.print o) s t

send_record-Kept :
    (json : Cjson) (k : Kind) (old : List ℕ) (calls : Calls) (text : List ℕ) (s t : Sender)
    → send_record json k old calls text s ≡ ok t
    → (o : json.Item) × (urgent : Bool) × (object_of json k text ≡ ok o)
      × (is_urgent json k o ≡ ok urgent)
      × Kept k urgent calls old (json.print o) s t
unfolding send_record
send_record-Kept json k old calls text s t e =
    let (o, built, e1) = first_call (object_of json k text) _ e in
    let (filled, wrote, e2) = first_call (write_str old (json.print o)) _ e1 in
    let (urgent, tested, e3) = first_call (is_urgent json k o) _ e2 in
    (
      o,
      urgent,
      built,
      tested,
      deliver-Kept k urgent calls (record { type = type_of k; buff = filled }) old (json.print o) s
          t refl wrote (is_urgent-sys json k o urgent tested) e3,
    )

branch-Round :
    (json : Cjson) (k : Option Kind) (old : List ℕ) (calls : Calls) (m : Msg) (s t : Sender)
    → branch json k old calls m.buff s ≡ ok t
    → Round json k calls old m s t
branch-Round json none old calls m s t e = cc e
branch-Round json (some k) old calls m s t e =
    let (text, read, e1) = first_call (c_str m.buff) _ e in
    elim (Bool-cases (length text == 0)) [
      | inl empty ↦ absurd (ground (arith, e1))
      | inr some_text ↦
          let (o, urgent, built, tested, kept) =
            send_record-Kept json k old calls text s t (ground (arith, e1)) in
          (text, o, urgent, read, built, tested, kept)
    ]

pub send_data_to_server-Round :
    (json : Cjson) (old : List ℕ) (calls : Calls) (s t : Sender)
    → send_data_to_server json old calls s ≡ ok t
    → (m : Msg) × (calls.received ≡ some m) × Round json (kind_of m.type) calls old m s t
unfolding send_data_to_server
send_data_to_server-Round json old calls s t e = elim (Option-cases calls.received) [
  | inl nothing ↦ absurd (ground (arith, e))
  | inr (m, got) ↦ (
    m,
    got,
    branch-Round json (kind_of m.type) old calls m s t
        (sym (ap (λ r. on_received json r old calls s) got) ∙ e),
  )
]

-- Rounds one after the other.
unfoldable pub send_rounds : Cjson → List (List ℕ × Calls) → Sender → Exec Sender
send_rounds json [] s = ok s
send_rounds json ((old, calls) ∷ rs) s =
    send_data_to_server json old calls s >>= λ t. send_rounds json rs t

-- Not memory data.
abbrev pub NotMem : List ℕ × Calls → Type 0
NotMem r = (m : Msg) → r.1.received ≡ some m → kind_of m.type ≢ some Kind.mem

-- The counter and the signals are the same.
abbrev pub SameCount : Sender → Sender → Type 0
SameCount s t = (t.check_for_relogin ≡ s.check_for_relogin) × (t.signals ≡ s.signals)

SameCount-eq : (s t u : Sender) → SameCount s u → t ≡ u → SameCount s t
SameCount-eq s t u h e = subst (SameCount s) (sym e) h

Kept-counter :
    (k : Kind) (urgent : Bool) (calls : Calls) (old str : List ℕ) (s t : Sender)
    → k ≢ Kind.mem
    → Kept k urgent calls old str s t
    → SameCount s t
unfolding note_failure
Kept-counter k urgent calls old str s t ne (by_tcp msg calm sent type wrote e) =
    SameCount-eq s t _ (refl, refl) e
Kept-counter k urgent calls old str s t ne (by_udp msg warned type wrote is_sys e) =
    SameCount-eq s t _ (refl, refl) e
Kept-counter Kind.mem urgent calls old str s t ne (in_file calm failed opened written e) =
    absurd (ne refl)
Kept-counter Kind.cpu urgent calls old str s t ne (in_file calm failed opened written e) =
    SameCount-eq s t _ (refl, refl) e
Kept-counter Kind.disk urgent calls old str s t ne (in_file calm failed opened written e) =
    SameCount-eq s t _ (refl, refl) e
Kept-counter Kind.sys urgent calls old str s t ne (in_file calm failed opened written e) =
    SameCount-eq s t _ (refl, refl) e

Round-counter :
    (json : Cjson) (k : Option Kind) (calls : Calls) (old : List ℕ) (m : Msg) (s t : Sender)
    → k ≢ some Kind.mem
    → Round json k calls old m s t
    → SameCount s t
Round-counter json none calls old m s t ne e = SameCount-eq s t s (refl, refl) e
Round-counter json (some k) calls old m s t ne (text, o, urgent, read, built, tested, kept) =
    Kept-counter k urgent calls old (json.print o) s t (λ e. ne (ap some e)) kept

-- In any number of rounds that go through and none of which is about memory data, whatever cannot be
-- sent, the counter stays where it is and the thread that logs in again is not signalled.
other_failures_unnoticed :
    (json : Cjson) (rs : List (List ℕ × Calls)) (s t : Sender)
    → All NotMem rs
    → send_rounds json rs s ≡ ok t
    → (t.check_for_relogin ≡ s.check_for_relogin) × (t.signals ≡ s.signals)
unfolding send_rounds
other_failures_unnoticed json [] s t h e =
    let same : t ≡ s = cc e in SameCount-eq s t s (refl, refl) same
other_failures_unnoticed json ((old, calls) ∷ rs) s t h e =
    let (u, first, rest) =
      first_call (send_data_to_server json old calls s) (send_rounds json rs) e in
    let (m, got, round) = send_data_to_server-Round json old calls s u first in
    let (c, n) = Round-counter json (kind_of m.type) calls old m s u (h.0 m got) round in
    let (c', n') = other_failures_unnoticed json rs u t h.1 rest in (c' ∙ c, n' ∙ n)
