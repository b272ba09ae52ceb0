-- ===== src/Encode/Failures.antt =====
-- The failures of the sending thread that count towards a new login.
use mathlib.Core.Path.{subst}
use monitor_system.Base.{
  ℕ, ◌+◌, ◌-◌, ◌≡◌, refl, sym, inl, inr, List, [], ◌∷◌, ◌++◌, Option, none, some, Bool, true, false,
  not, ◌&&◌, Bool-cases, arith, length, ◌==◌, ok, ◌>>=◌, first_call, c_str, write_str,
}
use monitor_system.Message.{Msg}
use monitor_system.Json.{Cjson}
use monitor_system.Offline.{DataFile, persist}
use monitor_system.Reconnect.{try_to_relogin}
use monitor_system.Encode.{Kind, type_of, kind_of, object_of, is_urgent}
use monitor_system.Encode.Deliver.{
  Sender, Calls, file_of, put_file, note_failure, deliver, send_record, branch, on_received,
  send_data_to_server,
}
use monitor_system.Encode.Effects.{is_urgent-sys, SameCount, send_rounds}

abbrev pub is_mem : Option Kind → Bool
is_mem none = false
is_mem (some Kind.mem) = true
is_mem (some Kind.cpu) = false
is_mem (some Kind.disk) = false
is_mem (some Kind.sys) = false

-- The round is about memory data, and `send` fails in it.
abbrev pub send_fails : Option Msg → Calls → Bool
send_fails none calls = false
send_fails (some m) calls = is_mem (kind_of m.type) && not calls.sent

abbrev pub count_of : Bool → ℕ
count_of true = 1
count_of false = 0

unfoldable pub mem_failures : List (List ℕ × Calls) → ℕ
mem_failures [] = 0
mem_failures ((old, calls) ∷ rs) = count_of (send_fails calls.received calls) + mem_failures rs

-- The counter and the signals after a round that fails, or does not.
abbrev Counted : Bool → Sender → Sender → Type 0
Counted b s t =
    (t.check_for_relogin ≡ s.check_for_relogin - count_of b)
    × (t.signals ≡ s.signals + (count_of b - s.check_for_relogin))

and_true : (b : Bool) → (b && not false) ≡ b
and_true true = refl
and_true false = refl

note_failure-Counted :
    (k : Kind) (f : DataFile) (s : Sender)
    → Counted (is_mem (some k)) s (note_failure k (record s { files = put_file k f s.files }))
unfolding note_failure try_to_relogin
note_failure-Counted Kind.mem f s = ground arith
note_failure-Counted Kind.cpu f s = omega arith
note_failure-Counted Kind.disk f s = omega arith
note_failure-Counted Kind.sys f s = omega arith

deliver_unsent :
    (k : Kind) (calls : Calls) (msg : Msg) (str : List ℕ) (s t : Sender)
    → calls.sent ≡ false
    → deliver k false calls msg str s ≡ ok t
    → (f : DataFile) × (note_failure k (record s { files = put_file k f s.files }) ≡ t)
unfolding deliver
deliver_unsent k calls msg str s t failed e =
    let after = λ (f : DataFile). ok (note_failure k (record s { files = put_file k f s.files })) in
    let run : (persist calls.opened calls.written (file_of k s.files) str >>= after) ≡ ok t =
      ground (arith, e, failed) in
    let (f, kept, rest) =
      first_call (persist calls.opened calls.written (file_of k s.files) str) after run in
    (f, cc rest)

-- What goes out, by TCP or UDP, counts nothing.
went_out : (b : Bool) (s t u : Sender) → b ≡ false → SameCount s u → t ≡ u → Counted b s t
went_out b s t u none_failed same e =
    subst (λ x. Counted x s t) (sym none_failed)
      (subst (Counted false s) (sym e) (omega (arith, same)))

is_mem-sent : (b : Bool) → (b && not true) ≡ false
is_mem-sent true = refl
is_mem-sent false = refl

deliver-Counted :
    (k : Kind) (urgent : Bool) (calls : Calls) (msg : Msg) (str : List ℕ) (s t : Sender)
    → (urgent ≡ true → k ≡ Kind.sys)
    → deliver k urgent calls msg str s ≡ ok t
    → Counted (is_mem (some k) && not calls.sent) s t
unfolding deliver
deliver-Counted k true calls msg str s t only e =
    let not_mem : (is_mem (some k) && not calls.sent) ≡ false = rw (only refl) refl in
    went_out _ s t (record s { udp = s.udp ++ (msg ∷ []) }) not_mem (refl, refl) (cc e)
deliver-Counted k false calls msg str s t only e = elim (Bool-cases calls.sent) [
  | inl sent ↦
      let counts_not : (is_mem (some k) && not calls.sent) ≡ false =
        rw sent (is_mem-sent (is_mem (some k))) in
      went_out _ s t (record s { tcp = s.tcp ++ (msg ∷ []) }) counts_not (refl, refl)
        (ground (arith, e, sent))
  | inr failed ↦
      let (f, noted) = deliver_unsent k calls msg str s t failed e in
      let counts : is_mem (some k) ≡ (is_mem (some k) && not calls.sent) =
        rw failed (sym (and_true (is_mem (some k)))) in
      subst (λ b. Counted b s t) counts
        (subst (Counted (is_mem (some k)) s) noted (note_failure-Counted k f s))
]

send_record-Counted :
    (json : Cjson) (k : Kind) (old : List ℕ) (calls : Calls) (text : List ℕ) (s t : Sender)
    → send_record json k old calls text s ≡ ok t
    → Counted (is_mem (some k) && not calls.sent) s t
unfolding send_record
send_record-Counted json k old calls text s t e =
    let (o, built, e1) = first_call (object_of json k text) _ e in
    let (filled, wrote, e2) = first_call (write_str old (json.print o)) _ e1 in
    let (urgent, tested, e3) = first_call (is_urgent json k o) _ e2 in
    deliver-Counted k urgent calls (record { type = type_of k; buff = filled }) (json.print o) s t
      (is_urgent-sys json k o urgent tested) e3

branch-Counted :
    (json : Cjson) (k : Option Kind) (old : List ℕ) (calls : Calls) (buff : List ℕ) (s t : Sender)
    → branch json k old calls buff s ≡ ok t
    → Counted (is_mem k && not calls.sent) s t
branch-Counted json none old calls buff s t e = went_out false s t s refl (refl, refl) (cc e)
branch-Counted json (some k) old calls buff s t e =
    let (text, read, e1) = first_call (c_str buff) _ e in
    elim (Bool-cases (length text == 0)) [
      | inl empty ↦ absurd (ground (arith, e1))
      | inr some_text ↦ send_record-Counted json k old calls text s t (ground (arith, e1))
    ]

round-Counted :
    (json : Cjson) (received : Option Msg) (old : List ℕ) (calls : Calls) (s t : Sender)
    → on_received json received old calls s ≡ ok t
    → Counted (send_fails received calls) s t
round-Counted json none old calls s t e = absurd (cc e)
round-Counted json (some m) old calls s t e =
    branch-Counted json (kind_of m.type) old calls m.buff s t e

-- Over any rounds that go through, the counter and the signals to the thread that logs in again are
-- what the failed sends of memory data make them, and nothing else counts: with `n` such failures the
-- counter falls by `n` as far as it goes, and each failure that finds it at 0 signals the thread.
pub failures_counted :
    (json : Cjson) (rs : List (List ℕ × Calls)) (s t : Sender)
    → send_rounds json rs s ≡ ok t
    → (t.check_for_relogin ≡ s.check_for_relogin - mem_failures rs)
      × (t.signals ≡ s.signals + (mem_failures rs - s.check_for_relogin))
unfolding send_rounds mem_failures send_data_to_server
failures_counted json [] s t e =
    let same : t ≡ s = cc e in went_out false s t s refl (refl, refl) same
failures_counted json ((old, calls) ∷ rs) s t e =
    let (u, first, rest) =
      first_call (on_received json calls.received old calls s) (send_rounds json rs) e in
    let now = round-Counted json calls.received old calls s u first in
    let later = failures_counted json rs u t rest in omega (arith, now, later)
