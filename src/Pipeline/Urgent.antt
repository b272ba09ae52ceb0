-- ===== src/Pipeline/Urgent.antt =====
-- Which system data the client sends by UDP.
use mathlib.Core.Path.{subst}
use monitor_system.Base.{
  ℕ, ◌<◌, ◌≡◌, refl, ap, ◌∙◌, inl, inr, ◌⊎◌, Bool, true, false, ◌||◌, List, [], ◌∷◌, ◌++◌, Option,
  none, some, All, length, codes, str_eq, ok, ◌>>=◌, IsText, c_str-IsText, c_str-write_str,
}
use monitor_system.Message.{Msg}
use monitor_system.Json.{Cjson, IsLawful, build, find, string_of, TextFields, Fields}
use monitor_system.Encode.{Kind, type_of, followed, follow_item, is_warning, is_urgent, or_else}
use monitor_system.Encode.Object.{record_of, object_of-words}
use monitor_system.Encode.Deliver.{
  Sender, Calls, deliver, send_record, branch, on_received, send_data_to_server,
}
use monitor_system.Pipeline.Lookups.{words-All, record_of-TextFields}
use monitor_system.Pipeline.Stored.{IsLine, words_nonempty}

abbrev pub warning : List ℕ
warning = codes "warning"

-- The words behind the hour, up to the three states.
pub record Front : Type 0 where
  pub hostname : List ℕ
  pub os_version : List ℕ
  pub kernel_version : List ℕ
  pub running_time : List ℕ
  pub load_avg_1 : List ℕ
  pub load_avg_2 : List ℕ
  pub load_avg_3 : List ℕ
  pub disk_size : List ℕ
  pub disk_utilization : List ℕ
  pub mem_size : List ℕ
  pub mem_utilization : List ℕ

-- The words of system data, with the states of disk, memory and processor.
abbrev pub sys_words : Front → List ℕ → List ℕ → List ℕ → List (List ℕ)
sys_words f disk_stat mem_stat cpu_stat =
    f.hostname ∷ f.os_version ∷ f.kernel_version ∷ f.running_time ∷ f.load_avg_1 ∷ f.load_avg_2
    ∷ f.load_avg_3 ∷ f.disk_size ∷ f.disk_utilization ∷ f.mem_size ∷ f.mem_utilization ∷ disk_stat
    ∷ mem_stat ∷ cpu_stat ∷ []

or-true : (a : Bool) (c : Bool) → (a || (true || c)) ≡ true
or-true true c = refl
or-true false c = refl

or-both : (a b : Bool) → (a || (b || true)) ≡ true
or-both true b = refl
or-both false true = refl
or-both false false = refl

warned :
    (a b c : List ℕ)
    → (a ≡ warning) ⊎ ((b ≡ warning) ⊎ (c ≡ warning))
    → (str_eq a warning || (str_eq b warning || str_eq c warning)) ≡ true
warned a b c (inl e) = rw e refl
warned a b c (inr (inl e)) = rw e (or-true (str_eq a warning) (str_eq c warning))
warned a b c (inr (inr e)) = rw e (or-both (str_eq a warning) (str_eq b warning))

module _ (json : Cjson) (law : IsLawful json) where
  or_else-ok : (a b : Bool) → or_else json a (ok b) ≡ ok (a || b)
  or_else-ok true b = refl
  or_else-ok false b = refl

  follow_item-string_of : (i : Option json.Item) → follow_item json i ≡ followed (string_of json i)
  follow_item-string_of none = refl
  follow_item-string_of (some i) = refl

  is_warning_lem :
      (fs : Fields) (name v : List ℕ)
      → TextFields fs
      → find fs name ≡ some v
      → is_warning json (build json fs) name ≡ ok (str_eq v warning)
  is_warning_lem fs name v h e =
      ap (λ r. r >>= λ w. ok (str_eq w warning))
        (follow_item-string_of (json.get_object_item (some (build json fs)) name)
          ∙ ap followed (law.get_built fs name h ∙ e))

  -- System data is urgent exactly if one of its three states is the word `warning`.
  pub is_urgent_lem :
      (d h : List ℕ) (f : Front) (disk_stat mem_stat cpu_stat : List ℕ)
      → All IsText (d ∷ h ∷ sys_words f disk_stat mem_stat cpu_stat)
      → is_urgent json Kind.sys
          (build json (record_of Kind.sys d h (sys_words f disk_stat mem_stat cpu_stat)))
        ≡ ok (str_eq disk_stat warning || (str_eq mem_stat warning || str_eq cpu_stat warning))
  unfolding is_urgent find
  is_urgent_lem d h f disk_stat mem_stat cpu_stat texts =
      let fs = record_of Kind.sys d h (sys_words f disk_stat mem_stat cpu_stat) in
      let ok_fields =
        record_of-TextFields Kind.sys d h (sys_words f disk_stat mem_stat cpu_stat) texts in
      let disk = is_warning_lem fs (codes "disk_stat") disk_stat ok_fields refl in
      let mem = is_warning_lem fs (codes "mem_stat") mem_stat ok_fields refl in
      let cpu = is_warning_lem fs (codes "cpu_stat") cpu_stat ok_fields refl in
      let object = build json fs in
      let third = is_warning json object (codes "cpu_stat") in
      let second = is_warning json object (codes "mem_stat") >>= λ b. or_else json b third in
      ap (λ x. x >>= λ a. or_else json a second) disk
      ∙ ap (or_else json (str_eq disk_stat warning)) (
          ap (λ x. x >>= λ b. or_else json b third) mem
          ∙ ap (or_else json (str_eq mem_stat warning)) cpu
          ∙ or_else-ok (str_eq mem_stat warning) (str_eq cpu_stat warning))
      ∙ or_else-ok (str_eq disk_stat warning) (str_eq mem_stat warning || str_eq cpu_stat warning)

  -- With a lawful cJSON, a complete line of system data, whose object fits the message and in which the
  -- state of the disk, of the memory or of the processor is the word `warning`, is handed to the UDP
  -- socket and to nothing else, whatever `send` answers: nothing goes over TCP, and no file keeps it.
  pub warning_only_by_udp :
      (m : Msg) (old : List ℕ) (calls : Calls) (s : Sender) (d h : List ℕ) (f : Front)
      (disk_stat mem_stat cpu_stat : List ℕ)
      → IsLine Kind.sys m d h (sys_words f disk_stat mem_stat cpu_stat)
      → calls.received ≡ some m
      → (disk_stat ≡ warning) ⊎ ((mem_stat ≡ warning) ⊎ (cpu_stat ≡ warning))
      → length (
          json.print
            (build json (record_of Kind.sys d h (sys_words f disk_stat mem_stat cpu_stat))))
        < length old
      → (msg : Msg) × (msg.type ≡ type_of Kind.sys)
        × (send_data_to_server json old calls s ≡ ok (record s { udp = s.udp ++ (msg ∷ []) }))
  unfolding send_data_to_server send_record deliver
  warning_only_by_udp m old calls s d h f disk_stat mem_stat cpu_stat line got state small =
      let ws = sys_words f disk_stat mem_stat cpu_stat in
      let texts =
        subst (All IsText) line.split
          (words-All line.text (c_str-IsText m.buff line.text line.read)) in
      let (filled, wrote, held, size) =
        c_str-write_str old (json.print (build json (record_of Kind.sys d h ws)))
          (law.print_text (record_of Kind.sys d h ws) (record_of-TextFields Kind.sys d h ws texts))
          small in
      let built = object_of-words json Kind.sys line.text d h ws line.split line.short_time in
      let some_text = words_nonempty line.text d (h ∷ ws) line.split in
      let urgent =
        is_urgent_lem d h f disk_stat mem_stat cpu_stat texts
        ∙ ap ok (warned disk_stat mem_stat cpu_stat state) in
      (
        record { type = type_of Kind.sys; buff = filled },
        refl,
        ap (λ r. on_received json r old calls s) got
            ∙ ap (λ c. branch json c old calls m.buff s) line.kind
            ∙ simp (line.read, some_text, built, wrote, urgent),
      )
