-- ===== src/Storing/Query.antt =====
-- The statements of `deal_with_monitor_msg`.
use monitor_system.Base.{
  ℕ, ◌<◌, ◌≡◌, inl, inr, refl, ap, ◌∙◌, List, [], ◌∷◌, ◌++◌, map, Option, none, some, arith, codes,
  concat, true, Bool-cases, length, length-append, append_assoc, ltb, if◌then◌else◌, ◌==◌, Exec, ok,
  stop, null_pointer, out_of_bounds, c_str, strcat_all, strcat_all_lem,
}
use monitor_system.Message.{Msg, is_data, sys_mem, sys_cpu, sys_disk, sys_sys}
use monitor_system.Json.{Cjson, IsLawful, string_at, string_of}
use monitor_system.Storing.{
  Table, mem_table, cpu_table, disk_table, sys_table, table_of, sql_size, text_in, value_of,
  arguments, statement, deal_with_monitor_msg,
}

-- Values in quotes, with commas between them.
abbrev pub quoted : List (List ℕ) → List ℕ
quoted [] = []
quoted (v ∷ []) = v ++ codes "')"
quoted (v ∷ w ∷ vs) = v ++ (codes "', '" ++ quoted (w ∷ vs))

-- The statement that stores a row.
abbrev pub insert_row : Table → List (List ℕ) → List ℕ
insert_row t vs = t.insert ++ quoted vs

-- What stands in quotes before the last value.
abbrev pub opened : List (List ℕ) → List ℕ
opened [] = []
opened (v ∷ vs) = v ++ (codes "', '" ++ opened vs)

pieces : List (List ℕ) → List (List ℕ)
pieces [] = []
pieces (v ∷ []) = v ∷ codes "')" ∷ []
pieces (v ∷ w ∷ vs) = v ∷ codes "', '" ∷ pieces (w ∷ vs)

concat-pieces : (vs : List (List ℕ)) → concat (pieces vs) ≡ quoted vs
unfolding pieces
concat-pieces [] = refl
concat-pieces (v ∷ []) = refl
concat-pieces (v ∷ w ∷ vs) = ap (λ r. v ++ (codes "', '" ++ r)) (concat-pieces (w ∷ vs))

two_pieces :
    (dst v w : List ℕ) (es : List (Exec (List ℕ)))
    → length ((dst ++ v) ++ w) < sql_size
    → strcat_all sql_size dst (ok v ∷ ok w ∷ es) ≡ strcat_all sql_size ((dst ++ v) ++ w) es
unfolding strcat_all
two_pieces dst v w es lt =
    let shorter = length-append (dst ++ v) w in
    let first : ltb (length (dst ++ v)) sql_size ≡ true = ground arith in
    let second : ltb (length ((dst ++ v) ++ w)) sql_size ≡ true = ground arith in
    rw (first, second) refl

-- Every data message has a branch. It asks for `now_time` first, and its start fits `sql`.
pub table_of_data :
    (type : ℕ)
    → is_data type ≡ true
    → (t : Table) × (table_of type ≡ some t)
      × ((cs : List (List ℕ)) × (t.columns ≡ codes "now_time" ∷ cs))
      × (length (t.insert ++ []) < sql_size)
unfolding table_of
table_of_data type h = elim (Bool-cases (type == sys_mem)) [
  | inl is_mem ↦ (mem_table, rw is_mem refl, (_, refl), omega arith)
  | inr no_mem ↦ elim (Bool-cases (type == sys_cpu)) [
    | inl is_cpu ↦ (cpu_table, rw (no_mem, is_cpu) refl, (_, refl), omega arith)
    | inr no_cpu ↦ elim (Bool-cases (type == sys_disk)) [
      | inl is_disk ↦ (disk_table, rw (no_mem, no_cpu, is_disk) refl, (_, refl), omega arith)
      | inr no_disk ↦
          let is_sys : (type == sys_sys) ≡ true = ground arith in
          (sys_table, rw (no_mem, no_cpu, no_disk, is_sys) refl, (_, refl), omega arith)
    ]
  ]
]

module _ (json : Cjson) where
  -- The members named by the columns are these strings.
  abbrev pub HasRow : Option json.Item → List (List ℕ) → List (List ℕ) → Type 0
  HasRow o [] [] = Unit
  HasRow o [] (v ∷ vs) = ⊥
  HasRow o (c ∷ cs) [] = ⊥
  HasRow o (c ∷ cs) (v ∷ vs) = (string_at json o c ≡ some v) × HasRow o cs vs

  value_of-text_in : (i : Option json.Item) → value_of json i ≡ text_in (string_of json i)
  value_of-text_in none = refl
  value_of-text_in (some i) = refl

  arguments-HasRow :
      (o : Option json.Item) (cs vs : List (List ℕ))
      → HasRow o cs vs
      → arguments json (map (json.get_object_item o) cs) ≡ map ok (pieces vs)
  unfolding pieces
  arguments-HasRow o [] [] h = refl
  arguments-HasRow o [] (v ∷ vs) h = absurd h
  arguments-HasRow o (c ∷ cs) [] h = absurd h
  arguments-HasRow o (c ∷ []) (v ∷ []) h =
      ap (λ e. e ∷ ok (codes "')") ∷ [])
        (value_of-text_in (json.get_object_item o c) ∙ ap text_in h.0)
  arguments-HasRow o (c ∷ []) (v ∷ w ∷ vs) h = absurd h.1
  arguments-HasRow o (c ∷ d ∷ cs) (v ∷ []) h = absurd h.1
  arguments-HasRow o (c ∷ d ∷ cs) (v ∷ w ∷ vs) h = λ i.
      (value_of-text_in (json.get_object_item o c) ∙ ap text_in h.0) i
      ∷ ok (codes "', '")
      ∷ arguments-HasRow o (d ∷ cs) (w ∷ vs) h.1 i

  statement-HasRow :
      (t : Table) (text : List ℕ) (vs : List (List ℕ))
      → HasRow (json.parse text) t.columns vs
      → statement json t text ≡ (
          if ltb (length (insert_row t vs)) sql_size
          then ok (insert_row t vs)
          else stop out_of_bounds)
  unfolding statement
  statement-HasRow t text vs h =
      ap (λ es. strcat_all sql_size [] (ok t.insert ∷ es))
        (arguments-HasRow (json.parse text) t.columns vs h)
      ∙ strcat_all_lem sql_size [] (t.insert ∷ pieces vs) (omega arith)
      ∙ ap
          (λ r.
            if ltb (length (t.insert ++ r)) sql_size
            then ok (t.insert ++ r)
            else stop out_of_bounds)
          (concat-pieces vs)

  -- A message whose text parses to an object with a string for each column of its type becomes the
  -- INSERT statement with these strings as they are, if that takes fewer than 500 bytes, and else
  -- `strcat` writes outside `sql`.
  pub stored_row :
      (msg : Msg) (t : Table) (text : List ℕ) (vs : List (List ℕ))
      → table_of msg.type ≡ some t
      → c_str msg.buff ≡ ok text
      → HasRow (json.parse text) t.columns vs
      → deal_with_monitor_msg json msg ≡ (
          if ltb (length (insert_row t vs)) sql_size
          then ok (some (insert_row t vs))
          else stop out_of_bounds)
  unfolding deal_with_monitor_msg
  stored_row msg t text vs kind read row =
      simp (kind, read, statement-HasRow t text vs row) (ground arith)

  arguments-next :
      (o : Option json.Item) (b c : List ℕ) (bs cs : List (List ℕ))
      → arguments json (map (json.get_object_item o) ((b ∷ bs) ++ (c ∷ cs)))
        ≡ value_of json (json.get_object_item o b)
          ∷ ok (codes "', '")
          ∷ arguments json (map (json.get_object_item o) (bs ++ (c ∷ cs)))
  arguments-next o b c [] cs = refl
  arguments-next o b c (b' ∷ bs) cs = refl

  missing_argument :
      (o : Option json.Item) (dst c : List ℕ) (cs before vs : List (List ℕ))
      → HasRow o before vs
      → string_at json o c ≡ none
      → length (dst ++ opened vs) < sql_size
      → strcat_all sql_size dst (arguments json (map (json.get_object_item o) (before ++ (c ∷ cs))))
        ≡ stop null_pointer
  unfolding strcat_all
  missing_argument o dst c [] [] [] h e lt =
      rw (value_of-text_in (json.get_object_item o c) ∙ ap text_in e) refl
  missing_argument o dst c (d ∷ cs) [] [] h e lt =
      rw (value_of-text_in (json.get_object_item o c) ∙ ap text_in e) refl
  missing_argument o dst c cs [] (v ∷ vs) h e lt = absurd h
  missing_argument o dst c cs (b ∷ bs) [] h e lt = absurd h
  missing_argument o dst c cs (b ∷ bs) (v ∷ vs) h e lt =
      let sep = codes "', '" in
      let same =
        ap length
          (append_assoc (dst ++ v) sep (opened vs) ∙ append_assoc dst v (sep ++ opened vs)) in
      let whole = length-append ((dst ++ v) ++ sep) (opened vs) in
      ap (strcat_all sql_size dst) (
        arguments-next o b c bs cs
        ∙ ap (λ x. x ∷ ok sep ∷ arguments json (map (json.get_object_item o) (bs ++ (c ∷ cs))))
            (value_of-text_in (json.get_object_item o b) ∙ ap text_in h.0))
      ∙ two_pieces dst v sep _ (omega arith)
      ∙ missing_argument o ((dst ++ v) ++ sep) c cs bs vs h.1 e (omega arith)

  -- A message whose text lacks a string for some column of its type, with the values of the columns
  -- before it in place, makes the worker follow a null pointer, if what comes before fits `sql`.
  pub missing_column_crashes :
      (msg : Msg) (t : Table) (text c : List ℕ) (before cs vs : List (List ℕ))
      → table_of msg.type ≡ some t
      → t.columns ≡ before ++ (c ∷ cs)
      → c_str msg.buff ≡ ok text
      → HasRow (json.parse text) before vs
      → string_at json (json.parse text) c ≡ none
      → length (t.insert ++ opened vs) < sql_size
      → deal_with_monitor_msg json msg ≡ stop null_pointer
  unfolding deal_with_monitor_msg statement strcat_all
  missing_column_crashes msg t text c before cs vs kind split read row missing lt =
      let shorter = length-append t.insert (opened vs) in
      let fits : ltb (length t.insert) sql_size ≡ true = ground arith in
      let stops = missing_argument (json.parse text) t.insert c cs before vs row missing lt in
      simp (kind, read, split, fits, stops)

  -- So does a data message whose text `cJSON_Parse` refuses, from whoever it comes.
  pub unparsable_message_crashes :
      (msg : Msg) (text : List ℕ)
      → IsLawful json
      → is_data msg.type ≡ true
      → c_str msg.buff ≡ ok text
      → json.parse text ≡ none
      → deal_with_monitor_msg json msg ≡ stop null_pointer
  unparsable_message_crashes msg text law kind read refused =
      let (t, branch, (cs, first), fits) = table_of_data msg.type kind in
      missing_column_crashes msg t text (codes "now_time") [] cs [] branch first read tt
        (ap (λ o. string_at json o (codes "now_time")) refused
          ∙ ap (string_of json) (law.get_null (codes "now_time")))
        fits
