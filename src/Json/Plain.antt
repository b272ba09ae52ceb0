-- ===== src/Json/Plain.antt =====
-- A value of the interface that obeys the laws: objects as lists of fields, printed with a byte in
-- front of each byte of a string.
use mathlib.Core.Path.{subst}
use monitor_system.Base.{
  ℕ, ◌≡◌, refl, sym, ap, ◌∙◌, List, [], ◌∷◌, ◌++◌, append_assoc, append-nil, IsText, Option, none,
  some, arith, ◌==◌, if◌then◌else◌, Bool, true, false, Bool-cases, inl, inr, ◌≢◌, suc, length, All,
}
use monitor_system.Offline.{newline}
use monitor_system.Offline.Lines.{IsLine, join}
use monitor_system.Json.Layout.{field_number, IsLaidOut}
use monitor_system.Json.{
  Cjson, Fields, find, same_name, TextFields, IsLawful, build, build_from, string_at, string_of,
}

pub data Value : Type 0 where
  obj : Fields → Value
  str : List ℕ → Value

-- `last` ends the string; a newline in it is a 4.
abbrev encode_string : ℕ → List ℕ → List ℕ → List ℕ
encode_string last [] rest = last ∷ rest
encode_string last (b ∷ s) rest =
    if b == 10 then 4 ∷ encode_string last s rest else 1 ∷ b ∷ encode_string last s rest

-- A line for each field. A null string is left out.
abbrev encode_fields : Fields → List ℕ
encode_fields [] = 3 ∷ []
encode_fields ((k, none) ∷ fs) = encode_fields fs
encode_fields ((k, some v) ∷ fs) = encode_string 2 k (encode_string 10 v (encode_fields fs))

abbrev onto_first : ℕ → List (List ℕ) → List (List ℕ)
onto_first b [] = []
onto_first b (s ∷ ss) = (b ∷ s) ∷ ss

-- The strings up to a 3; `byte` if a byte of a string comes next.
abbrev decode : Bool → List ℕ → List (List ℕ)
decode byte [] = []
decode true (b ∷ r) = onto_first b (decode false r)
decode false (t ∷ r) =
    let rest = decode (t == 1) r in
    if t == 1
    then rest
    else (if t == 4 then onto_first 10 rest else (if t == 3 then [] else [] ∷ rest))

abbrev pair_up : List (List ℕ) → Fields
pair_up [] = []
pair_up (k ∷ []) = []
pair_up (k ∷ v ∷ ss) = (k, some v) ∷ pair_up ss

abbrev add : Value → List ℕ → Option (List ℕ) → Value
add (obj fs) k v = obj (fs ++ ((k, v) ∷ []))
add (str s) k v = str s

abbrev as_string : Option (List ℕ) → Option Value
as_string none = none
as_string (some s) = some (str s)

abbrev member : Option Value → List ℕ → Option Value
member none name = none
member (some (obj fs)) name = as_string (find fs name)
member (some (str s)) name = none

abbrev print_value : Value → List ℕ
print_value (obj fs) = 3 ∷ 10 ∷ encode_fields fs
print_value (str s) = encode_string 10 s []

abbrev behind_two : List ℕ → List ℕ
behind_two [] = []
behind_two (a ∷ []) = []
behind_two (a ∷ b ∷ r) = r

abbrev string_value : Value → Option (List ℕ)
string_value (obj fs) = none
string_value (str s) = some s

abbrev pub plain : Cjson
plain = record {
  Item = Value;
  create_object = obj [];
  add_string = add;
  print = print_value;
  parse = λ s. some (obj (pair_up (decode false (behind_two s))));
  get_object_item = member;
  valuestring = string_value;
}

build_from-obj : (gs fs : Fields) → build_from plain (obj gs) fs ≡ obj (gs ++ fs)
unfolding build_from
build_from-obj gs [] = ap obj (sym (append-nil gs))
build_from-obj gs ((k, v) ∷ fs) =
    build_from-obj (gs ++ ((k, v) ∷ [])) fs ∙ ap obj (append_assoc gs ((k, v) ∷ []) fs)

-- 2 and 10.
abbrev IsLast : ℕ → Type 0
IsLast last = (last ≢ 0) × (last ≢ 1) × (last ≢ 3) × (last ≢ 4)

decode-encode :
    (last : ℕ) (s rest : List ℕ)
    → IsLast last
    → decode false (encode_string last s rest) ≡ s ∷ decode false rest
decode-encode last [] rest h = ground (arith, h)
decode-encode last (b ∷ s) rest h = elim (Bool-cases (b == 10)) [
  | inl is_newline ↦
      let same : 10 ≡ b = ground (arith, is_newline) in
      rw is_newline (
        ap (onto_first 10) (decode-encode last s rest h)
        ∙ ap (λ x. (x ∷ s) ∷ decode false rest) same)
  | inr other ↦ rw other (ap (onto_first b) (decode-encode last s rest h))
]

-- The fields with a value.
kept : Fields → Fields
kept [] = []
kept ((k, none) ∷ fs) = kept fs
kept ((k, some v) ∷ fs) = (k, some v) ∷ kept fs

encode_string-append :
    (last : ℕ) (s r rest : List ℕ)
    → encode_string last s r ++ rest ≡ encode_string last s (r ++ rest)
encode_string-append last [] r rest = refl
encode_string-append last (b ∷ s) r rest = ground (arith, encode_string-append last s r rest)

pair_up-encode :
    (fs : Fields) (rest : List ℕ) → pair_up (decode false (encode_fields fs ++ rest)) ≡ kept fs
unfolding kept
pair_up-encode [] rest = refl
pair_up-encode ((k, none) ∷ fs) rest = pair_up-encode fs rest
pair_up-encode ((k, some v) ∷ fs) rest =
    ap (λ r. pair_up (decode false r))
      (encode_string-append 2 k _ rest ∙ ap (encode_string 2 k) (encode_string-append 10 v _ rest))
    ∙ ap pair_up (
        decode-encode 2 k _ (omega arith)
        ∙ ap (λ r. k ∷ r) (decode-encode 10 v (encode_fields fs ++ rest) (omega arith)))
    ∙ ap (λ r. (k, some v) ∷ r) (pair_up-encode fs rest)

find-kept : (fs : Fields) (name : List ℕ) → find (kept fs) name ≡ find fs name
unfolding kept find
find-kept [] name = refl
find-kept ((k, none) ∷ fs) name = find-kept fs name
find-kept ((k, some v) ∷ fs) name =
    ap (λ r. if same_name name k then some v else r) (find-kept fs name)

encode_string-IsText :
    (last : ℕ) (s rest : List ℕ)
    → last ≢ 0
    → IsText s
    → IsText rest
    → IsText (encode_string last s rest)
encode_string-IsText last [] rest l h k = (l, k)
encode_string-IsText last (b ∷ s) rest l h k = elim (Bool-cases (b == 10)) [
  | inl is_newline ↦ rw is_newline ((λ e. omega arith), encode_string-IsText last s rest l h.1 k)
  | inr other ↦ rw other ((λ e. omega arith), (h.0, encode_string-IsText last s rest l h.1 k))
]

encode_fields-IsText : (fs : Fields) → TextFields fs → IsText (encode_fields fs)
encode_fields-IsText [] h = ((λ e. omega arith), tt)
encode_fields-IsText ((k, none) ∷ fs) h = encode_fields-IsText fs h.1
encode_fields-IsText ((k, some v) ∷ fs) h =
    encode_string-IsText 2 k _ (omega arith) h.0.0
      (encode_string-IsText 10 v _ (omega arith) h.0.1 (encode_fields-IsText fs h.1))

build-plain : (fs : Fields) → build plain fs ≡ obj fs
build-plain fs = build_from-obj [] fs

valuestring-as_string : (o : Option (List ℕ)) → string_of plain (as_string o) ≡ o
valuestring-as_string none = refl
valuestring-as_string (some s) = refl

pub plain-IsLawful : IsLawful plain
plain-IsLawful = record {
  get_null = λ name. refl;
  get_built = λ fs name h.
      ap (λ o. string_at plain (some o) name) (build-plain fs)
      ∙ valuestring-as_string (find fs name);
  print_text = λ fs h.
      subst (λ o. IsText (print_value o)) (sym (build-plain fs))
        ((λ e. omega arith), ((λ e. omega arith), encode_fields-IsText fs h));
  parse_print = λ fs h. (
    obj (kept fs),
    ap (λ o. some (obj (pair_up (decode false (behind_two (print_value o)))))) (build-plain fs)
        ∙ ap (λ r. some (obj (pair_up (decode false r)))) (sym (append-nil (encode_fields fs)))
        ∙ ap (λ r. some (obj r)) (pair_up-encode fs []),
    λ name. valuestring-as_string (find (kept fs) name) ∙ find-kept fs name,
  );
}

encode_body : List ℕ → List ℕ
encode_body [] = []
encode_body (b ∷ s) = if b == 10 then 4 ∷ encode_body s else 1 ∷ b ∷ encode_body s

encode_body_lem :
    (last : ℕ) (s rest : List ℕ) → encode_string last s rest ≡ encode_body s ++ (last ∷ rest)
unfolding encode_body
encode_body_lem last [] rest = refl
encode_body_lem last (b ∷ s) rest = ground (arith, encode_body_lem last s rest)

encode_body-IsLine : (s rest : List ℕ) → IsText s → IsLine rest → IsLine (encode_body s ++ rest)
unfolding encode_body
encode_body-IsLine [] rest h k = k
encode_body-IsLine (b ∷ s) rest h k = elim (Bool-cases (b == 10)) [
  | inl is_newline ↦
      rw is_newline (((λ e. omega arith), (λ e. omega arith)), encode_body-IsLine s rest h.1 k)
  | inr other ↦ rw other (
    ((λ e. omega arith), (λ e. omega arith)),
    (((λ e. ground (arith, e, other)), h.0), encode_body-IsLine s rest h.1 k),
  )
]

-- The line of a field.
field_line : List ℕ → List ℕ → List ℕ
field_line k v = encode_body k ++ (2 ∷ encode_body v)

-- The lines of the fields with a value, and of the last brace.
field_lines : Fields → List (List ℕ)
field_lines [] = (3 ∷ []) ∷ []
field_lines ((k, none) ∷ fs) = field_lines fs
field_lines ((k, some v) ∷ fs) = field_line k v ∷ field_lines fs

join-field_lines :
    (l : List ℕ) (fs : Fields) → join l (field_lines fs) ≡ l ++ (newline ∷ encode_fields fs)
unfolding field_lines field_line
join-field_lines l [] = refl
join-field_lines l ((k, none) ∷ fs) = join-field_lines l fs
join-field_lines l ((k, some v) ∷ fs) =
    ap (λ r. l ++ (newline ∷ r))
      (join-field_lines (field_line k v) fs
        ∙ append_assoc (encode_body k) (2 ∷ encode_body v) (newline ∷ encode_fields fs)
        ∙ ap (λ r. encode_body k ++ (2 ∷ r)) (sym (encode_body_lem 10 v (encode_fields fs)))
        ∙ sym (encode_body_lem 2 k (encode_string 10 v (encode_fields fs))))

field_lines-IsLine : (fs : Fields) → TextFields fs → All IsLine (field_lines fs)
unfolding field_lines field_line
field_lines-IsLine [] h = ((((λ e. omega arith), (λ e. omega arith)), tt), tt)
field_lines-IsLine ((k, none) ∷ fs) h = field_lines-IsLine fs h.1
field_lines-IsLine ((k, some v) ∷ fs) h = (
  encode_body-IsLine k (2 ∷ encode_body v) h.0.0 (
    ((λ e. omega arith), (λ e. omega arith)),
    subst IsLine (append-nil (encode_body v)) (encode_body-IsLine v [] h.0.1 tt),
  ),
  field_lines-IsLine fs h.1,
)

length-field_lines : (fs : Fields) → length (field_lines fs) ≡ suc (field_number fs)
unfolding field_lines
length-field_lines [] = refl
length-field_lines ((k, none) ∷ fs) = length-field_lines fs
length-field_lines ((k, some v) ∷ fs) = ap suc (length-field_lines fs)

pub plain-IsLaidOut : IsLaidOut plain
plain-IsLaidOut = record {
  print_lines = λ fs h. (
    3 ∷ [],
    field_lines fs,
    ap print_value (build-plain fs) ∙ sym (join-field_lines (3 ∷ []) fs),
    (((λ e. omega arith), (λ e. omega arith)), tt),
    field_lines-IsLine fs h,
    length-field_lines fs,
  );
  parse_rest = λ fs h.
      subst
        (λ o.
          ◌≡◌ {A = Option Value}
            (some (obj (pair_up (decode false (behind_two (print_value o ++ (newline ∷ [])))))))
            (some (obj (pair_up (decode false (behind_two (print_value o)))))))
        (sym (build-plain fs))
        (ap (λ r. some (obj r))
          (pair_up-encode fs (newline ∷ [])
            ∙ sym (pair_up-encode fs [])
            ∙ ap (λ r. pair_up (decode false r)) (append-nil (encode_fields fs))));
}
