-- ===== src/Json/Layout.antt =====
-- What the code relies on of the layout that `cJSON_Print` gives an object, and of `cJSON_Parse`, which
-- does not look at what comes behind a value.
use monitor_system.Base.{ℕ, suc, ◌≡◌, List, [], ◌∷◌, ◌++◌, none, some, length, All}
use monitor_system.Json.{Cjson, Fields, TextFields, build}
use monitor_system.Offline.{newline}
use monitor_system.Offline.Lines.{IsLine, join}

-- The fields with a value.
abbrev pub field_number : Fields → ℕ
field_number [] = 0
field_number ((k, none) ∷ fs) = field_number fs
field_number ((k, some v) ∷ fs) = suc (field_number fs)

pub record IsLaidOut (json : Cjson) : Type 0 where
  -- A line for each brace and for each field, and no newline behind the last.
  pub print_lines :
      (fs : Fields)
      → TextFields fs
      → (first : List ℕ) × (others : List (List ℕ)) × (json.print (build json fs)
          ≡ join first others)
        × IsLine first
        × All IsLine others
        × (length others ≡ suc (field_number fs))
  pub parse_rest :
      (fs : Fields)
      → TextFields fs
      → json.parse (json.print (build json fs) ++ (newline ∷ []))
        ≡ json.parse (json.print (build json fs))
