-- ===== src/Json.antt =====
-- What the code uses of common/cJSON, which is another project's library: an interface of operations,
-- and the laws of their documentation for objects of strings.
pub mod Layout
pub mod Plain
use monitor_system.Base.{
  ℕ, ◌+◌, ◌≡◌, Bool, ◌&&◌, leb, List, [], ◌∷◌, ◌++◌, map, All, Option, IsText, none, some, str_eq,
  if◌then◌else◌,
}

-- `cJSON *`, with `none` for the null pointer.
pub record Cjson : Type 1 where
  pub Item : Type 0
  pub create_object : Item
  -- `cJSON_AddStringToObject`, on the object that it changes; `none` is a null string
  pub add_string : Item → List ℕ → Option (List ℕ) → Item
  pub print : Item → List ℕ
  pub parse : List ℕ → Option Item
  pub get_object_item : Option Item → List ℕ → Option Item
  -- the field `valuestring`
  pub valuestring : Item → Option (List ℕ)

-- `tolower` on ASCII.
abbrev pub to_lower : ℕ → ℕ
to_lower c = if leb 65 c && leb c 90 then c + 32 else c

-- `cJSON_GetObjectItem` does not tell small letters from capitals.
abbrev pub same_name : List ℕ → List ℕ → Bool
same_name j k = str_eq (map to_lower j) (map to_lower k)

-- The names and values handed to `cJSON_AddStringToObject`, in order.
abbrev pub Fields : Type 0
Fields = List (List ℕ × Option (List ℕ))

-- The first field of a name; a null string adds none.
unfoldable pub find : Fields → List ℕ → Option (List ℕ)
find [] name = none
find ((k, none) ∷ fs) name = find fs name
find ((k, some v) ∷ fs) name = if same_name name k then some v else find fs name

abbrev pub IsTextOption : Option (List ℕ) → Type 0
IsTextOption none = Unit
IsTextOption (some v) = IsText v

-- Names and values are strings of C.
abbrev pub TextFields : Fields → Type 0
TextFields = All λ f. IsText f.0 × IsTextOption f.1

module _ (json : Cjson) where
  open json use {Item, create_object, add_string, get_object_item, valuestring}

  -- An object, field by field.
  unfoldable pub build_from : Item → Fields → Item
  build_from o [] = o
  build_from o ((k, v) ∷ fs) = build_from (add_string o k v) fs

  abbrev pub build : Fields → Item
  build fs = build_from create_object fs

  abbrev pub string_of : Option Item → Option (List ℕ)
  string_of none = none
  string_of (some i) = valuestring i

  abbrev pub string_at : Option Item → List ℕ → Option (List ℕ)
  string_at o name = string_of (get_object_item o name)

-- An object gives back the strings that were added, and so does the text that it prints as, once
-- parsed. The text is a string of C. The null pointer has no members.
pub record IsLawful (json : Cjson) : Type 0 where
  pub get_null : (name : List ℕ) → json.get_object_item none name ≡ none
  pub get_built :
      (fs : Fields) (name : List ℕ)
      → TextFields fs
      → string_at json (some (build json fs)) name ≡ find fs name
  pub print_text : (fs : Fields) → TextFields fs → IsText (json.print (build json fs))
  pub parse_print :
      (fs : Fields)
      → TextFields fs
      → (o : json.Item) × (json.parse (json.print (build json fs)) ≡ some o)
        × ((name : List ℕ) → string_at json (some o) name ≡ find fs name)
