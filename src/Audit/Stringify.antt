-- ===== src/Audit/Stringify.antt =====
-- `stableStringify` of src/modules/admin/admin.audit.ts: the text of a JSON value, with the entries
-- of an object in the order of their keys.
use Prim.Native.Nat.{◌/◌, ◌%◌}
use sinkronis_backend.Common.{ℕ, true, false, List, [], ◌∷◌, ◌++◌, ◌+◌, ◌==◌, ltb, if◌then◌else◌}
use sinkronis_backend.Common.Text.{Text, codes}
use sinkronis_backend.Common.Json.{
  Json, null, boolean, number, string, array, object, Elements, no_elements, element, Fields,
  no_fields, field,
}
use sinkronis_backend.Database.{External}

abbrev hex : ℕ → ℕ
hex n = if ltb n 10 then 48 + n else 87 + n

abbrev escape_code : ℕ → Text
escape_code c =
    if c == 34
    then codes "\\\""
    else if c == 92
    then codes "\\\\"
    else if c == 8
    then codes "\\b"
    else if c == 9
    then codes "\\t"
    else if c == 10
    then codes "\\n"
    else if c == 12
    then codes "\\f"
    else if c == 13
    then codes "\\r"
    else if ltb c 32
    then codes "\\u00" ++ hex (c / 16) ∷ hex (c % 16) ∷ []
    else c ∷ []

unfoldable pub escape : Text → Text
escape [] = []
escape (c ∷ s) = escape_code c ++ escape s

-- `JSON.stringify` of a string
unfoldable pub quote : Text → Text
unfolding escape
quote s = codes "\"" ++ escape s ++ codes "\""

-- `parts.join(",")`
unfoldable pub join : List Text → Text
join [] = []
join (s ∷ []) = s
join (s ∷ t ∷ rest) = s ++ codes "," ++ join (t ∷ rest)

module _ (x : External) where
  -- `sort`, which is stable, with `localeCompare` of the keys
  unfoldable pub insert : Text × Text → List (Text × Text) → List (Text × Text)
  insert e [] = e ∷ []
  insert e (f ∷ rest) = if x.comes_after e.0 f.0 then f ∷ insert e rest else e ∷ f ∷ rest

  unfoldable pub sort : List (Text × Text) → List (Text × Text)
  unfolding insert
  sort [] = []
  sort (e ∷ rest) = insert e (sort rest)

  unfoldable pub entry_texts : List (Text × Text) → List Text
  unfolding quote
  entry_texts [] = []
  entry_texts ((key, value) ∷ rest) = (quote key ++ codes ":" ++ value) ∷ entry_texts rest

  -- The entries are printed before they are sorted, which gives the same text.
  unfoldable mutual
    unfolding quote join sort entry_texts

    pub stable_stringify : Json → Text
    stable_stringify null = codes "null"
    stable_stringify (boolean true) = codes "true"
    stable_stringify (boolean false) = codes "false"
    stable_stringify (number s) = s
    stable_stringify (string s) = quote s
    stable_stringify (array es) = codes "[" ++ join (elements es) ++ codes "]"
    stable_stringify (object fs) = codes "{" ++ join (entry_texts (sort (entries fs))) ++ codes "}"

    pub elements : Elements → List Text
    elements no_elements = []
    elements (element v es) = stable_stringify v ∷ elements es

    pub entries : Fields → List (Text × Text)
    entries no_fields = []
    entries (field key v fs) = (key, stable_stringify v) ∷ entries fs
