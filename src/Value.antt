-- ===== src/Value.antt =====
-- The dynamic values (`any`) that documents, tool arguments and JSON schemas hold.
use orjanda.Prelude.{ℕ, String, Bool, List, [], ◌∷◌, Option, none, some, Dict}
use orjanda.Prelude.Int.{ℤ}

-- `float64` is its bit pattern, `time` a count of nanoseconds; a slice of another type than
-- `[]any` or `[]string`, and any other Go value, is an `opaque`.
mutual
  pub data Value : Type 0 where
    null : Value
    text : String → Value
    int int64 : ℤ → Value
    float : ℕ → Value
    bool : Bool → Value
    time : ℕ → Value
    array : Items → Value
    texts : List String → Value
    object : Fields → Value
    opaque : ℕ → Value

  pub data Items : Type 0 where
    nil : Items
    cons : Value → Items → Items

  pub data Fields : Type 0 where
    end : Fields
    field : String → Value → Fields → Fields

abbrev pub items : Items → List Value
items nil = []
items (cons v vs) = v ∷ items vs

abbrev pub fields : Fields → Dict Value
fields end = []
fields (field k v fs) = (k, v) ∷ fields fs

-- A document or an argument map, `map[string]any`.
abbrev pub Row : Type 0
Row = Dict Value

-- `v.(string)`, `v.(bool)`, `v.([]any)`, `v.(map[string]any)` with their `ok`
abbrev pub as_text : Option Value → Option String
as_text (some (text s)) = some s
as_text _ = none

abbrev pub as_bool : Option Value → Option Bool
as_bool (some (bool b)) = some b
as_bool _ = none

abbrev pub as_array : Option Value → Option (List Value)
as_array (some (array vs)) = some (items vs)
as_array _ = none

abbrev pub as_object : Option Value → Option Row
as_object (some (object fs)) = some (fields fs)
as_object _ = none

-- `s, _ := v.(string)`
abbrev pub text_or_empty : Option Value → String
text_or_empty (some (text s)) = s
text_or_empty _ = ""
