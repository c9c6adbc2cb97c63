-- ===== src/Tools/Names.antt =====
-- snakeCase of agent/tools/tools.go and agent/runtime/runtime.go, and the texts and JSON values that
-- tools are described by.
use orjanda.Prelude.{ℕ, String, List, [], ◌∷◌, is_upper, lower_char, if◌then◌else◌}
use orjanda.Prelude.Int.{ℤ, pos}
use orjanda.Value.{
  Value, Items, Fields, Row, null, text, int, int64, float, bool, time, array, texts, object,
  opaque, nil, cons, end, field,
}
use Prim.Native.Char.{code}
use Prim.Native.String.{[], ◌∷◌, char_at, ◌++◌}

-- the letters after the first
unfoldable pub snake_tail : String → String
snake_tail [] = []
snake_tail (c ∷ s) =
    let rest = snake_tail s in
    if is_upper (code c) then char_at "_" 0 ∷ lower_char c ∷ rest else lower_char c ∷ rest

unfoldable pub snake_case : String → String
snake_case [] = []
snake_case (c ∷ s) = lower_char c ∷ snake_tail s

-- a text between two others
abbrev pub around : String → String → String → String
around before name after = before ++ name ++ after

abbrev pub to_fields : Row → Fields
to_fields [] = end
to_fields ((k, v) ∷ row) = field k v (to_fields row)

abbrev pub to_items : List String → Items
to_items [] = nil
to_items (s ∷ ss) = cons (text s) (to_items ss)

-- a schema with a type, properties and required keys
abbrev pub object_schema : Row → List String → Row
object_schema props required =
    ("type", text "object")
    ∷ ("properties", object (to_fields props))
    ∷ ("required", array (to_items required))
    ∷ []

abbrev pub described : String → String → Value
described type description =
    object (to_fields (("type", text type) ∷ ("description", text description) ∷ []))

abbrev pub described_default : String → ℕ → Value
described_default description default = object (
    to_fields (
      ("type", text "integer")
      ∷ ("description", text description)
      ∷ ("default", int (pos default))
      ∷ []))

-- deepCopySchema: what remains of a schema after it was written as JSON and read again. `float_of` is
-- the float64 of an integer.
unfoldable mutual
  pub json_copy : (ℤ → ℕ) → Value → Value
  json_copy float_of null = null
  json_copy float_of (text s) = text s
  json_copy float_of (int n) = float (float_of n)
  json_copy float_of (int64 n) = float (float_of n)
  json_copy float_of (float x) = float x
  json_copy float_of (bool b) = bool b
  json_copy float_of (time t) = time t
  json_copy float_of (array vs) = array (json_items float_of vs)
  json_copy float_of (texts ss) = array (to_items ss)
  json_copy float_of (object fs) = object (json_fields float_of fs)
  json_copy float_of (opaque n) = opaque n

  json_items : (ℤ → ℕ) → Items → Items
  json_items float_of nil = nil
  json_items float_of (cons v vs) = cons (json_copy float_of v) (json_items float_of vs)

  pub json_fields : (ℤ → ℕ) → Fields → Fields
  json_fields float_of end = end
  json_fields float_of (field k v fs) = field k (json_copy float_of v) (json_fields float_of fs)
