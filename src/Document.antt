-- ===== src/Document.antt =====
-- document/engine.go: the Document Engine. The helpers on documents are here, the engine's methods in
-- Document/Engine. A `details` map of errors is modelled by whether it is empty.

pub mod Engine
pub mod Atomic
mod Tests
pub mod Listing
pub mod Ordering
pub mod Stored
use orjanda.Prelude.{
  ℕ, zero, suc, ◌+◌, String, Bool, true, false, not, ◌&&◌, ◌||◌, ◌==◌, List, [], ◌∷◌, Option, none,
  some, Dict, lookup, insert, has_key, overlay, any, is_empty, is_some, if◌then◌else◌, equal_fold,
  has_prefix, eqb, leb, ltb, is_digit,
}
use Prim.Native.Char.{Char, code}
use Prim.Native.String.{◌∷◌ as ◌∷ᶜ◌, [] as []ᶜ, count}
use orjanda.Prelude.Int.{ℤ, pos, is_zero_ℤ}
use orjanda.Errors.{Result, ok, err, fail, validation}
use orjanda.Value.{Value, Row, null, text, int, int64, float, bool, time}
use orjanda.Auth.{Context}
use orjanda.Schema.{Field, FieldType, FieldType-discrete, CompiledDoc, child_table}

-- What the engine takes from elsewhere: `fmt.Sprintf("%v", v)`, `mail.ParseAddress` and the validators
-- by name.
pub record Host : Type 0 where
  pub show : Value → String
  pub parses_address : String → Bool
  pub validators : String → Option (Context → Field → Value → Bool)

-- fieldValue
unfoldable pub field_value : Row → Field → Option Value
field_value row f = elim (lookup f.name row) [ some v ↦ some v | none ↦ lookup f.db_column row ]

-- the column of the last field with a name
unfoldable pub column_of : List Field → String → Option String
column_of [] k = none
column_of (f ∷ fs) k =
    let later = column_of fs k in
    if is_some later then later else if f.name == k then some f.db_column else none

abbrev or_name : Option String → String → String
or_name none k = k
or_name (some column) k = column

-- the loop of normalizeToColumns over the data, in the order in which it meets the keys
unfoldable pub normalize_loop : List Field → Row → Row → Row
normalize_loop fs [] out = out
normalize_loop fs ((k, v) ∷ row) out =
    normalize_loop fs row (insert (or_name (column_of fs k) k) v out)

unfoldable pub normalize_to_columns : CompiledDoc → Row → Row
normalize_to_columns compiled row = normalize_loop compiled.fields row []

-- isZero; the floats that equal 0 are those of these bits, and a time of 0 is the zero time
unfoldable pub is_zero : Value → Bool
is_zero null = true
is_zero (text s) = s == ""
is_zero (int n) = is_zero_ℤ n
is_zero (int64 n) = is_zero_ℤ n
is_zero (float bits) = eqb bits 0 || eqb bits 9223372036854775808
is_zero (bool b) = not b
is_zero (time t) = eqb t 0
is_zero _ = false

unfoldable pub is_system_field : String → Bool
is_system_field col =
    col == "id"
    || col == "created_at"
    || col == "updated_at"
    || col == "deleted"
    || col == "doc_status"
    || col == "owner"
    || col == "name"
    || col == "modified_by"

-- `\s` of package regexp
abbrev is_space : ℕ → Bool
is_space c = eqb c 9 || eqb c 10 || eqb c 12 || eqb c 13 || eqb c 32

-- the characters that a telephone number may have after its `+`
abbrev is_phone_char : ℕ → Bool
is_phone_char c = is_digit c || is_space c || eqb c b'-' || eqb c b'(' || eqb c b')' || eqb c b'.'

unfoldable pub all_phone : String → Bool
all_phone []ᶜ = true
all_phone (c ∷ᶜ s) = is_phone_char (code c) && all_phone s

abbrev phone_body : String → Bool
phone_body s = all_phone s && leb 7 (count s)

-- phoneRegex
unfoldable pub is_phone : String → Bool
is_phone []ᶜ = false
is_phone (c ∷ᶜ s) = if eqb (code c) b'+' then phone_body s else phone_body (c ∷ᶜ s)

-- urlRegex
unfoldable pub is_url : String → Bool
is_url s = has_prefix s "http://" || has_prefix s "https://"

-- `[^\s@]+` to the end of the text
unfoldable pub is_plain : String → Bool
is_plain []ᶜ = true
is_plain (c ∷ᶜ s) = not (is_space (code c) || eqb (code c) b'@') && is_plain s

-- a text that has a dot with text after it, `seen` when there is text before it
unfoldable pub has_inner_dot : Bool → String → Bool
has_inner_dot seen []ᶜ = false
has_inner_dot seen (c ∷ᶜ s) = (seen && eqb (code c) b'.' && not (s == "")) || has_inner_dot true s

unfoldable pub is_domain : String → Bool
is_domain s = is_plain s && has_inner_dot false s

-- emailRegex, `seen` when there is text before the sign
unfoldable pub is_email : Bool → String → Bool
is_email seen []ᶜ = false
is_email seen (c ∷ᶜ s) =
    let rest = is_email true s in
    if eqb (code c) b'@' then seen && is_domain s else not (is_space (code c)) && rest

-- validateFormat, as whether the value passes
unfoldable pub has_format : Host → String → Value → Bool
has_format host format (text s) =
    if format == "email"
    then host.parses_address s || is_email false s
    else if format == "url"
    then is_url s
    else if format == "phone"
    then is_phone s
    else true
has_format host format _ = true

-- validateOptions, as whether the value passes
unfoldable pub is_option : Host → List String → Value → Bool
is_option host options v = any (λ (option : String). equal_fold option (host.show v)) options

unfoldable pub passes_validator : Host → Context → Field → Value → Bool
passes_validator host ctx f v =
    if f.validator_name == ""
    then true
    else elim (host.validators f.validator_name) [ none ↦ true | some check ↦ check ctx f v ]

is_child_table : FieldType → Bool
is_child_table t = elim (FieldType-discrete t child_table) [ yes _ ↦ true | no _ ↦ false ]

-- the fields that validateFields passes over
unfoldable pub is_unchecked : Field → Bool
unfolding is_child_table
is_unchecked f = is_system_field f.db_column || is_child_table f.type

abbrev pub is_missing : Option Value → Bool
is_missing none = true
is_missing (some v) = is_zero v

abbrev value_passes : Host → Context → Field → Option Value → Bool
value_passes host ctx f none = true
value_passes host ctx f (some v) =
    is_zero v
    || (f.format == "" || has_format host f.format v)
      && (is_empty f.options || is_option host f.options v)
      && passes_validator host ctx f v

-- whether the loop of validateFields adds nothing to the details for a field
unfoldable pub field_passes : Host → Context → Bool → Row → Field → Bool
field_passes host ctx is_update row f =
    is_unchecked f
    || not (not is_update && f.required && is_missing (field_value row f))
      && value_passes host ctx f (field_value row f)

unfoldable pub fields_pass : Host → Context → Bool → Row → List Field → Bool
fields_pass host ctx is_update row [] = true
fields_pass host ctx is_update row (f ∷ fs) =
    field_passes host ctx is_update row f && fields_pass host ctx is_update row fs

unfoldable pub validate_fields : Host → Context → CompiledDoc → Row → Bool → Result (Unit {0})
validate_fields host ctx compiled row is_update =
    if fields_pass host ctx is_update row compiled.fields then ok tt else fail validation

abbrev set_default : String → Value → Row → Row
set_default k v row = if has_key k row then row else insert k v row

abbrev with_id : String → Row → Row
with_id fresh row = elim (lookup "id" row) [
  | some (text id) ↦ if id == "" then insert "id" (text fresh) row else row
  | _ ↦ insert "id" (text fresh) row
]

-- buildInsertRow, with what the ULID generator and the clock answer
unfoldable pub build_insert_row : String → ℕ → CompiledDoc → Row → Row
build_insert_row fresh now compiled row =
    let stamped =
      insert "updated_at" (time now) (set_default "created_at" (time now) (with_id fresh row)) in
    let kept = set_default "deleted" (bool false) stamped in
    if compiled.submittable then set_default "doc_status" (int (pos 0)) kept else kept

-- buildUpdateRow
unfoldable pub build_update_row : ℕ → Row → Row
build_update_row now row = insert "updated_at" (time now) row
