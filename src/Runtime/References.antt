-- ===== src/Runtime/References.antt =====
-- resolveRefs of agent/runtime/plan.go: the arguments of a step that come from the results of earlier
-- ones, and what plan execution takes from elsewhere.
use orjanda.Prelude.{
  ℕ, zero, suc, ◌+◌, ◌*◌, ◌-◌, String, ◌==◌, List, [], ◌∷◌, Option, none, some, is_empty,
  if◌then◌else◌, has_prefix, is_digit, eqb,
}
use Prim.Native.Char.{code}
use Prim.Native.String.{◌∷◌ as ◌∷ᶜ◌, [] as []ᶜ}
use orjanda.Prelude.Int.{ℤ, pos, negsuc, eqb_ℤ}
use orjanda.Errors.{Result, Error, ok, err, plain, ◌>>=◌}
use orjanda.Value.{Value, Fields, Row, text, end, field}
use orjanda.Runtime.{Observation}

-- What plan execution takes from elsewhere: the text of fmt for a value, what a field of an
-- observation's text is, by package json, the texts of observations, errors and arguments, and the id
-- of the call of a step.
pub record Host : Type 0 where
  pub show : Value → String
  pub extract : Observation → String → Result Value
  pub text_of : Observation → String
  pub error_text : Error → String
  pub marshal_args : Row → String
  pub call_id : ℕ → String

abbrev pub Results : Type 0
Results = List (ℕ × Observation)

abbrev result_at : ℤ → Results → Option Observation
result_at i [] = none
result_at i ((j, obs) ∷ results) = if eqb_ℤ (pos j) i then some obs else result_at i results

abbrev pub fields_of : Row → Fields
fields_of [] = end
fields_of ((k, v) ∷ row) = field k v (fields_of row)

-- the digits of a number, after those that were read
unfoldable pub read_digits : ℕ → String → Option ℕ
read_digits n []ᶜ = some n
read_digits n (c ∷ᶜ s) =
    let rest = read_digits (n * 10 + (code c - b'0')) s in if is_digit (code c) then rest else none

abbrev as_negative : Option ℕ → Option ℤ
as_negative none = none
as_negative (some zero) = some (pos zero)
as_negative (some (suc n)) = some (negsuc n)

abbrev as_positive : Option ℕ → Option ℤ
as_positive none = none
as_positive (some n) = some (pos n)

abbrev digits_of : String → Option ℕ
digits_of s = if s == "" then none else read_digits 0 s

-- strconv.Atoi, without the bound of 64 bits
unfoldable pub parse_int : String → Option ℤ
parse_int []ᶜ = none
parse_int (c ∷ᶜ s) =
    if eqb (code c) b'-'
    then as_negative (digits_of s)
    else if eqb (code c) b'+'
    then as_positive (digits_of s)
    else as_positive (digits_of (c ∷ᶜ s))

abbrev drop_chars : ℕ → String → String
drop_chars zero s = s
drop_chars (suc n) []ᶜ = []ᶜ
drop_chars (suc n) (c ∷ᶜ s) = drop_chars n s

-- what stands before the first dot, and what after it
unfoldable pub split_dot : String → String × String
split_dot []ᶜ = ([]ᶜ, []ᶜ)
split_dot (c ∷ᶜ s) =
    let (index, rest) = split_dot s in if eqb (code c) b'.' then ([]ᶜ, s) else (c ∷ᶜ index, rest)

abbrev extract_from : Host → String → Option Observation → Result Value
extract_from host name none = err plain
extract_from host name (some obs) = host.extract obs name

abbrev resolve_index : Host → Results → String → Option ℤ → Result Value
resolve_index host results name none = err plain
resolve_index host results name (some i) = extract_from host name (result_at i results)

unfoldable pub resolve_value : Host → Results → Value → Result Value
resolve_value host results (text s) =
    let (index, name) = split_dot (drop_chars 4 s) in
    if has_prefix s "ref:" then resolve_index host results name (parse_int index) else ok (text s)
resolve_value host results v = ok v

-- the loop of resolveRefs
unfoldable pub resolve_loop : Host → Results → Row → Result Row
resolve_loop host results [] = ok []
resolve_loop host results ((k, v) ∷ args) = resolve_value host results v >>= λ resolved.
    resolve_loop host results args >>= λ rest. ok ((k, resolved) ∷ rest)

unfoldable pub resolve_refs : Host → Results → Row → Result Row
resolve_refs host results args =
    if is_empty results then ok args else resolve_loop host results args
