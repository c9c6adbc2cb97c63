-- ===== src/Errors.antt =====
-- errors/errors.go: error codes, their HTTP statuses, and the search for a coded error along the
-- chain of wrapped ones. Messages, details and the text of `Error()` are left out.
mod Tests
pub mod Laws
use orjanda.Prelude.{ℕ, Bool, true, false, ◌||◌, Option, none, some, ◌≡◌, refl, ◌⊎◌, inl, inr}

pub data ErrorCode : Type 0 where
  validation auth permission not_found conflict internal : ErrorCode

ErrorCode-discrete : Discrete ErrorCode
ErrorCode-discrete = hlevel

-- An `error` of Go: one of the framework's, with its code and the cause that it wraps; one of
-- another package; and one of another package that wraps a further error.
pub data Error : Type 0 where
  coded : ErrorCode → Error
  caused : ErrorCode → Error → Error
  plain : Error
  wrapped : Error → Error

-- the numbers are those of net/http
unfoldable pub http_status : ErrorCode → ℕ
http_status validation = 400
http_status auth = 401
http_status permission = 403
http_status not_found = 404
http_status conflict = 409
http_status internal = 500

unfoldable pub wrap : ErrorCode → Error → Error
wrap code cause = caused code cause

-- `As`: the framework error that `err` is, or the first one along its `Unwrap` chain
unfoldable pub as_error : Error → Option Error
as_error (coded c) = some (coded c)
as_error (caused c cause) = some (caused c cause)
as_error plain = none
as_error (wrapped e) = as_error e

unfoldable pub unwrap : Error → Option Error
unwrap (coded c) = none
unwrap (caused c cause) = some cause
unwrap plain = none
unwrap (wrapped e) = some e

-- `Code()`, of the framework's errors
unfoldable pub code : Error → Option ErrorCode
code (coded c) = some c
code (caused c cause) = some c
code plain = none
code (wrapped e) = none

same_code : ErrorCode → ErrorCode → Bool
unfolding ErrorCode-discrete
same_code c d = elim (ErrorCode-discrete c d) [ yes _ ↦ true | no _ ↦ false ]

-- `errors.Is(err, target)` for a sentinel of the given code: the chain is walked by `Unwrap`, and
-- each framework error on it answers by its own `Is`, which compares codes
unfoldable pub is_code : ErrorCode → Error → Bool
unfolding same_code
is_code c (coded d) = same_code d c
is_code c (caused d cause) = let rest = is_code c cause in same_code d c || rest
is_code c plain = false
is_code c (wrapped e) = is_code c e

-- What a function with the result type `(T, error)` or `error` returns.
pub data Result {ℓ} (T : Type ℓ) : Type ℓ where
  err : Error → Result T
  ok : T → Result T

infixl 5 ◌>>=◌ ◌>>◌
-- `if err != nil { return err }`, and on with the value
abbrev pub ◌>>=◌ {ℓ κ} : {S : Type ℓ} {T : Type κ} → Result S → (S → Result T) → Result T
err stop >>= next = err stop
ok value >>= next = next value

abbrev pub ◌>>◌ {κ} : {T : Type κ} → Result (Unit {0}) → Result T → Result T
check >> next = check >>= λ done. next

abbrev pub fail {ℓ} : {T : Type ℓ} → ErrorCode → Result T
fail c = err (coded c)

module _ {ℓ κ} {S : Type ℓ} {T : Type κ} where
  -- A chain that succeeded has a first step that did.
  pub bind-ok :
      (first : Result S) (next : S → Result T) {t : T}
      → (first >>= next) ≡ ok t
      → (s : S) × (first ≡ ok s) × (next s ≡ ok t)
  bind-ok (err stop) next h = cc
  bind-ok (ok s) next h = (s, refl, h)

module _ {ℓ} {T : Type ℓ} where
  pub Result-cases : (r : Result T) → ((e : Error) × (r ≡ err e)) ⊎ ((t : T) × (r ≡ ok t))
  Result-cases (err e) = inl (e, refl)
  Result-cases (ok t) = inr (t, refl)
