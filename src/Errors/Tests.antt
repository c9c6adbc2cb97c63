-- ===== src/Errors/Tests.antt =====
-- Tests of errors/errors.go.
use orjanda.Prelude.{◌≡◌, refl, some, none, true, false}
use orjanda.Errors.{
  Error, coded, caused, plain, wrapped, validation, permission, conflict, not_found, http_status,
  as_error, is_code,
}

abbrev denied : Error
denied = wrapped (wrapped (caused permission (coded conflict)))

tests :
    (as_error denied ≡ some (caused permission (coded conflict)))
    × (as_error (wrapped plain) ≡ none)
    × (is_code conflict denied ≡ true)
    × (is_code validation denied ≡ false)
    × (http_status not_found ≡ 404)
unfolding as_error is_code http_status
tests = (refl, refl, refl, refl, refl)
