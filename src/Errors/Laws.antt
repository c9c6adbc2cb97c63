-- ===== src/Errors/Laws.antt =====
-- Laws of errors/errors.go.
use orjanda.Prelude.{◌≡◌, some, true, arith}
use orjanda.Errors.{
  ErrorCode, Error, coded, caused, plain, wrapped, http_status, as_error, is_code, code,
}

-- Two codes with the same HTTP status are the same code.
http_status_injective : (c d : ErrorCode) → http_status c ≡ http_status d → c ≡ d
unfolding http_status
http_status_injective c d h = ground arith

-- The framework error that `As` finds has a code, and `Is` accepts the sentinel of that code.
as_error-is_code :
    (e f : Error) (c : ErrorCode) → as_error e ≡ some f → code f ≡ some c → is_code c e ≡ true
unfolding as_error is_code code
as_error-is_code (coded d) f c h k = ground arith
as_error-is_code (caused d cause) f c h k = ground arith
as_error-is_code plain f c h k = cc
as_error-is_code (wrapped e) f c h k = as_error-is_code e f c h k
