-- ===== src/Safety/Rate.antt =====
-- CheckRateLimit of agent/safety/safety.go. The JSON text of the stamps in the cache is modelled by
-- the stamps, and the cache's clock is the caller's.
use orjanda.Prelude.{
  ℕ, ◌+◌, String, Bool, not, ◌&&◌, ◌==◌, List, [], ◌∷◌, ◌++◌, Option, none, some, length, keep,
  if◌then◌else◌, ltb,
}
use Prim.Native.Nat.{◌/◌}
use Prim.Native.String.{◌++◌ as ◌+++◌}
use orjanda.Prelude.Int.{ℤ, pos, leb_ℤ}
use orjanda.Errors.{Result, ok, fail, validation}
use orjanda.Auth.{Identity, Context}
use orjanda.Cache.{Store, get, set}
use orjanda.Safety.{Layer}

-- time.Minute
abbrev pub minute : ℕ
minute = 60000000000

-- UnixMilli
unfoldable pub milli : ℕ → ℕ
milli now = now / 1000000

-- `ts > cutoff`, with the minute on the other side
unfoldable pub is_recent : ℕ → ℕ → Bool
is_recent now ts = ltb (milli now) (ts + 60000)

unfoldable pub recent : ℕ → List ℕ → List ℕ
recent now stamps = keep (is_recent now) stamps

unfoldable pub key_id : Layer → Context → Identity → String
key_id l ctx id =
    if l.policy.rate_limit.scope == "session" && not (ctx.session == "")
    then ctx.session
    else id.user_id

unfoldable pub rate_key : Layer → Context → Identity → String
rate_key l ctx id = "ratelimit:" +++ (l.policy.rate_limit.scope +++ (":" +++ key_id l ctx id))

abbrev pub stamps_of : Option (List ℕ) → List ℕ
stamps_of none = []
stamps_of (some stamps) = stamps

unfoldable pub throttle : ℤ → ℕ → String → Store (List ℕ) → Result (Unit {0}) × Store (List ℕ)
throttle limit now key s =
    let (found, seen) = get now key s in
    let valid = recent now (stamps_of found) in
    if leb_ℤ limit (pos (length valid))
    then (fail validation, seen)
    else (ok tt, set now key (valid ++ milli now ∷ []) minute seen)

-- whether the calls of the caller are counted at all
unfoldable pub is_limited : Layer → Context → Identity → Bool
is_limited l ctx id =
    not (leb_ℤ l.policy.rate_limit.operations_per_minute (pos 0)) && not (key_id l ctx id == "")

abbrev limit_in :
    Layer → ℕ → Context → Identity → Store (List ℕ) → Result (Unit {0}) × Store (List ℕ)
limit_in l now ctx id s =
    if is_limited l ctx id
    then throttle l.policy.rate_limit.operations_per_minute now (rate_key l ctx id) s
    else (ok tt, s)

unfoldable pub check_rate_limit :
    Layer
    → ℕ
    → Context
    → Identity
    → Option (Store (List ℕ))
    → Result (Unit {0}) × Option (Store (List ℕ))
check_rate_limit l now ctx id none = (ok tt, none)
check_rate_limit l now ctx id (some s) =
    let (result, after) = limit_in l now ctx id s in (result, some after)
