-- ===== src/Runtime/Sessions.antt =====
-- The SessionManager of agent/runtime/session.go. A session is here what the manager reads of it; its
-- conversation is shared with the callers and not touched by the manager.
mod Tests
use orjanda.Prelude.{
  ℕ, zero, suc, ◌+◌, String, Bool, true, false, ◌&&◌, List, [], ◌∷◌, Option, none, some, Dict,
  lookup, insert, delete, if◌then◌else◌, ltb, length,
}
use orjanda.Prelude.Int.{ℤ, pos, negsuc}
use orjanda.Auth.{Identity}

pub record LiveSession : Type 0 where
  pub id : String
  pub user_id : String
  pub last_access : ℕ

pub record SessionManager : Type 0 where
  pub sessions : Dict LiveSession
  pub ttl : ℤ

unfoldable pub new_session_manager_with_ttl : ℤ → SessionManager
new_session_manager_with_ttl ttl = record { sessions = []; ttl = ttl }

-- newSession, at the time `made`
unfoldable pub new_session : String → ℕ → Identity → LiveSession
new_session ulid made id = record { id = ulid; user_id = id.user_id; last_access = made }

-- `now.Sub(s.lastAccess) > m.ttl`, with the last access on the other side
unfoldable pub is_expired : ℤ → LiveSession → ℕ → Bool
is_expired (pos ttl) s now = ltb zero ttl && ltb (s.last_access + ttl) now
is_expired (negsuc n) s now = false

abbrev pub is_positive : ℤ → Bool
is_positive (pos n) = ltb zero n
is_positive (negsuc n) = false

unfoldable pub evict_if : Bool → String → Dict LiveSession → ℕ × Dict LiveSession
evict_if expired id sessions = if expired then (suc zero, delete id sessions) else (zero, sessions)

unfoldable pub evict_at :
    ℤ → ℕ → String → Option LiveSession → Dict LiveSession → ℕ × Dict LiveSession
evict_at ttl now id none sessions = (zero, sessions)
evict_at ttl now id (some s) sessions = evict_if (is_expired ttl s now) id sessions

-- the loop over the keys that the map had at its start
unfoldable pub sweep : ℤ → ℕ → Dict LiveSession → Dict LiveSession → ℕ × Dict LiveSession
sweep ttl now [] sessions = (zero, sessions)
sweep ttl now ((id, at_start) ∷ entries) sessions =
    let (evicted, left) = evict_at ttl now id (lookup id sessions) sessions in
    let (more, rest) = sweep ttl now entries left in (evicted + more, rest)

-- evictExpiredLocked, which is EvictExpired at a reading of the clock; where the lifetime is not
-- positive it returns at once
unfoldable pub evict_expired : ℕ → SessionManager → ℕ × SessionManager
evict_expired now m =
    let (evicted, rest) = sweep m.ttl now m.sessions m.sessions in
    if is_positive m.ttl then (evicted, record m { sessions = rest }) else (zero, m)

-- New
unfoldable pub new : String → ℕ → ℕ → Identity → SessionManager → LiveSession × SessionManager
new ulid made now id m =
    let left = (evict_expired now m).1 in
    let s = new_session ulid made id in (s, record left { sessions = insert s.id s left.sessions })

unfoldable pub get_found :
    ℕ → String → Option LiveSession → SessionManager → Option LiveSession × SessionManager
get_found now id none m = (none, m)
get_found now id (some s) m =
    let touched : LiveSession = record s { last_access = now } in
    if is_expired m.ttl s now
    then (none, record m { sessions = delete id m.sessions })
    else (some touched, record m { sessions = insert id touched m.sessions })

-- Get
unfoldable pub get : ℕ → String → SessionManager → Option LiveSession × SessionManager
get now id m = get_found now id (lookup id m.sessions) m

-- Remove
unfoldable pub remove : String → SessionManager → SessionManager
remove id m = record m { sessions = delete id m.sessions }

-- Len
unfoldable pub len : SessionManager → ℕ
len m = length m.sessions

-- Reset
unfoldable pub reset : SessionManager → SessionManager
reset m = record m { sessions = [] }
