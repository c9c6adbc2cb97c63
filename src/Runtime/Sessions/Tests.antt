-- ===== src/Runtime/Sessions/Tests.antt =====
-- Runs of the SessionManager of agent/runtime/session.go.
use orjanda.Prelude.{List, [], ◌∷◌, none, some, lookup, insert, delete, ◌≡◌, refl, arith}
use orjanda.Prelude.Int.{pos}
use orjanda.Auth.{no_identity}
use orjanda.Runtime.Sessions.{
  LiveSession, SessionManager, new_session_manager_with_ttl, new_session, is_expired, evict_if,
  evict_at, sweep, evict_expired, get_found, get, len, reset,
}
use orjanda.Runtime.Expiry.{fresh}
use orjanda.Runtime.Evictions.{
  Operation, new_at, get_at, evict_at_time, removal, answers, lazy_answers,
  new_session_manager-lazy_answers,
}

abbrev old : LiveSession
old = record { id = "a"; user_id = "ann"; last_access = 1 }

abbrev young : LiveSession
young = record { id = "b"; user_id = "ann"; last_access = 9 }

abbrev two : SessionManager
two = record { sessions = ("a", old) ∷ ("b", young) ∷ []; ttl = pos 5 }

one_evicted : evict_expired 10 two ≡ (1, record two { sessions = ("b", young) ∷ [] })
unfolding evict_expired sweep evict_at evict_if is_expired lookup delete
one_evicted = refl

young_found : (get 10 "b" two).0 ≡ some (record young { last_access = 10 })
unfolding get get_found is_expired lookup
young_found = refl

none_after_reset : len (reset two) ≡ 0
unfolding len reset
none_after_reset = refl

-- A session, used twice, swept, and asked for when it has expired.
abbrev day : List Operation
day =
    new_at "a" 1 1 no_identity
    ∷ get_at 4 "a"
    ∷ evict_at_time 8
    ∷ get_at 9 "a"
    ∷ get_at 20 "a"
    ∷ removal "a"
    ∷ []

day_answers : lazy_answers (pos 5) day [] ≡ (
    some (new_session "a" 1 no_identity)
    ∷ some (new_session "a" 4 no_identity)
    ∷ some (new_session "a" 9 no_identity)
    ∷ none
    ∷ [])
unfolding lazy_answers fresh is_expired new_session lookup insert
day_answers = refl

new_session_manager-lazy_answers_example :
    answers day (new_session_manager_with_ttl (pos 5)) ≡ lazy_answers (pos 5) day []
new_session_manager-lazy_answers_example =
    new_session_manager-lazy_answers (pos 5) day
      (omega arith, (omega arith, (omega arith, (omega arith, (omega arith, tt)))))
