-- ===== src/Event.antt =====
-- event/bus.go: the event bus. A handler may change the document, a map that it shares with the
-- caller and the handlers after it, and answers an error to abort; what it does elsewhere is left out.
pub mod Order
mod Tests
use orjanda.Prelude.{
  String, Bool, true, false, ◌&&◌, ◌==◌, List, [], ◌∷◌, ◌++◌, Option, none, some, if◌then◌else◌,
}
use orjanda.Errors.{Error, Result, ok, err, validation, as_error, wrap, ◌>>=◌}
use orjanda.Value.{Row}
use orjanda.Auth.{Context}

-- A handler answers the document as it leaves it.
abbrev pub Handler : Type 0
Handler = Context → Row → Result Row

pub record Registration : Type 0 where
  pub doc_type : String
  pub event_name : String
  pub handler : Handler

pub record Bus : Type 0 where
  pub handlers : List Registration

unfoldable pub new_bus : Bus
new_bus = record { handlers = [] }

unfoldable pub on : Bus → String → String → Handler → Bus
on b doc_type event_name h = record {
  handlers =
      b.handlers ++ record { doc_type = doc_type; event_name = event_name; handler = h } ∷ [];
}

-- the first loop of Emit
unfoldable pub handlers_for : String → String → List Registration → List Handler
handlers_for doc_type event_name [] = []
handlers_for doc_type event_name (r ∷ rs) =
    let rest = handlers_for doc_type event_name rs in
    if r.doc_type == doc_type && r.event_name == event_name then r.handler ∷ rest else rest

abbrev pub or_wrapped : Option Error → Error → Error
or_wrapped (some found) e = found
or_wrapped none e = wrap validation e

-- an error that is not the framework's becomes a validation error with it as its cause
unfoldable pub as_framework : Error → Error
as_framework e = or_wrapped (as_error e) e

unfoldable pub surface : Result Row → Result Row
surface (ok doc) = ok doc
surface (err e) = err (as_framework e)

-- the second loop of Emit
unfoldable pub run_handlers : List Handler → Context → Row → Result Row
run_handlers [] ctx doc = ok doc
run_handlers (h ∷ hs) ctx doc = surface (h ctx doc) >>= run_handlers hs ctx

unfoldable pub emit : Bus → Context → String → String → Row → Result Row
emit b ctx doc_type event_name doc =
    run_handlers (handlers_for doc_type event_name b.handlers) ctx doc
