-- ===== src/Event/Tests.antt =====
-- event/bus.go with two handlers on one event.
use orjanda.Prelude.{[], ◌∷◌, insert, lookup, ◌≡◌, refl}
use orjanda.Errors.{ok, err, plain, caused, validation, as_error, wrap, ◌>>=◌}
use orjanda.Value.{text}
use orjanda.Auth.{background}
use orjanda.Event.{
  Handler, Bus, new_bus, on, handlers_for, as_framework, surface, run_handlers, emit,
}
use orjanda.Event.Order.{emit-on}

engine : Unit {0}
unfolding new_bus on handlers_for as_framework surface run_handlers emit as_error wrap insert lookup
engine = tt

abbrev titled : Handler
titled ctx doc = ok (insert "title" (text "T") doc)

abbrev refusing : Handler
refusing ctx doc = err plain

abbrev bus : Bus
bus = on (on new_bus "Leave" "before_save" titled) "Leave" "after_save" refusing

saved : emit bus background "Leave" "before_save" [] ≡ ok (("title", text "T") ∷ [])
unfolding engine
saved = refl

refused : emit bus background "Leave" "after_save" [] ≡ err (caused validation plain)
unfolding engine
refused = refl

emit-on_example :
    emit (on bus "Leave" "before_save" refusing) background "Leave" "before_save" [] ≡ (
      emit bus background "Leave" "before_save" [] >>= (λ left. surface (refusing background left)))
emit-on_example = emit-on bus "Leave" "before_save" refusing background "Leave" "before_save" []
