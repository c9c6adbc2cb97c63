-- ===== src/Event/Order.antt =====
-- In which order the handlers of event/bus.go run, and with which errors they stop.
use orjanda.Prelude.{
  String, ◌&&◌, ◌==◌, List, [], ◌∷◌, ◌++◌, Option, none, some, if◌then◌else◌, ◌≡◌, refl, sym, subst,
  ◌∙◌, ap, inl, inr, Bool-cases,
}
use orjanda.Errors.{
  Result-cases, Error, Result, ok, err, as_error, wrap, ◌>>=◌, coded, caused, plain, wrapped,
}
use orjanda.Value.{Row}
use orjanda.Auth.{Context}
use orjanda.Event.{
  Handler, Registration, Bus, on, handlers_for, or_wrapped, as_framework, surface, run_handlers,
  emit,
}

bind_assoc :
    {A B C : Type 0} (r : Result A) (f : A → Result B) (g : B → Result C)
    → ((r >>= f) >>= g) ≡ (r >>= λ a. (f a >>= g))
bind_assoc (err e) f g = refl
bind_assoc (ok a) f g = refl

bind_ok : {A : Type 0} (r : Result A) → (r >>= ok) ≡ r
bind_ok (err e) = refl
bind_ok (ok a) = refl

handlers_for-append :
    (doc_type event_name : String) (rs ts : List Registration)
    → handlers_for doc_type event_name (rs ++ ts)
      ≡ handlers_for doc_type event_name rs ++ handlers_for doc_type event_name ts
unfolding handlers_for
handlers_for-append doc_type event_name [] ts = refl
handlers_for-append doc_type event_name (r ∷ rs) ts =
    let later = handlers_for-append doc_type event_name rs ts in
    elim (Bool-cases (r.doc_type == doc_type && r.event_name == event_name)) [
      | inl own ↦ rw own (ap (λ (hs : List Handler). r.handler ∷ hs) later)
      | inr other ↦ rw other later
    ]

run_handlers-append :
    (hs ks : List Handler) (ctx : Context) (doc : Row)
    → run_handlers (hs ++ ks) ctx doc ≡ (run_handlers hs ctx doc >>= run_handlers ks ctx)
unfolding run_handlers
run_handlers-append [] ks ctx doc = refl
run_handlers-append (h ∷ hs) ks ctx doc =
    ap (λ (next : Row → Result Row). surface (h ctx doc) >>= next)
      (λ i left. run_handlers-append hs ks ctx left i)
    ∙ sym (bind_assoc (surface (h ctx doc)) (run_handlers hs ctx) (run_handlers ks ctx))

-- A handler that is registered runs after those that were, on the document as they left it, if they
-- succeeded, and only for its own document type and event.
pub emit-on :
    (b : Bus) (doc_type event_name : String) (h : Handler) (ctx : Context) (asked happened : String)
    (doc : Row)
    → emit (on b doc_type event_name h) ctx asked happened doc ≡ (
        if doc_type == asked && event_name == happened
        then emit b ctx asked happened doc >>= (λ left. surface (h ctx left))
        else emit b ctx asked happened doc)
unfolding emit on handlers_for run_handlers
emit-on b doc_type event_name h ctx asked happened doc =
    rw (handlers_for-append asked happened b.handlers (added ∷ [])) (
      rw
        (run_handlers-append (handlers_for asked happened b.handlers)
          (handlers_for asked happened (added ∷ [])) ctx doc)
        (elim (Bool-cases (doc_type == asked && event_name == happened)) [
          | inl own ↦ rw own (
              ap (λ (next : Row → Result Row). emit b ctx asked happened doc >>= next)
                (λ i left. bind_ok (surface (h ctx left)) i))
          | inr other ↦ rw other (bind_ok (emit b ctx asked happened doc))
        ]))
  where
    added : Registration
    added = record { doc_type = doc_type; event_name = event_name; handler = h }

as_error_self : (e : Error) {f : Error} → as_error e ≡ some f → as_error f ≡ some f
unfolding as_error
as_error_self (coded c) {f} h =
    let same : coded c ≡ f = cc in subst (λ (x : Error). as_error x ≡ some x) same refl
as_error_self (caused c e) {f} h =
    let same : caused c e ≡ f = cc in subst (λ (x : Error). as_error x ≡ some x) same refl
as_error_self plain h = cc
as_error_self (wrapped e) {f} h = as_error_self e {f = f} h

as_framework_self : (e : Error) → as_error (as_framework e) ≡ some (as_framework e)
unfolding as_framework wrap as_error
as_framework_self e = go (as_error e) refl
  where
    go : (o : Option Error) → as_error e ≡ o → as_error (or_wrapped o e) ≡ some (or_wrapped o e)
    go none foreign = refl
    go (some f) found = as_error_self e found

run_handlers-as_error :
    (hs : List Handler) (ctx : Context) (doc : Row) {e : Error}
    → run_handlers hs ctx doc ≡ err e
    → as_error e ≡ some e
unfolding run_handlers surface
run_handlers-as_error [] ctx doc h = cc
run_handlers-as_error (k ∷ ks) ctx doc {e} h = elim (Result-cases (k ctx doc)) [
  | inl (x, failed) ↦
      let same : as_framework x ≡ e = cc in
      subst (λ (y : Error). as_error y ≡ some y) same (as_framework_self x)
  | inr (left, passed) ↦
      run_handlers-as_error ks ctx left {e = e}
        (sym (ap (λ (r : Result Row). surface r >>= run_handlers ks ctx) passed) ∙ h)
]

-- An error that an emission ends with is one of the framework's own.
pub emit-as_error :
    (b : Bus) (ctx : Context) (doc_type event_name : String) (doc : Row) {e : Error}
    → emit b ctx doc_type event_name doc ≡ err e
    → as_error e ≡ some e
unfolding emit
emit-as_error b ctx doc_type event_name doc h =
    run_handlers-as_error (handlers_for doc_type event_name b.handlers) ctx doc h
