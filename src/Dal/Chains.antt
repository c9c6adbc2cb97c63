-- ===== src/Dal/Chains.antt =====
-- What a chain of methods (dal/dal.go) that succeeded did, step by step.
use orjanda.Prelude.{◌≡◌, refl, sym, ◌∙◌, ap, String, List}
use orjanda.Errors.{Result, ok, err}
use orjanda.Value.{Row}
use orjanda.Dal.{
  Select, Database, World, Op, go_on, ◌>>=◌, ◌>>◌, lift, query, insert_row, update_row, settle,
  transaction, run_begun, close, with_db, with_state,
}
use orjanda.Dal.Atomic.{IsReading}

module _ {S : Type 0} {A : Type 0} {B : Type 0} where
  -- A chain that succeeded has a first step that did.
  pub bind-ok :
      (op : Op S A) (next : A → Op S B) (w : World S) {b : B}
      → ((op >>= next) w).0 ≡ ok b
      → (a : A) × ((op w).0 ≡ ok a)
        × (((op >>= next) w) ≡ next a (op w).1)
        × ((next a (op w).1).0 ≡ ok b)
  unfolding ◌>>=◌
  bind-ok op next w {b} h = go (op w) h
    where
      go :
          (p : Result A × World S)
          → (go_on p next).0 ≡ ok b
          → (a : A) × (p.0 ≡ ok a) × (go_on p next ≡ next a p.1) × ((next a p.1).0 ≡ ok b)
      go (err f, x) k = cc
      go (ok a, x) k = (a, refl, refl, k)

-- What a transaction that succeeded did: it began, its function succeeded, and the state was committed.
pub record Committed {S : Type 0} {A : Type 0} (d : Database S) (op : Op S A) (w : World S) (a : A)
    : Type 0 where
  pub started : S
  pub began : d.begin w.db ≡ ok started
  pub ran : (op (record w { db = started })).0 ≡ ok a
  pub committed : d.commit (op (record w { db = started })).1.db ≡ ok (transaction d op w).1.db

module _ {S : Type 0} {A : Type 0} where
  pub transaction-Committed :
      (d : Database S) (op : Op S A) (w : World S) (a : A)
      → (transaction d op w).0 ≡ ok a
      → Committed d op w a
  unfolding transaction
  transaction-Committed d op w a h = begun (d.begin w.db) refl h
    where
      ended :
          (s : S) (b : A) (x : World S) (r : Result S)
          → (close w.db b x r).0 ≡ ok a
          → (b ≡ a) × (r ≡ ok (close w.db b x r).1.db)
      ended s b x (err f) k = cc
      ended s b x (ok t) k = (cc, refl)

      settled :
          (s : S) (p : Result A × World S)
          → (settle d w.db p).0 ≡ ok a
          → (p.0 ≡ ok a) × (d.commit p.1.db ≡ ok (settle d w.db p).1.db)
      settled s (err f, x) k = cc
      settled s (ok b, x) k = let (same, shut) = ended s b x (d.commit x.db) k in (ap ok same, shut)

      begun : (r : Result S) → d.begin w.db ≡ r → (run_begun d op w r).0 ≡ ok a → Committed d op w a
      begun (err f) at k = cc
      begun (ok s) at k =
          let (ran, shut) = settled s (op (record w { db = s })) k in
          record {
            started = s;
            began = at;
            ran = ran;
            committed = shut ∙ ap (λ (r : Result S). ok (run_begun d op w r).1.db) (sym at);
          }

module _ {S : Type 0} {A : Type 0} {B : Type 0} where
  pub then-ok :
      (op : Op S A) (next : Op S B) (w : World S) {b : B}
      → ((op >> next) w).0 ≡ ok b
      → (a : A) × ((op w).0 ≡ ok a)
        × (((op >> next) w) ≡ next (op w).1)
        × ((next (op w).1).0 ≡ ok b)
  unfolding ◌>>◌
  then-ok op next w {b} h = go (op w) h
    where
      go :
          (p : Result A × World S)
          → (go_on p (λ a. next)).0 ≡ ok b
          → (a : A) × (p.0 ≡ ok a) × (go_on p (λ a. next) ≡ next p.1) × ((next p.1).0 ≡ ok b)
      go (err f, x) k = cc
      go (ok a, x) k = (a, refl, refl, k)

  -- The same, where the first step is a value or an error.
  pub lift-ok :
      (r : Result A) (next : A → Op S B) (w : World S) {b : B}
      → ((lift r >>= next) w).0 ≡ ok b
      → (a : A) × (r ≡ ok a) × ((lift r >>= next) w ≡ next a w) × ((next a w).0 ≡ ok b)
  unfolding lift
  lift-ok r next w {b} h = bind-ok (lift r) next w h

  pub lift_then-ok :
      (r : Result A) (next : Op S B) (w : World S) {b : B}
      → ((lift r >> next) w).0 ≡ ok b
      → (a : A) × (r ≡ ok a) × ((lift r >> next) w ≡ next w) × ((next w).0 ≡ ok b)
  unfolding lift
  lift_then-ok r next w {b} h = then-ok (lift r) next w h

module _ {S : Type 0} {B : Type 0} where
  pub query-ok :
      (d : Database S) (q : Select) (next : List Row → Op S B) (w : World S) {b : B}
      → ((query d q >>= next) w).0 ≡ ok b
      → (rows : List Row) × (d.query w.db q ≡ ok rows)
        × ((query d q >>= next) w ≡ next rows w)
        × ((next rows w).0 ≡ ok b)
  unfolding query
  query-ok d q next w {b} h = bind-ok (query d q) next w h

  pub update_row-ok :
      (d : Database S) (doc_type id : String) (row : Row) (next : Op S B) (w : World S) {b : B}
      → ((update_row d doc_type id row >> next) w).0 ≡ ok b
      → (s : S) × (d.update w.db doc_type id row ≡ ok s)
        × ((update_row d doc_type id row >> next) w ≡ next (record w { db = s }))
        × ((next (record w { db = s })).0 ≡ ok b)
  unfolding update_row ◌>>◌
  update_row-ok d doc_type id row next w {b} h = go (d.update w.db doc_type id row) h
    where
      go :
          (r : Result S)
          → (go_on (with_state w r) (λ a. next)).0 ≡ ok b
          → (s : S) × (r ≡ ok s)
            × (go_on (with_state w r) (λ a. next) ≡ next (record w { db = s }))
            × ((next (record w { db = s })).0 ≡ ok b)
      go (err f) k = cc
      go (ok s) k = (s, refl, refl, k)

  pub insert_row-ok :
      (d : Database S) (doc_type : String) (row : Row) (next : String → Op S B) (w : World S)
      {b : B}
      → ((insert_row d doc_type row >>= next) w).0 ≡ ok b
      → (s : S) × (id : String) × (d.insert w.db doc_type row ≡ ok (s, id))
        × ((insert_row d doc_type row >>= next) w ≡ next id (record w { db = s }))
        × ((next id (record w { db = s })).0 ≡ ok b)
  unfolding insert_row ◌>>=◌
  insert_row-ok d doc_type row next w {b} h = go (d.insert w.db doc_type row) h
    where
      go :
          (r : Result (S × String))
          → (go_on (with_db w r) next).0 ≡ ok b
          → (s : S) × (id : String) × (r ≡ ok (s, id))
            × (go_on (with_db w r) next ≡ next id (record w { db = s }))
            × ((next id (record w { db = s })).0 ≡ ok b)
      go (err f) k = cc
      go (ok (s, id)) k = (s, id, refl, refl, k)

module _ {S : Type 0} {A : Type 0} {B : Type 0} where
  -- A first step that changes nothing hands the world on.
  pub reading_then-ok :
      (op : Op S A) (next : Op S B) (w : World S) {b : B}
      → IsReading op
      → ((op >> next) w).0 ≡ ok b
      → (a : A) × ((op w).0 ≡ ok a) × ((op >> next) w ≡ next w) × ((next w).0 ≡ ok b)
  reading_then-ok op next w {b} r h =
      let (a, done, same, h1) = then-ok op next w h in
      (a, done, same ∙ ap next (r w), sym (ap (λ (x : World S). (next x).0) (r w)) ∙ h1)
