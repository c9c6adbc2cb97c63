-- ===== src/Dal.antt =====
-- dal/dal.go: what the engines ask of a database, and their operations as functions on the world: the
-- database's state and the entries of an in-memory audit log (audit/audit.go).

pub mod Atomic
pub mod Chains
pub mod Memory
pub mod Guarded
pub mod Migrator
use orjanda.Prelude.{ℕ, String, Bool, true, false, List, [], ◌∷◌, ◌++◌, Option, none, some}
use orjanda.Prelude.Int.{ℤ}
use orjanda.Errors.{Error, Result, ok, err}
use orjanda.Value.{Row}
use orjanda.Audit.{Entry, write}

pub record Select : Type 0 where
  pub doc_type : String
  pub table_name : String
  pub fields : List String
  pub filters : Row
  pub ids : List String
  pub order_by : String
  pub limit : ℤ
  pub offset : ℤ
  pub include_deleted : Bool

-- the rows of a table with an id
abbrev pub by_id : String → String → Row → Select
by_id doc_type table_name filters = record {
  doc_type = doc_type;
  table_name = table_name;
  fields = [];
  filters = filters;
  ids = [];
  order_by = "";
  limit = ℤ.pos 0;
  offset = ℤ.pos 0;
  include_deleted = false;
}

-- Database and Tx, on the states `S` of a database. `begin` and `commit` are what the drivers of
-- dal/dialect ask of the database around the function that Transaction is given.
pub record Database (S : Type 0) : Type 0 where
  pub query : S → Select → Result (List Row)
  pub insert : S → String → Row → Result (S × String)
  pub update : S → String → String → Row → Result S
  pub begin : S → Result S
  pub commit : S → Result S

pub record World (S : Type 0) : Type 0 where
  pub db : S
  pub entries : List Entry

-- A method that may fail, and what it leaves of the world.
abbrev pub Op : Type 0 → Type 0 → Type 0
Op S A = World S → Result A × World S

module _ {S : Type 0} {A : Type 0} {B : Type 0} where
  abbrev pub go_on : Result A × World S → (A → Op S B) → Result B × World S
  go_on (err e, w) next = (err e, w)
  go_on (ok a, w) next = next a w

  infixl 5 ◌>>=◌ ◌>>◌
  unfoldable pub ◌>>=◌ : Op S A → (A → Op S B) → Op S B
  (op >>= next) w = go_on (op w) next

  unfoldable pub ◌>>◌ : Op S A → Op S B → Op S B
  (op >> next) w = go_on (op w) (λ a. next)

module _ {S : Type 0} where
  unfoldable pub lift : {A : Type 0} → Result A → Op S A
  lift r w = (r, w)

  unfoldable pub return : {A : Type 0} → A → Op S A
  return a w = (ok a, w)

  abbrev with_db : World S → Result (S × String) → Result String × World S
  with_db w (err e) = (err e, w)
  with_db w (ok (s, id)) = (ok id, record w { db = s })

  abbrev with_state : World S → Result S → Result (Unit {0}) × World S
  with_state w (err e) = (err e, w)
  with_state w (ok s) = (ok tt, record w { db = s })

  unfoldable pub query : Database S → Select → Op S (List Row)
  query d q w = (d.query w.db q, w)

  unfoldable pub insert_row : Database S → String → Row → Op S String
  insert_row d doc_type row w = with_db w (d.insert w.db doc_type row)

  unfoldable pub update_row : Database S → String → String → Row → Op S (Unit {0})
  update_row d doc_type id row w = with_state w (d.update w.db doc_type id row)

  abbrev close : {A : Type 0} → S → A → World S → Result S → Result A × World S
  close before a w (err e) = (err e, record w { db = before })
  close before a w (ok s) = (ok a, record w { db = s })

  -- after the function of a transaction: the commit, or the rollback
  abbrev pub settle : {A : Type 0} → Database S → S → Result A × World S → Result A × World S
  settle d before (err e, w) = (err e, record w { db = before })
  settle d before (ok a, w) = close before a w (d.commit w.db)

  abbrev run_begun : {A : Type 0} → Database S → Op S A → World S → Result S → Result A × World S
  run_begun d op w (err e) = (err e, w)
  run_begun d op w (ok s) = settle d w.db (op (record w { db = s }))

  -- Transaction
  unfoldable pub transaction : {A : Type 0} → Database S → Op S A → Op S A
  transaction d op w = run_begun d op w (d.begin w.db)

-- The audit logs: that of the process, and that of the database with the row that it makes of an entry.
pub data Log : Type 0 where
  memory_log : Log
  db_log : (Entry → Row) → Log

abbrev audit_type : String
audit_type = "audit"

module _ {S : Type 0} where
  abbrev append_entry : ℕ → String → Entry → Op S (Unit {0})
  append_entry now fresh e w =
      let (done, entries) = write now fresh e w.entries in (done, record w { entries = entries })

  -- WriteInTx
  unfoldable pub write_in_tx : Database S → Log → ℕ → String → Entry → Op S (Unit {0})
  write_in_tx d memory_log now fresh e = append_entry now fresh e
  write_in_tx d (db_log entry_row) now fresh e = do
    id ← insert_row d audit_type (entry_row e)
    return tt
