-- ===== src/Document/Atomic.antt =====
-- The methods of document/engine.go that fail leave the database as it was, and Read changes nothing.
use orjanda.Prelude.{
  String, Bool, true, false, not, ◌||◌, List, [], ◌∷◌, Option, none, some, if◌then◌else◌, refl,
}
use orjanda.Value.{Value, Row}
use orjanda.Auth.{Context}
use orjanda.Schema.{Field, CompiledDoc}
use orjanda.Dal.{Database, ◌>>=◌, return}
use orjanda.Dal.Atomic.{
  IsReading, IsAtomic, lift-IsReading, query-IsReading, bind-IsReading, then-IsReading,
  bind-IsAtomic, then-IsAtomic, transaction-IsAtomic,
}
use orjanda.Document.{field_value, is_missing}
use orjanda.Document.Engine.{
  Documents, Stamps, query_unique, taken_by, unique_loop, check_unique, store, create, read, save,
  update, mark_deleted, soft_delete,
}

module _ {S : Type 0} where
  return-IsReading : {A : Type 0} (a : A) → IsReading {S = S} (return a)
  unfolding return
  return-IsReading a w = refl

  query_unique-IsReading :
      (d : Database S) (compiled : CompiledDoc) (f : Field) (v : Value)
      → IsReading (query_unique d compiled f v)
  query_unique-IsReading d compiled f v w = refl

  taken_by-IsReading :
      (d : Database S) (compiled : CompiledDoc) (current : String) (f : Field) (o : Option Value)
      → IsReading (taken_by d compiled current f o)
  taken_by-IsReading d compiled current f none = return-IsReading false
  taken_by-IsReading d compiled current f (some v) =
      bind-IsReading _ _ (query_unique-IsReading d compiled f v) (λ rows. return-IsReading _)

  unique_loop-IsReading :
      (d : Database S) (compiled : CompiledDoc) (current : String) (row : Row) (fs : List Field)
      (taken : Bool)
      → IsReading (unique_loop d compiled current row fs taken)
  unfolding unique_loop
  unique_loop-IsReading d compiled current row [] taken = return-IsReading taken
  unique_loop-IsReading d compiled current row (f ∷ fs) taken =
      elim (not f.unique || is_missing (field_value row f))
        as (λ b. IsReading (
          if b
          then unique_loop d compiled current row fs taken
          else (taken_by d compiled current f (field_value row f) >>= λ hit.
              unique_loop d compiled current row fs (taken || hit)))) [
                | true ↦ unique_loop-IsReading d compiled current row fs taken
                | false ↦
                    bind-IsReading _ _ (taken_by-IsReading d compiled current f (field_value row f))
                      (λ hit. unique_loop-IsReading d compiled current row fs (taken || hit))
              ]

  pub check_unique-IsReading :
      (e : Documents S) (compiled : CompiledDoc) (current : String) (row : Row)
      → IsReading (check_unique e compiled current row)
  unfolding check_unique
  check_unique-IsReading e compiled current row =
      bind-IsReading _ _ (unique_loop-IsReading e.db compiled current row compiled.fields false)
        (λ taken. lift-IsReading _)

module _ {S : Type 0} (e : Documents S) (st : Stamps) (ctx : Context) (doc_type : String) where
  -- Where Create fails, the database is as it was.
  create-IsAtomic : (given : Row) → IsAtomic (create e st ctx doc_type given)
  unfolding create
  create-IsAtomic given = bind-IsAtomic _ _ (lift-IsReading _) (λ compiled.
      then-IsAtomic _ _ (lift-IsReading _) (
        bind-IsAtomic _ _ (lift-IsReading _) (λ filtered.
          bind-IsAtomic _ _ (lift-IsReading _) (λ row. then-IsAtomic _ _ (lift-IsReading _) (
            then-IsAtomic _ _ (check_unique-IsReading e compiled "" _) (
              bind-IsAtomic _ _ (lift-IsReading _) (λ validated.
                bind-IsAtomic _ _ (lift-IsReading _) (λ inserting.
                  bind-IsAtomic _ _ (lift-IsReading _) (λ norm.
                    transaction-IsAtomic e.db (store e st ctx doc_type compiled norm))))))))))

  -- Where Update fails, the database is as it was.
  update-IsAtomic : (id : String) (given : Row) → IsAtomic (update e st ctx doc_type id given)
  unfolding update
  update-IsAtomic id given = bind-IsAtomic _ _ (lift-IsReading _) (λ compiled.
      then-IsAtomic _ _ (lift-IsReading _) (
        bind-IsAtomic _ _ (lift-IsReading _) (λ filtered.
          bind-IsAtomic _ _ (query-IsReading e.db _) (λ rows.
            bind-IsAtomic _ _ (lift-IsReading _) (λ old.
              bind-IsAtomic _ _ (lift-IsReading _) (λ row. then-IsAtomic _ _ (lift-IsReading _) (
                then-IsAtomic _ _ (check_unique-IsReading e compiled id _) (
                  bind-IsAtomic _ _ (lift-IsReading _) (λ validated.
                    bind-IsAtomic _ _ (lift-IsReading _) (λ norm.
                      bind-IsAtomic _ _ (lift-IsReading _) (λ merged.
                        transaction-IsAtomic e.db (save e st ctx doc_type id old merged))))))))))))

  -- Where Delete fails, the database is as it was.
  soft_delete-IsAtomic : (id : String) → IsAtomic (soft_delete e st ctx doc_type id)
  unfolding soft_delete
  soft_delete-IsAtomic id = bind-IsAtomic _ _ (lift-IsReading _) (λ compiled.
      then-IsAtomic _ _ (lift-IsReading _) (
        bind-IsAtomic _ _ (query-IsReading e.db _) (λ rows.
          bind-IsAtomic _ _ (lift-IsReading _) (λ row.
            bind-IsAtomic _ _ (lift-IsReading _)
              (λ old. transaction-IsAtomic e.db (mark_deleted e st ctx doc_type id old))))))

  -- Read changes neither the database nor the log.
  pub read-IsReading : (id : String) → IsReading (read e ctx doc_type id)
  unfolding read
  read-IsReading id = bind-IsReading _ _ (lift-IsReading _) (λ compiled.
      then-IsReading _ _ (lift-IsReading _) (
        bind-IsReading _ _ (query-IsReading e.db _)
          (λ rows. bind-IsReading _ _ (lift-IsReading _) (λ row. lift-IsReading _))))

  -- Read changes nothing, and where Create, Update or Delete fail, the database is as it was.
  pub methods-IsAtomic :
      (id : String) (given : Row)
      → IsReading (read e ctx doc_type id)
        × IsAtomic (create e st ctx doc_type given)
        × IsAtomic (update e st ctx doc_type id given)
        × IsAtomic (soft_delete e st ctx doc_type id)
  methods-IsAtomic id given =
      (read-IsReading id, create-IsAtomic given, update-IsAtomic id given, soft_delete-IsAtomic id)
