-- ===== src/Document/Ordering.antt =====
-- Which orders validateOrderBy and List of document/engine.go let through.
use orjanda.Prelude.{String, false, not, ◌&&◌, Memᴰ, ◌≡◌, ◌⊎◌}
use Prim.Native.String.{◌++◌}
use orjanda.Schema.{Field, CompiledDoc}

-- An order that is safe to hand to the database: none, or the column of a field of the document that
-- is not hidden from users, with a direction or without.
unfoldable pub IsSafeOrder : CompiledDoc → String → Type 0
IsSafeOrder compiled order =
    (order ≡ "")
    ⊎ ((f : Field) × Memᴰ f compiled.fields
        × ((f.hidden && not f.system) ≡ false)
        × ((order ≡ f.db_column ++ "")
            ⊎ ((order ≡ f.db_column ++ " ASC") ⊎ (order ≡ f.db_column ++ " DESC"))))
