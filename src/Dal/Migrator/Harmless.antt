-- ===== src/Dal/Migrator/Harmless.antt =====
-- The gate of Write in dal/migrator.go.
use orjanda.Prelude.{Bool, true, false, ◌≡◌}
use orjanda.Dal.Migrator.Write.{Statement, drop_table, drops_column}

abbrev drops_table : Statement → Bool
drops_table (drop_table t) = true
drops_table _ = false

-- The statement drops nothing.
abbrev pub IsHarmless : Statement → Type 0
IsHarmless s = (drops_column s ≡ false) × (drops_table s ≡ false)

abbrev KeepsTable : Statement → Type 0
KeepsTable s = drops_table s ≡ false
