-- ===== src/Dal/Memory.antt =====
-- A database for the tests of the engines: the rows of one table, found by equal text columns.
use orjanda.Prelude.{
  String, Bool, true, false, ◌&&◌, ◌==◌, List, [], ◌∷◌, Option, some, lookup, keep, overlay,
  if◌then◌else◌,
}
use orjanda.Errors.{ok}
use orjanda.Value.{Value, Row, text, text_or_empty}
use orjanda.Dal.{Database}

abbrev same_value : Option Value → Value → Bool
same_value (some (text s)) (text t) = s == t
same_value _ _ = false

abbrev pub fits : Row → Row → Bool
fits [] row = true
fits ((k, v) ∷ filters) row = same_value (lookup k row) v && fits filters row

abbrev patch : String → Row → List Row → List Row
patch id changes [] = []
patch id changes (row ∷ rows) =
    let rest = patch id changes rows in
    if text_or_empty (lookup "id" row) == id then overlay row changes ∷ rest else row ∷ rest

abbrev pub memory : Database (List Row)
memory = record {
  query = λ rows q. ok (keep (fits q.filters) rows);
  insert = λ rows doc_type row. ok (row ∷ rows, text_or_empty (lookup "id" row));
  update = λ rows doc_type id changes. ok (patch id changes rows);
  begin = λ rows. ok rows;
  commit = λ rows. ok rows;
}
