-- ===== src/Audit/Tests.antt =====
-- audit/audit.go on two versions of a document and a log of three entries.
use orjanda.Prelude.{String, false, [], ◌∷◌, some, lookup, has_key, ◌≡◌, refl, keep}
use orjanda.Prelude.Int.{pos}
use orjanda.Errors.{ok}
use orjanda.Value.{Value, Row, text, null}
use orjanda.Auth.{background}
use orjanda.Audit.{
  Entry, QueryFilter, matches, query_loop, query, write, values_equal, new_changes, lost_changes,
  diff_maps, build_entry, with_agent,
}
use orjanda.Audit.Changes.{change_of, recorded, change_of-diff_maps}
use orjanda.Audit.Matching.{limited, query_lem}

engine : Unit {0}
unfolding matches query_loop query write values_equal new_changes lost_changes diff_maps build_entry
    with_agent lookup has_key
engine = tt

-- texts as they are, and one text for all else
abbrev show : Value → String
show (text s) = s
show _ = "?"

abbrev before : Row
before = ("title", text "A") ∷ ("owner", text "ann") ∷ []

abbrev after : Row
after = ("title", text "B") ∷ ("note", text "n") ∷ []

changes : diff_maps show before after ≡ (
    record { field = "title"; old_value = text "A"; new_value = text "B" }
    ∷ record { field = "note"; old_value = null; new_value = text "n" }
    ∷ record { field = "owner"; old_value = text "ann"; new_value = null }
    ∷ [])
unfolding engine
changes = refl

abbrev entry : String → Entry
entry doc_id = record (build_entry 7 doc_id background "update" "Leave" doc_id []) {
  doc_id = doc_id;
}

abbrev filter : QueryFilter
filter = record {
  doc_type = "Leave";
  doc_id = "";
  user_id = "";
  via_agent = some false;
  since = 0;
  limit = pos 2;
}

first_two : query filter (entry "a" ∷ entry "b" ∷ entry "c" ∷ []) ≡ ok (entry "a" ∷ entry "b" ∷ [])
unfolding engine
first_two = refl

written :
    (write 9 "x" (record (entry "a") { id = ""; timestamp = 0 }) []).1
    ≡ (record (entry "a") { id = "x"; timestamp = 9 } ∷ [])
unfolding engine
written = refl

query_lem_example :
    query filter (entry "a" ∷ entry "b" ∷ entry "c" ∷ [])
    ≡ ok (limited (pos 2) (keep (matches filter) (entry "a" ∷ entry "b" ∷ entry "c" ∷ [])))
query_lem_example = query_lem filter (entry "a" ∷ entry "b" ∷ entry "c" ∷ [])

change_of-diff_maps_example :
    change_of "owner" (diff_maps show before after)
    ≡ recorded show (lookup "owner" before) (lookup "owner" after)
unfolding has_key lookup
change_of-diff_maps_example =
    change_of-diff_maps show "owner" before after (refl, (refl, tt)) (refl, (refl, tt))
