-- ===== src/Document/Listing.antt =====
-- List of document/engine.go, and the check of its order.
use orjanda.Prelude.{
  ℕ, String, Bool, true, false, not, ◌&&◌, ◌||◌, ◌==◌, List, [], ◌∷◌, Option, if◌then◌else◌,
  to_upper, eqb, leb,
}
use Prim.Native.Char.{code}
use Prim.Native.String.{◌∷◌ as ◌∷ᶜ◌, [] as []ᶜ, ◌++◌}
use orjanda.Prelude.Int.{ℤ}
use orjanda.Errors.{Result, ok, fail, validation, ◌>>=◌ as ◌>>=ᴿ◌}
use orjanda.Value.{Row}
use orjanda.Auth.{Context}
use orjanda.Schema.{Field, CompiledDoc, SortOrder, ascending, descending}
use orjanda.Perm
use orjanda.Dal.{Op, ◌>>=◌, ◌>>◌, lift, query}
use orjanda.Document.Engine.{Documents, permit, permit_read}

pub record ListOpts : Type 0 where
  pub filters : Row
  pub order_by : String
  pub limit : ℤ
  pub offset : ℤ
  pub include_deleted : Bool

abbrev is_blank : ℕ → Bool
is_blank c = (leb 9 c && leb c 13) || eqb c 32

abbrev push_word : String → List String → List String
push_word word words = if word == "" then words else word ∷ words

-- the word that a text begins with, perhaps empty, and the words after it
split_words : String → String × List String
split_words []ᶜ = ("", [])
split_words (c ∷ᶜ s) =
    let (word, words) = split_words s in
    if is_blank (code c) then ("", push_word word words) else (c ∷ᶜ word, words)

-- strings.Fields
unfoldable pub words_of : String → List String
unfolding split_words
words_of s = let (word, words) = split_words s in push_word word words

-- the loop of validateOrderBy
unfoldable pub order_column : List Field → String → String → Result String
order_column [] name dir = fail validation
order_column (f ∷ fs) name dir =
    let rest = order_column fs name dir in
    if f.name == name || f.db_column == name
    then (if f.hidden && not f.system then fail validation else ok (f.db_column ++ dir))
    else rest

-- the direction of an order, with a space before it
unfoldable pub direction_of : String → Result String
direction_of word =
    let dir = to_upper word in
    if dir == "ASC" || dir == "DESC" then ok (" " ++ dir) else fail validation

unfoldable pub order_of_words : CompiledDoc → List String → Result String
order_of_words compiled [] = ok ""
order_of_words compiled (name ∷ []) = order_column compiled.fields name ""
order_of_words compiled (name ∷ word ∷ []) =
    direction_of word >>=ᴿ order_column compiled.fields name
order_of_words compiled (_ ∷ _ ∷ _ ∷ _) = fail validation

-- validateOrderBy
unfoldable pub validate_order_by : CompiledDoc → String → Result String
validate_order_by compiled order_by = order_of_words compiled (words_of order_by)

abbrev is_descending : SortOrder → Bool
is_descending ascending = false
is_descending descending = true

unfoldable pub default_order : CompiledDoc → String → String
default_order compiled order_by =
    if order_by == "" && not (compiled.sort_field == "")
    then (if is_descending compiled.sort_order
        then compiled.sort_field ++ " DESC"
        else compiled.sort_field)
    else order_by

unfoldable pub list_order : CompiledDoc → String → Result String
list_order compiled order_by =
    if default_order compiled order_by == ""
    then ok ""
    else validate_order_by compiled (default_order compiled order_by)

unfoldable pub filter_rows : Option Perm.Engine → Context → String → List Row → Result (List Row)
filter_rows p ctx doc_type [] = ok []
filter_rows p ctx doc_type (row ∷ rows) = permit_read p ctx doc_type row >>=ᴿ λ shown.
    filter_rows p ctx doc_type rows >>=ᴿ λ rest. ok (shown ∷ rest)

module _ {S : Type 0} where
  -- List
  unfoldable pub list : Documents S → Context → String → ListOpts → Op S (List Row)
  list e ctx doc_type opts = do
    compiled ← lift (e.reg doc_type)
    lift (permit e.perm ctx doc_type "read")
    order ← lift (list_order compiled opts.order_by)
    rows ← query e.db (record {
      doc_type = doc_type;
      table_name = compiled.table_name;
      fields = [];
      filters = opts.filters;
      ids = [];
      order_by = order;
      limit = opts.limit;
      offset = opts.offset;
      include_deleted = opts.include_deleted;
    })
    lift (filter_rows e.perm ctx doc_type rows)
