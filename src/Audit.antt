-- ===== src/Audit.antt =====
-- audit/audit.go: audit entries, the in-memory log and the differences between two documents. The
-- clock and the ULID generator answer what the caller passes; a time of 0 is the zero time.
pub mod Changes
pub mod Matching
mod Tests
use orjanda.Prelude.{
  ℕ, ◌+◌, String, Bool, true, false, not, ◌&&◌, ◌||◌, ◌==◌, List, [], ◌∷◌, ◌++◌, Option, none, some,
  Dict, lookup, has_key, length, if◌then◌else◌, ltb, leb, eqb,
}
use orjanda.Prelude.Int.{ℤ, pos, ltb_ℤ, leb_ℤ}
use orjanda.Errors.{Result, ok}
use orjanda.Value.{Value, Row, null}
use orjanda.Auth.{Context, from_context}

pub record FieldChange : Type 0 where
  pub field : String
  pub old_value : Value
  pub new_value : Value

pub record Entry : Type 0 where
  pub id : String
  pub timestamp : ℕ
  pub user_id : String
  pub doc_type : String
  pub doc_id : String
  pub action : String
  pub changes : List FieldChange
  pub via_agent : Bool
  pub agent_session : String
  pub agent_prompt : String
  pub request_id : String

pub record QueryFilter : Type 0 where
  pub doc_type : String
  pub doc_id : String
  pub user_id : String
  pub via_agent : Option Bool
  pub since : ℕ
  pub limit : ℤ

-- InMemoryLog.Write, on the entries of the log
unfoldable pub write : ℕ → String → Entry → List Entry → Result (Unit {0}) × List Entry
write now fresh e entries = (
  ok tt,
  entries
      ++ record e {
        id = if e.id == "" then fresh else e.id;
        timestamp = if eqb e.timestamp 0 then now else e.timestamp;
      }
        ∷ [],
)

abbrev same_bool : Bool → Bool → Bool
same_bool true b = b
same_bool false b = not b

abbrev asks_via : Option Bool → Bool → Bool
asks_via none via = true
asks_via (some wanted) via = same_bool via wanted

abbrev asks_text : String → String → Bool
asks_text wanted held = wanted == "" || held == wanted

-- the `continue`s of the loop of Query
unfoldable pub matches : QueryFilter → Entry → Bool
matches f e =
    asks_text f.doc_type e.doc_type
    && asks_text f.doc_id e.doc_id
    && asks_text f.user_id e.user_id
    && asks_via f.via_agent e.via_agent
    && not (not (eqb f.since 0) && ltb e.timestamp f.since)

-- the loop of Query, with what it has put out so far
unfoldable pub query_loop : QueryFilter → List Entry → List Entry → List Entry
query_loop f [] out = out
query_loop f (e ∷ es) out =
    let longer = out ++ e ∷ [] in
    let skipped = query_loop f es out in
    let rest = query_loop f es longer in
    if not (matches f e)
    then skipped
    else if ltb_ℤ (pos 0) f.limit && leb_ℤ f.limit (pos (length longer))
    then longer
    else rest

-- InMemoryLog.Query
unfoldable pub query : QueryFilter → List Entry → Result (List Entry)
query f entries = ok (query_loop f entries [])

-- `row[k]`, nil where the key is missing
abbrev pub value_at : Option Value → Value
value_at none = null
value_at (some v) = v

-- The text of a value is that of `fmt.Sprintf("%v", v)`.
module _ (show : Value → String) where
  unfoldable pub values_equal : Value → Value → Bool
  values_equal null null = true
  values_equal null b = false
  values_equal a null = false
  values_equal a b = show a == show b

  -- the first loop of DiffMaps
  unfoldable pub new_changes : Row → Row → List FieldChange
  new_changes old [] = []
  new_changes old ((k, v) ∷ new) =
      let rest = new_changes old new in
      if values_equal (value_at (lookup k old)) v
      then rest
      else record { field = k; old_value = value_at (lookup k old); new_value = v } ∷ rest

  -- the second
  unfoldable pub lost_changes : Row → Row → List FieldChange
  lost_changes [] new = []
  lost_changes ((k, v) ∷ old) new =
      let rest = lost_changes old new in
      if has_key k new then rest else record { field = k; old_value = v; new_value = null } ∷ rest

  unfoldable pub diff_maps : Row → Row → List FieldChange
  diff_maps old new = new_changes old new ++ lost_changes old new

-- WithAgent
unfoldable pub with_agent : Context → String → String → Context
with_agent ctx session prompt = record ctx {
  via_agent = true;
  agent_session = session;
  agent_prompt = prompt;
}

-- WithRequestID
unfoldable pub with_request_id : Context → String → Context
with_request_id ctx request_id = record ctx { request_id = request_id }

unfoldable pub build_entry :
    ℕ → String → Context → String → String → String → List FieldChange → Entry
build_entry now fresh ctx action doc_type doc_id changes = record {
  id = fresh;
  timestamp = now;
  user_id = (from_context ctx).user_id;
  doc_type = doc_type;
  doc_id = doc_id;
  action = action;
  changes = changes;
  via_agent = ctx.via_agent;
  agent_session = ctx.agent_session;
  agent_prompt = ctx.agent_prompt;
  request_id = ctx.request_id;
}
