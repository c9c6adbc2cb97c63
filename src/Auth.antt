-- ===== src/Auth.antt =====
-- auth/identity.go, and the values that a request's context carries (audit/audit.go and
-- agent/safety/safety.go add theirs).
use orjanda.Prelude.{String, List, [], Bool, false, Option, none, some}

pub record Identity : Type 0 where
  pub user_id : String
  pub email : String
  pub full_name : String
  pub roles : List String
  pub tenant : String
  pub source : String

abbrev pub no_identity : Identity
no_identity = record {
  user_id = "";
  email = "";
  full_name = "";
  roles = [];
  tenant = "";
  source = "";
}

-- A context's values: one field for each key, `none` or the zero value where the key is not set.
pub record Context : Type 0 where
  pub identity : Option Identity
  pub via_agent : Bool
  pub agent_session : String
  pub agent_prompt : String
  pub request_id : String
  pub session : String

abbrev pub background : Context
background = record {
  identity = none;
  via_agent = false;
  agent_session = "";
  agent_prompt = "";
  request_id = "";
  session = "";
}

-- NewContext
unfoldable pub new_context : Context → Identity → Context
new_context ctx id = record ctx { identity = some id }

abbrev identity_or_zero : Option Identity → Identity
identity_or_zero none = no_identity
identity_or_zero (some id) = id

-- FromContext
unfoldable pub from_context : Context → Identity
from_context ctx = identity_or_zero ctx.identity
