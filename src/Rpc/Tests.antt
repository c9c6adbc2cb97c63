-- ===== src/Rpc/Tests.antt =====
-- Requests of a method that only a clerk may call.
use orjanda.Prelude.{
  List, [], ◌∷◌, some, Dict, lookup, insert, equal_fold, fold_code, ◌≡◌, refl, ◌⊎◌,
}
use orjanda.Errors.{Error, ok, err, fail, permission}
use orjanda.Value.{Row, text, null}
use orjanda.Auth.{Context, no_identity, background, new_context, from_context}
use orjanda.Perm.{has_role, role_listed, check_roles}
use orjanda.Rpc.{MethodHandler, RegisteredMethod, register_method, get_method}
use orjanda.Rpc.Requests.{
  Request, method_path, with_query, is_method, roles_pass, dispatch_request, IsCall,
  dispatch_request-IsCall,
}

engine : Unit {0}
unfolding lookup insert equal_fold fold_code new_context from_context has_role role_listed
    check_roles register_method get_method method_path with_query is_method roles_pass
    dispatch_request
engine = tt

abbrev note_down : MethodHandler (List Row)
note_down ctx args calls = (ok null, args ∷ calls)

abbrev methods : Dict (RegisteredMethod (List Row))
methods =
    register_method "hr.leave.approve" (some note_down)
      (record { allowed_roles = "clerk" ∷ []; http_method = "" }) []

abbrev request : Request
request = record {
  app = "hr";
  module_name = "leave";
  method = "approve";
  rest = "";
  http_method = "post";
  body = some (ok (("id", text "1") ∷ []));
  query = ("id", "2" ∷ []) ∷ [];
}

abbrev ann : Context
ann = new_context background (record no_identity { user_id = "ann"; roles = "Clerk" ∷ [] })

-- The query goes before the body.
called : dispatch_request methods ann request [] ≡ (some (ok null), (("id", text "2") ∷ []) ∷ [])
unfolding engine
called = refl

refused : dispatch_request methods background request [] ≡ (some (fail permission), [])
unfolding engine
refused = refl

dispatch_request-IsCall_example :
    ((e : Error) × (dispatch_request methods ann request [] ≡ (some (err e), [])))
    ⊎ IsCall methods ann request []
dispatch_request-IsCall_example = dispatch_request-IsCall methods ann request []
