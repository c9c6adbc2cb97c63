-- ===== src/Rpc/Requests.antt =====
-- DispatchHandler of api/rpc/rpc.go: a request for a method, up to the answer. The decoding of the body
-- is a part of the request.
use orjanda.Prelude.{
  String, Bool, true, not, ◌&&◌, ◌||◌, ◌==◌, List, [], ◌∷◌, Option, none, some, Dict, insert,
  is_empty, equal_fold, eqb, if◌then◌else◌, ◌≡◌, refl, ◌⊎◌, inl, inr, Bool-cases,
}
use Prim.Native.Char.{code}
use Prim.Native.String.{◌++◌ as ◌++ˢ◌, [] as []ˢ, ◌∷◌ as ◌∷ˢ◌}
use orjanda.Errors.{Result, Error, Result-cases, coded, ok, err, fail, not_found, validation}
use orjanda.Value.{Value, Row, text}
use orjanda.Auth.{Context}
use orjanda.Perm.{check_roles}
use orjanda.Rpc.{MethodHandler, RegisteredMethod, get_method}

-- the parts of the path, where the route has them, and else its rest; the body, if there is one, as it
-- decodes; the values of each key of the query
pub record Request : Type 0 where
  pub app : String
  pub module_name : String
  pub method : String
  pub rest : String
  pub http_method : String
  pub body : Option (Result Row)
  pub query : Dict (List String)

abbrev trim_slash : String → String
trim_slash []ˢ = []ˢ
trim_slash (c ∷ˢ s) = if eqb (code c) b'/' then s else c ∷ˢ s

unfoldable pub method_path : Request → String
method_path r = trim_slash (
    if not (r.app == "") && (not (r.module_name == "") && not (r.method == ""))
    then r.app ++ˢ ("." ++ˢ (r.module_name ++ˢ ("." ++ˢ r.method)))
    else r.rest)

-- the arguments of the body with the first value of each key of the query
unfoldable pub with_query : Dict (List String) → Row → Row
with_query [] args = args
with_query ((key, []) ∷ query) args = with_query query args
with_query ((key, v ∷ more) ∷ query) args = with_query query (insert key (text v) args)

abbrev pub body_args : Option (Result Row) → Result Row
body_args none = ok []
body_args (some (ok args)) = ok args
body_args (some (err e)) = fail validation

unfoldable pub is_method : String → String → Bool
is_method allowed given = allowed == "" || equal_fold given allowed

unfoldable pub roles_pass : Context → List String → Result (Unit {0})
roles_pass ctx roles = if is_empty roles then ok tt else check_roles ctx roles

-- what a request comes to: an error or a value; `none` where a method without a handler is called
abbrev pub Reply : Type 0 → Type 0
Reply S = Option (Result Value) × S

module _ {S : Type 0} where
  abbrev pub replied : Result Value × S → Reply S
  replied (out, s) = (some out, s)

  abbrev pub call : Option (MethodHandler S) → Context → Row → S → Reply S
  call none ctx args s = (none, s)
  call (some handler) ctx args s = replied (handler ctx args s)

  abbrev pub call_with : RegisteredMethod S → Context → Request → Result Row → S → Reply S
  call_with m ctx r (err e) s = (some (err e), s)
  call_with m ctx r (ok args) s = call m.handler ctx (with_query r.query args) s

  abbrev pub if_permitted : RegisteredMethod S → Context → Request → Result (Unit {0}) → S → Reply S
  if_permitted m ctx r (err e) s = (some (err e), s)
  if_permitted m ctx r (ok done) s = call_with m ctx r (body_args r.body) s

  abbrev pub on_method : Context → Request → Option (RegisteredMethod S) → S → Reply S
  on_method ctx r none s = (some (fail not_found), s)
  on_method ctx r (some m) s =
      if is_method m.opts.http_method r.http_method
      then if_permitted m ctx r (roles_pass ctx m.opts.allowed_roles) s
      else (some (fail validation), s)

  -- DispatchHandler
  unfoldable pub dispatch_request : Dict (RegisteredMethod S) → Context → Request → S → Reply S
  dispatch_request methods ctx r s = on_method ctx r (get_method (method_path r) methods) s

  -- The request called a registered method by its HTTP method, with roles of it that the caller has
  -- where it has any, and with the arguments of the body and the query.
  abbrev pub IsCall : Dict (RegisteredMethod S) → Context → Request → S → Type 0
  IsCall methods ctx r s =
      (m : RegisteredMethod S) × (get_method (method_path r) methods ≡ some m)
      × (is_method m.opts.http_method r.http_method ≡ true)
      × (roles_pass ctx m.opts.allowed_roles ≡ ok tt)
      × (args : Row) × (body_args r.body ≡ ok args)
      × (dispatch_request methods ctx r s ≡ call m.handler ctx (with_query r.query args) s)

  -- A request changes nothing and is answered with an error, or it calls a registered method by its HTTP
  -- method, with the arguments of the body and the query, and the caller passes CheckRoles for the roles
  -- of the method, where it has any.
  pub dispatch_request-IsCall :
      (methods : Dict (RegisteredMethod S)) (ctx : Context) (r : Request) (s : S)
      → ((e : Error) × (dispatch_request methods ctx r s ≡ (some (err e), s)))
        ⊎ IsCall methods ctx r s
  unfolding dispatch_request
  dispatch_request-IsCall methods ctx r s = found (get_method (method_path r) methods) refl
    where
      found :
          (o : Option (RegisteredMethod S))
          → get_method (method_path r) methods ≡ o
          → ((e : Error) × (on_method ctx r o s ≡ (some (err e), s))) ⊎ IsCall methods ctx r s
      found none at = inl (coded not_found, refl)
      found (some m) at = elim (Bool-cases (is_method m.opts.http_method r.http_method)) [
        | inr other ↦ inl (coded validation, rw other refl)
        | inl same ↦ elim (Result-cases (roles_pass ctx m.opts.allowed_roles)) [
          | inl (e, refused) ↦ inl (e, rw (same, refused) refl)
          | inr (done, may) ↦ elim (Result-cases (body_args r.body)) [
            | inl (e, garbled) ↦ inl (e, rw (same, may, garbled) refl)
            | inr (args, decoded) ↦
                inr (m, at, same, may, args, decoded, rw (at, same, may, decoded) refl)
          ]
        ]
      ]
