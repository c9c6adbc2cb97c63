-- ===== src/Rpc.antt =====
-- api/rpc/rpc.go: the registered methods, which the model keeps in a map that is passed along, and the
-- dispatch of a request up to the answer. A handler works on the states `S` of what it may change.
pub mod Requests
mod Tests
use orjanda.Prelude.{String, List, [], ◌∷◌, Option, Dict, lookup, insert, ◌==◌, if◌then◌else◌}
use orjanda.Errors.{Result}
use orjanda.Value.{Value, Row}
use orjanda.Auth.{Context}

abbrev pub MethodHandler : Type 0 → Type 0
MethodHandler S = Context → Row → S → Result Value × S

pub record MethodOpts : Type 0 where
  pub allowed_roles : List String
  pub http_method : String

pub record RegisteredMethod (S : Type 0) : Type 0 where
  pub name : String
  pub handler : Option (MethodHandler S)
  pub opts : MethodOpts

module _ {S : Type 0} where
  unfoldable pub register_method :
      String
      → Option (MethodHandler S)
      → MethodOpts
      → Dict (RegisteredMethod S)
      → Dict (RegisteredMethod S)
  register_method name h opts methods =
      insert name
        (record {
          name = name;
          handler = h;
          opts = if opts.http_method == "" then record opts { http_method = "POST" } else opts;
        })
        methods

  unfoldable pub get_method : String → Dict (RegisteredMethod S) → Option (RegisteredMethod S)
  get_method name methods = lookup name methods

  -- Methods, in the order of the range
  unfoldable pub methods_of : Dict (RegisteredMethod S) → List (RegisteredMethod S)
  methods_of [] = []
  methods_of ((name, m) ∷ methods) = m ∷ methods_of methods
