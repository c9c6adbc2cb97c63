-- ===== src/Schema/Registry/Tests.antt =====
-- Runs of the registry of schema/registry.go.
use orjanda.Prelude.{
  String, false, List, [], ◌∷◌, lookup, insert, has_key, is_upper, is_lower, is_digit, lower_char,
  ◌≡◌, refl, All,
}
use orjanda.Errors.{ok, fail, validation, conflict}
use orjanda.Schema.{ascending, link}
use orjanda.Schema.Registry.{
  Meta, RegisteredDoc, Registry, new_registry, register_dependency, register, first_index,
  breaks_order, compiled_doc, put_parsed, compile_docs, resolves, doc_resolves, compile,
}
use orjanda.Schema.Registry.Names.{snake_from, camel_to_snake, pluralize_table_name, field_of}
use orjanda.Schema.Registry.Related.{
  IsRelated, list_docs, links_from, children_from, links_to, incoming, relationships,
  relationships-IsRelated,
}

engine : Unit {0}
unfolding lookup insert has_key is_upper is_lower is_digit lower_char new_registry
    register_dependency register first_index breaks_order compiled_doc put_parsed compile_docs
    resolves doc_resolves compile snake_from camel_to_snake pluralize_table_name list_docs
    links_from children_from links_to incoming relationships
engine = tt

abbrev meta : String → Meta
meta name = record {
  name = name;
  module_name = "HR";
  searchable = false;
  submittable = false;
  icon = "";
  description = "";
  agent_hidden = false;
  title_field = "";
  sort_field = "";
  sort_order = ascending;
  permissions = [];
}

-- a document with a link to `target`
abbrev linked : String → String → String → RegisteredDoc
linked app name target = record {
  app = app;
  meta = meta name;
  parsed = ok (record (field_of "Link" "link" link "Link") { link_target = target } ∷ [], []);
}

abbrev two : List RegisteredDoc
two = linked "hr" "Employee" "LeaveRequest" ∷ linked "leave" "LeaveRequest" "Employee" ∷ []

abbrev registry : Registry
registry = record {
  docs = [];
  registered = two;
  compiled = false;
  app_deps = ("leave", "hr" ∷ []) ∷ [];
}

table_named : pluralize_table_name "HTTPLeaveRequest2Go" ≡ "http_leave_request2_gos"
unfolding engine
table_named = refl

compiles : (compile registry).0 ≡ ok tt
unfolding engine
compiles = refl

order_broken :
    (compile (record registry { app_deps = ("hr", "leave" ∷ []) ∷ [] })).0 ≡ fail validation
unfolding engine
order_broken = refl

link_dangles :
    (compile (record registry { registered = linked "hr" "Employee" "Team" ∷ [] })).0
    ≡ fail validation
unfolding engine
link_dangles = refl

second_refused : (compile (compile registry).1).0 ≡ fail conflict
unfolding engine
second_refused = refl

-- The two documents link to each other.
related :
    relationships (compile registry).1 "Employee"
    ≡ (record {
      from_doc = "Employee";
      from_field = "Link";
      to_doc = "LeaveRequest";
      is_child_table = false;
    })
      ∷ (record {
        from_doc = "LeaveRequest";
        from_field = "Link";
        to_doc = "Employee";
        is_child_table = false;
      })
      ∷ []
unfolding engine
related = refl

relationships-IsRelated_example :
    All
      (IsRelated (compile registry).1.docs "Employee")
      (relationships (compile registry).1 "Employee")
relationships-IsRelated_example = relationships-IsRelated registry "Employee" compiles
