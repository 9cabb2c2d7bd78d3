-- ===== src/RequestScope/Lookups.antt =====
-- provider/request/scope.go: the presence of a request's values.
use bindly.Prelude.{
  ◌≡◌, refl, String, Bool, true, false, ◌||◌, Option, none, some, List, [], ◌∷◌, str_eq,
  if◌then◌else◌, arith,
}
use bindly.Reflect.{GoType, Basic, base_type}
use bindly.RequestScope.{
  Texts, Scope, one, zero_integer, find, is_integer, is_collection_target, is_interface,
  effective_ignore, query_value, path_value, header_value, cookie_value, provided_kinds,
  source_value, shape_value,
}
use bindly.Resolve.{contains}

integer-scalar :
    (t : GoType)
    → is_integer t ≡ true
    → is_collection_target (some t) || is_interface (some t) ≡ false
integer-scalar (GoType.basic Basic.int n) i = refl
integer-scalar (GoType.basic Basic.uint n) i = refl
integer-scalar (GoType.basic Basic.bool n) i = cc
integer-scalar (GoType.basic Basic.float n) i = cc
integer-scalar (GoType.basic Basic.string n) i = cc
integer-scalar (GoType.basic Basic.interface n) i = cc
integer-scalar (GoType.basic Basic.func n) i = cc
integer-scalar (GoType.basic Basic.chan n) i = cc
integer-scalar (GoType.pointer t) i = cc
integer-scalar (GoType.slice n t) i = cc
integer-scalar (GoType.array n t) i = cc
integer-scalar (GoType.mapping k t) i = cc
integer-scalar (GoType.struct n fs) i = cc

-- For a scalar integer target, a named query parameter that is one empty text is absent under the
-- policy that ignores empty parameters and zero without it; of repeated texts the first is taken
-- under either policy, even if it is empty.
pub source_value-query_value :
    (encode : Option Texts → String) (policy : Option Bool) (s : Scope) (name : String)
    (target : GoType) (first second : String) (rest : List String)
    → str_eq name "" ≡ false
    → is_integer (base_type target) ≡ true
    → (find s.query name ≡ some ("" ∷ [])
        → source_value "query" (some target) (query_value encode policy s name)
          ≡ (if effective_ignore policy s then none else some zero_integer))
      × (find s.query name ≡ some (first ∷ second ∷ rest)
          → source_value "query" (some target) (query_value encode policy s name)
            ≡ some (one first))
unfolding source_value query_value shape_value
source_value-query_value encode policy s name target first second rest n i = (
  (λ f. ground (arith, integer-scalar (base_type target) i)),
  λ f. ground (arith, integer-scalar (base_type target) i),
)

-- A kind that the scope does not provide has no named value to give.
pub provided_kinds-absent :
    (encode : Option Texts → String) (canonical_key : String → String) (policy : Option Bool)
    (s : Scope) (name : String)
    → str_eq name "" ≡ false
    → (contains (provided_kinds s) "query" ≡ false → query_value encode policy s name ≡ none)
      × (contains (provided_kinds s) "path" ≡ false → path_value s name ≡ none)
      × (contains (provided_kinds s) "header" ≡ false → header_value canonical_key s name ≡ none)
      × (contains (provided_kinds s) "cookie" ≡ false → cookie_value s name ≡ none)
unfolding provided_kinds query_value path_value header_value cookie_value contains
provided_kinds-absent encode canonical_key policy s name n =
    ((λ h. ground arith), (λ h. ground arith), (λ h. ground arith), λ h. ground arith)
