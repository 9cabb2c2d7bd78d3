-- ===== src/Locator/Registry.antt =====
-- locator/registry.go. A registry is its chain of provider maps, its own first and then those of
-- its parents; the nil registry is the empty chain.
pub mod Shadowing
use bindly.Prelude.{
  String, Bool, true, false, Option, none, some, List, [], ◌∷◌, ◌++◌, is_some, if◌then◌else◌,
}
use bindly.Prelude.Comparable.{string_comparable}
use bindly.Errors.{Error, Result, ok, err}
use bindly.Map
use bindly.Map.{Map}
use bindly.Locator.{Provider}

abbrev pub Registry : Type 0
Registry = List (Map String Provider)

-- NewRegistry
unfoldable pub new_registry : Registry
new_registry = Map.new ∷ []

-- (*Registry).Child
unfoldable pub child : Registry → Registry
child r = Map.new ∷ r

-- (*Registry).Lookup
unfoldable pub lookup : Registry → String → Option Provider
lookup [] kind = none
lookup (m ∷ parent) kind =
    let inherited = lookup parent kind in
    elim (Map.get m kind) [ some provider ↦ some provider | none ↦ inherited ]

-- (*Registry).Register. On the nil registry it panics, which no caller risks; here it is an error.
unfoldable pub register : Registry → Provider → Result Registry
register [] provider = err (Error.message "nil registry" [])
register (m ∷ parent) provider =
    if Map.exists m provider.kind
    then err (Error.message "kind: %v is already registered" (provider.kind ∷ []))
    else ok (Map.put m provider.kind provider ∷ parent)

-- (*Registry).Unregister
unfoldable pub unregister : Registry → String → Registry
unregister [] kind = []
unregister (m ∷ parent) kind = Map.delete m kind ∷ parent

-- (*Registry).Keys, before sorting: the kinds of every layer, each once.
add_kinds : List String → Map String Bool → Map String Bool
add_kinds [] kinds = kinds
add_kinds (k ∷ ks) kinds = add_kinds ks (Map.put kinds k true)

key_set : Registry → Map String Bool
unfolding add_kinds
key_set [] = Map.new
key_set (m ∷ parent) = add_kinds (Map.keys m) (key_set parent)

unfoldable pub keys : Registry → List String
unfolding key_set
keys r = Map.keys (key_set r)

-- The loop of NewInjector over its providers.
unfoldable pub register_all : Registry → List Provider → Result Registry
register_all r [] = ok r
register_all r (p ∷ ps) = elim (register r p) [ ok r' ↦ register_all r' ps | err e ↦ err e ]
