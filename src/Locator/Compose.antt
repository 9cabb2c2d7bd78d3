-- ===== src/Locator/Compose.antt =====
-- locator/compose.go: one provider made of named layers of one kind, asked in order.
pub mod Order
pub mod Priority
pub mod Validation
use mathlib.Core.Option
use bindly.Prelude.{
  ℕ, String, Bool, true, false, not, Option, none, some, List, [], ◌∷◌, ◌&&◌, ◌||◌, is_some, str_eq,
  if◌then◌else◌,
}
use bindly.Prelude.Comparable.{string_comparable}
use bindly.Prelude.Int.{ℤ, ltb_ℤ}
use bindly.Map
use bindly.Map.{Map}
use bindly.Reflect.{GoType, Value}
use bindly.Errors.{Error, Result, ok, err}
use bindly.Locator.{Lookup, missing, failing, Behaviour, answer, ask, Locator, Provider}

-- ProviderLayer, whose provider may be nil.
pub record Layer : Type 0 where
  pub name : String
  pub provider : Option Provider

-- The rest of a computation, after its answer.
unfoldable pub and_then : Behaviour → (Lookup → Behaviour) → Behaviour
and_then (answer l) k = k l
and_then (ask location next) k = ask location (λ l. and_then (next l) k)

-- `candidate.(SourceCapturer)` under `if capture`.
abbrev capturer : Bool → Locator → Option (ℕ → Option GoType → String → Lookup)
capturer true l = l.capture_source
capturer false l = none

-- `candidate.(ScopedLocator)` with `scope != nil`.
abbrev scoped_locator : Bool → Locator → Option (ℕ → Option GoType → String → Behaviour)
scoped_locator true l = l.value_in_scope
scoped_locator false l = none

-- The choice among CaptureSource, ValueWithBodyNullPolicy, ValueInScope and Value, which the scope
-- makes too; none where a policy is given and the locator has no support for policies.
unfoldable pub request :
    Bool → Bool → String → Locator → ℕ → Option GoType → String → Option Behaviour
request capture in_scope policy l now target name = elim (capturer capture l) [
  | some raw ↦ some (answer (raw now target name))
  | none ↦
      if str_eq policy ""
      then elim (scoped_locator in_scope l) [
        | some scoped ↦ some (scoped now target name)
        | none ↦ some (answer (l.value now target name))
      ]
      else Option.map (λ f. answer (f now target name policy)) l.value_with_null_policy
]

unfoldable pub owns_name : Locator → String → Bool
owns_name l name = elim l.owns [ some f ↦ f name | none ↦ false ]

-- `found || err != nil || (owned != nil && owned.Owns(name))`
unfoldable pub settles : Locator → String → Lookup → Bool
unfolding owns_name
settles l name r = r.found || (is_some r.error || owns_name l name)

unfoldable pub locate_layer : Layer → Option Value → Option Locator
locate_layer layer state = elim layer.provider [ some p ↦ p.locate state | none ↦ none ]

-- The loop of composedLocator.value.
unfoldable pub try_layers :
    Bool → Bool → String → Option Value → ℕ → Option GoType → String → List Layer → Behaviour
unfolding request settles and_then
try_layers capture in_scope policy state now target name [] = answer missing
try_layers capture in_scope policy state now target name (layer ∷ rest) =
    let later = try_layers capture in_scope policy state now target name rest in
    elim (locate_layer layer state) [
      | none ↦
          answer (failing (Error.message "provider layer %s returned no locator" (layer.name ∷ [])))
      | some l ↦ elim (request capture in_scope policy l now target name) [
        | none ↦ answer (
            failing
              (Error.message "provider layer %s does not support bodyNullPolicy" (layer.name ∷ [])))
        | some b ↦ and_then b (λ r. if settles l name r then answer r else later)
      ]
    ]

-- A computation with no scope to ask.
unfoldable pub without_scope : Behaviour → Lookup
without_scope (answer l) = l
without_scope (ask location next) = missing

-- (*composedLocator).Owns
unfoldable pub layers_own : List Layer → Option Value → String → Bool
unfolding owns_name
layers_own [] state name = false
layers_own (layer ∷ rest) state name =
    elim (locate_layer layer state) [ some l ↦ owns_name l name | none ↦ false ]
    || layers_own rest state name

-- (*composedProvider).Locate: the locator has every optional interface.
unfoldable pub composed_locator : List Layer → Option Value → Locator
unfolding try_layers without_scope layers_own
composed_locator layers state = record {
  value = λ now target name. without_scope (try_layers false false "" state now target name layers);
  value_in_scope = some (λ now target name. try_layers false true "" state now target name layers);
  owns = some (layers_own layers state);
  capture_source =
      some
        (λ now target name. without_scope (try_layers true false "" state now target name layers));
  value_with_null_policy = some (λ now target name policy.
      without_scope (try_layers false false policy state now target name layers));
}

unfoldable pub layer_priority : Layer → ℤ
layer_priority layer = elim layer.provider [ some p ↦ p.priority | none ↦ ℤ.pos 0 ]

-- The loop of (*composedProvider).Priority.
unfoldable pub highest_priority : ℤ → List Layer → ℤ
unfolding layer_priority
highest_priority priority [] = priority
highest_priority priority (layer ∷ rest) =
    let candidate = layer_priority layer in
    highest_priority (if ltb_ℤ priority candidate then candidate else priority) rest

abbrev layer_cacheable : Layer → Bool
layer_cacheable layer = elim layer.provider [
  | some p ↦ elim p.default_cacheable [ some b ↦ b | none ↦ false ]
  | none ↦ false
]

-- (*composedProvider).DefaultCacheable
unfoldable pub all_cacheable : List Layer → Bool
all_cacheable [] = true
all_cacheable (layer ∷ rest) = if not (layer_cacheable layer) then false else all_cacheable rest

abbrev kind_differs : Option Provider → String → Bool
kind_differs none kind = true
kind_differs (some p) kind = not (str_eq p.kind kind)

-- The validation loop of ComposeProviders.
unfoldable pub check_layers : String → Map String Bool → List Layer → Option Error
check_layers kind seen [] = none
check_layers kind seen (layer ∷ rest) =
    let others = check_layers kind (Map.put seen layer.name true) rest in
    if str_eq layer.name "" || Map.exists seen layer.name
    then some (Error.message "provider layer name %q must be nonempty and unique" (layer.name ∷ []))
    else if kind_differs layer.provider kind
    then some (Error.message "provider layer %s must supply kind %s" (layer.name ∷ kind ∷ []))
    else others

abbrev no_layers : List Layer → Bool
no_layers [] = true
no_layers (l ∷ ls) = false

-- ComposeProviders
unfoldable pub compose_providers : String → List Layer → Result Provider
unfolding check_layers composed_locator highest_priority all_cacheable
compose_providers kind layers =
    if str_eq kind "" || no_layers layers
    then err (Error.message "provider composition requires kind and layers" [])
    else elim (check_layers kind Map.new layers) [
      | some e ↦ err e
      | none ↦ ok (record {
        kind = kind;
        priority = highest_priority (ℤ.pos 0) layers;
        default_cacheable = some (all_cacheable layers);
        locate = λ state. some (composed_locator layers state);
      })
    ]
