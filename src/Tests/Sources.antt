-- ===== src/Tests/Sources.antt =====
-- Examples of maps, registries, composed providers and resolutions.
use bindly.Prelude.{
  ℕ, suc, ◌≡◌, refl, ap, ◌∙◌, String, true, false, Option, none, some, List, [], ◌∷◌, All, arith,
}
use mathlib.Core.Path.{subst}
use bindly.Prelude.Int.{ℤ}
use bindly.Prelude.Comparable.{string_comparable, nat_comparable}
use bindly.Reflect.{Value, text_type, same_type}
use bindly.Map
use bindly.Map.{Map}
use bindly.Locator.{Location, Lookup, answer, ask, Provider}
use bindly.Locator.Registry
use bindly.Locator.Registry.Shadowing.{register_all-lookup}
use bindly.Locator.Compose.{
  Layer, and_then, locate_layer, request, settles, owns_name, try_layers, highest_priority,
  all_cacheable, composed_locator,
}
use bindly.Locator.Compose.Order.{Decides, try_layers-Decides}
use bindly.Resolve.{
  State, Outcome, resolve, walk, consult, store, run, unwrap, open_envelope, should_cache,
  from_persistent, contains, active_key, remove,
}
use bindly.Resolve.Keys.{same_resolution_key, same_target}
use bindly.Resolve.Active.{free}
use bindly.Resolve.Total.{AsksWithin, SourcesWithin, resolve-active, resolve_total}
use bindly.Resolve.Caching.{resolve_again}
use bindly.Tests.{
  location_of, seven, query_provider, asking_locator, state_provider, empty_provider, injector_of,
  settings_of, fresh_state,
}

abbrev ages : Map String ℕ
ages = record { entries = ("a", 1) ∷ ("b", 2) ∷ [] }

abbrev two_kinds : Registry.Registry
two_kinds = record { entries = ("query", query_provider) ∷ [] } ∷ []

register_all-lookup_example :
    All
      (λ p.
        Registry.lookup
          (record { entries = ("state", state_provider) ∷ ("query", query_provider) ∷ [] } ∷ [])
          p.kind
        ≡ some p)
      (query_provider ∷ state_provider ∷ [])
unfolding Registry.register_all Registry.register Registry.new_registry Map.new Map.exists Map.get
    Map.put Map.lookup Map.without
register_all-lookup_example =
    register_all-lookup Registry.new_registry
      (record { entries = ("state", state_provider) ∷ ("query", query_provider) ∷ [] } ∷ [])
      (query_provider ∷ state_provider ∷ []) refl

abbrev layer_of : String → Provider → Layer
layer_of name p = record { name = name; provider = some p }

abbrev silent : Lookup
silent = record { value = Value.invalid; found = false; error = none }

-- A scope that counts what it is asked, and answers nothing.
abbrev counting : ℕ → Option Location → Lookup × ℕ
counting n location = (silent, suc n)

try_layers-Decides_example :
    Decides false true "" none 3 none "id" counting
      (layer_of "first" empty_provider ∷ layer_of "second" query_provider ∷ [])
      0
      (seven, 0)
unfolding try_layers locate_layer request settles and_then
try_layers-Decides_example =
    try_layers-Decides false true "" none 3 none "id" counting
      (layer_of "first" empty_provider ∷ layer_of "second" query_provider ∷ []) 0

abbrev one_layer : List Layer
one_layer = layer_of "one" query_provider ∷ []

abbrev composed : Provider
composed = record {
  kind = "query";
  priority = highest_priority (ℤ.pos 0) one_layer;
  default_cacheable = some (all_cacheable one_layer);
  locate = λ state. some (composed_locator one_layer state);
}

abbrev first_answer : Option (Outcome × State)
first_answer =
    resolve 5 (settings_of query_provider) (some (location_of "query" "id")) (some text_type) none
      "" fresh_state

abbrev nested_answer : Option (Outcome × State)
nested_answer =
    resolve 5 (settings_of state_provider) (some (location_of "state" "id")) (some text_type) none
      "" fresh_state

abbrev seven_found : Outcome
seven_found = record {
  resolution = record { value = Value.text text_type "7"; found = true; metadata = none };
  error = none;
}

abbrev after_seven : State
after_seven = record {
  active = [];
  cache = record {
    entries =
        (
          record { owner = 1; location = location_of "query" "id"; target = some text_type },
          seven_found.resolution,
        )
        ∷ [];
  };
  persistent = none;
  now = 1;
}

first_answer_test : first_answer ≡ some (seven_found, after_seven)
unfolding resolve walk consult store run unwrap open_envelope should_cache from_persistent contains
    active_key remove request settles owns_name Registry.lookup Map.get Map.put Map.lookup
    Map.without same_resolution_key same_target same_type
first_answer_test = refl

resolve-active_example : after_seven.active ≡ fresh_state.active
resolve-active_example =
    resolve-active 5 (settings_of query_provider) (some (location_of "query" "id")) (some text_type)
      none "" fresh_state after_seven seven_found first_answer_test

resolve_again_example :
    resolve 9
      (settings_of query_provider)
      (some (location_of "query" "id"))
      (some text_type)
      none
      ""
      after_seven
    ≡ some (seven_found, after_seven)
unfolding Registry.lookup Map.get Map.lookup should_cache
resolve_again_example =
    resolve_again 5 8 (settings_of query_provider) (injector_of query_provider) query_provider
      (location_of "query" "id") (some text_type) none "" fresh_state after_seven seven_found refl
      refl refl first_answer_test refl refl

abbrev asked_keys : List String
asked_keys = "query:id" ∷ "state:id" ∷ []

state_within : SourcesWithin asked_keys (settings_of state_provider) (injector_of state_provider)
unfolding Registry.lookup Map.get Map.lookup request contains active_key
state_within kind p l policy now target name b given located requested =
    let supplied : state_provider ≡ p = ground arith in
    let placed : asking_locator ≡ l =
      ground (arith, located, ap (λ (q : Provider). q.locate none) supplied) in
    let asked : request false true policy asking_locator now target name ≡ some b =
      ap (λ x. request false true policy x now target name) placed ∙ requested in
    let behaviour : ask (some (location_of "query" "id")) (λ x. answer x) ≡ b =
      ground (arith, asked) in
    subst (AsksWithin asked_keys) behaviour (refl, λ x. tt)

resolve_total_example :
    (a : Outcome × State) × (resolve 3
        (settings_of state_provider)
        (some (location_of "state" "id"))
        (some text_type)
        none
        ""
        fresh_state
      ≡ some a)
unfolding contains active_key free
resolve_total_example =
    resolve_total asked_keys 3 (settings_of state_provider) (some (location_of "state" "id"))
      (some text_type) none "" fresh_state (state_within, tt) refl (omega arith)
