-- ===== src/Tests.antt =====
-- Concrete sources and bindings, for the tests and examples of the modules below.
pub mod Sources
pub mod Requests
pub mod Bindings
pub mod Groups
pub mod Runs
pub mod Plans
pub mod Seeds
pub mod Replays
pub mod Members
pub mod Stages
use bindly.Prelude.{ℕ, String, Bool, true, false, Option, none, some, List, [], ◌∷◌}
use bindly.Prelude.Int.{ℤ}
use bindly.Map.{Map}
use bindly.Reflect.{GoType, Value, text_type}
use bindly.Locator.{Location, Lookup, Behaviour, answer, ask, Locator, Provider}
use bindly.Locator.Registry.{Registry}
use bindly.Resolve.{Injector, Settings, State}
use bindly.Spec.{BindingSpec}

abbrev pub location_of : String → String → Location
location_of kind in_path = record { kind = kind; in_path = in_path }

abbrev pub seven : Lookup
seven = record { value = Value.text text_type "7"; found = true; error = none }

-- A source that knows every name.
abbrev pub plain_locator : Locator
plain_locator = record {
  value = λ now target name. seven;
  value_in_scope = none;
  owns = none;
  capture_source = none;
  value_with_null_policy = none;
}

abbrev pub query_provider : Provider
query_provider = record {
  kind = "query";
  priority = ℤ.pos 0;
  default_cacheable = some true;
  locate = λ st. some plain_locator;
}

-- A source that asks the scope for the query's id.
abbrev pub asking_locator : Locator
asking_locator = record plain_locator {
  value_in_scope = some (λ now target name. ask (some (location_of "query" "id")) (λ l. answer l));
}

abbrev pub state_provider : Provider
state_provider = record query_provider { kind = "state"; locate = λ st. some asking_locator }

-- A source that knows nothing.
abbrev pub empty_locator : Locator
empty_locator = record plain_locator {
  value = λ now target name. record { value = Value.invalid; found = false; error = none };
}

abbrev pub empty_provider : Provider
empty_provider = record query_provider { locate = λ st. some empty_locator }

abbrev pub one_provider : Provider → Registry
one_provider p = record { entries = (p.kind, p) ∷ [] } ∷ []

abbrev pub injector_of : Provider → Injector
injector_of p = record { id = 1; locators = one_provider p }

abbrev pub settings_of : Provider → Settings
settings_of p = record {
  injectors = injector_of p ∷ [];
  source = none;
  group_source = none;
  source_identity = "";
  observing = false;
  capture_sources = false;
}

abbrev pub fresh_state : State
fresh_state = record { active = []; cache = record { entries = [] }; persistent = none; now = 0 }

abbrev pub plain_binding : String → String → BindingSpec
plain_binding path kind = record {
  group = none;
  body_null_policy = "";
  marker_field = "";
  path = path;
  name = path;
  location = location_of kind path;
  source_type = none;
  required = none;
  cacheable = none;
  min_allowed = none;
  max_allowed = none;
  expected = none;
  when_path = "";
  scope = "";
  cardinality = "Many";
  priority = ℤ.pos 0;
  is_async = false;
  default_value = none;
  error_code = ℤ.pos 0;
  error_message = "";
  transformer = none;
}
