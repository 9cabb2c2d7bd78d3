-- ===== src/Locator.antt =====
-- locator/locator.go, provider.go, priority.go, resolver.go and state/location.go: the interfaces
-- between the injector and its value sources.
-- A source is code outside the injector: it may answer differently at each moment, a count of the
-- source calls made so far, and a scoped source may ask the scope for other locations first.
pub mod Registry
pub mod Compose
use bindly.Prelude.{ℕ, String, Bool, true, false, Option, none, some, List}
use bindly.Prelude.Int.{ℤ}
use bindly.Reflect.{GoType, Value}
use bindly.Errors.{Error}

-- state.Location
pub record Location : Type 0 where
  pub kind : String
  pub in_path : String

-- What `Value` and its variants return: (any, bool, error).
pub record Lookup : Type 0 where
  pub value : Value
  pub found : Bool
  pub error : Option Error

abbrev pub missing : Lookup
missing = record { value = Value.invalid; found = false; error = none }

abbrev pub failing : Error → Lookup
failing e = record { value = Value.invalid; found = false; error = some e }

-- A computation that may ask its scope for locations (`nil` is none) before it answers. That it may
-- bind a target through its scope, too, is left out.
pub data Behaviour : Type 0 where
  answer : Lookup → Behaviour
  ask : Option Location → (Lookup → Behaviour) → Behaviour

-- Locator, with the optional interfaces ScopedLocator, AuthoritativeLocator, SourceCapturer and
-- BodyNullPolicyLocator. `none` in a target's place is a nil reflect.Type.
pub record Locator : Type 0 where
  pub value : ℕ → Option GoType → String → Lookup
  pub value_in_scope : Option (ℕ → Option GoType → String → Behaviour)
  pub owns : Option (String → Bool)
  pub capture_source : Option (ℕ → Option GoType → String → Lookup)
  pub value_with_null_policy : Option (ℕ → Option GoType → String → String → Lookup)

-- Provider, with the optional interface CachePolicy. `locate` is given the source state.
pub record Provider : Type 0 where
  pub kind : String
  pub priority : ℤ
  pub default_cacheable : Option Bool
  pub locate : Option Value → Option Locator

abbrev pub priority_source : ℤ
priority_source = ℤ.pos 0
