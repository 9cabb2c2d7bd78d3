-- ===== src/Resolve.antt =====
-- scope.go: an invocation's resolution of one location, through the injector and its parents, with
-- the cycle check, the invocation's cache and the persistent cache; and binding_metadata.go's unwrap.
-- A persistent key is its five parts, where the code joins their texts by colons.
pub mod Keys
pub mod Active
pub mod Total
pub mod Caching
use Prim.Native.String.{◌++◌}
use bindly.Prelude.{
  ℕ, zero, suc, ◌+◌, String, Bool, true, false, not, Option, none, some, List, [], ◌∷◌, ◌&&◌, ◌||◌,
  is_some, str_eq, select, if◌then◌else◌,
}
use bindly.Reflect.{GoType, Value, envelope_type, same_type}
use bindly.Errors.{Error, Result, ok, err, join_optional}
use bindly.Map
use bindly.Map.{Map}
use bindly.Locator.{Location, Lookup, missing, failing, Behaviour, answer, ask, Locator, Provider}
use bindly.Locator.Registry
use bindly.Locator.Registry.{Registry}
use bindly.Locator.Compose.{request, settles}
use bindly.Resolve.Keys.{
  ResolutionKey, PersistentKey, resolution_key_comparable, persistent_key_comparable,
}

-- An injector of the lookup chain: its identity and its providers.
pub record Injector : Type 0 where
  pub id : ℕ
  pub locators : Registry

-- resolution
pub record Resolution : Type 0 where
  pub value : Value
  pub found : Bool
  pub metadata : Option Value

abbrev pub unresolved : Resolution
unresolved = record { value = Value.invalid; found = false; metadata = none }

-- The fields of an invocation that a resolution only reads. `injectors` is `s.injector` with its
-- parents, `group_source` the state that `s.groupSource` returns, if that is set.
pub record Settings : Type 0 where
  pub injectors : List Injector
  pub source : Option Value
  pub group_source : Option (Option Value)
  pub source_identity : String
  pub observing : Bool
  pub capture_sources : Bool

-- The fields that it changes, and the moment: the number of source calls begun so far.
pub record State : Type 0 where
  pub active : List String
  pub cache : Map ResolutionKey Resolution
  pub persistent : Option (Map PersistentKey Value)
  pub now : ℕ

pub record Outcome : Type 0 where
  pub resolution : Resolution
  pub error : Option Error

abbrev pub failed : Error → Outcome
failed e = record { resolution = unresolved; error = some e }

-- The location's key among the active ones.
unfoldable pub active_key : Location → String
active_key l = l.kind ++ (":" ++ l.in_path)

unfoldable pub contains : List String → String → Bool
contains [] k = false
contains (a ∷ keys) k = str_eq a k || contains keys k

-- `delete(s.active, key)`
unfoldable pub remove : List String → String → List String
remove keys k = select (λ a. not (str_eq a k)) keys

abbrev is_envelope : Value → Bool
is_envelope (Value.envelope v m) = true
is_envelope (Value.pointer t (Value.envelope v m)) = true
is_envelope (Value.nil (GoType.pointer t)) = same_type t envelope_type
is_envelope _ = false

-- The switch of (*resolution).unwrap: the value and metadata of an envelope.
unfoldable pub open_envelope : Value → Option Value → Result (Value × Option Value)
open_envelope (Value.envelope v m) old = ok (v, some m)
open_envelope (Value.pointer t (Value.envelope v m)) old = ok (v, some m)
open_envelope (Value.nil (GoType.pointer t)) old =
    if same_type t envelope_type
    then err (Error.message "provider returned a nil metadata envelope" [])
    else ok (Value.nil (GoType.pointer t), old)
open_envelope v old = ok (v, old)

-- (*resolution).unwrap
unfoldable pub unwrap : Bool → Resolution → Result Resolution
unfolding open_envelope
unwrap requested r = elim (open_envelope r.value r.metadata) [
  | err e ↦ err e
  | ok (v, m) ↦
      if is_envelope v
      then err (Error.message "provider returned nested metadata envelopes" [])
      else ok (record {
        value = v;
        found = r.found;
        metadata = if not requested || not r.found then none else m;
      })
]

-- `cacheable`, the provider's policy, and the body null policy, which rules caching out.
unfoldable pub should_cache : Provider → Option Bool → String → Bool
should_cache provider cacheable policy = if not (str_eq policy "") then false else elim cacheable [
  | some b ↦ b
  | none ↦ elim provider.default_cacheable [ some b ↦ b | none ↦ false ]
]

abbrev effective_persistent : Settings → State → Option (Map PersistentKey Value)
effective_persistent s st = if s.capture_sources then none else st.persistent

abbrev persistent_get : Option (Map PersistentKey Value) → PersistentKey → Option Value
persistent_get none k = none
persistent_get (some m) k = Map.get m k

abbrev persistent_put :
    Option (Map PersistentKey Value) → PersistentKey → Value → Option (Map PersistentKey Value)
persistent_put none k v = none
persistent_put (some m) k v = some (Map.put m k v)

abbrev source_state : Settings → Option Value
source_state s = elim s.group_source [ some snapshot ↦ snapshot | none ↦ s.source ]

abbrev Answer : Type 0
Answer = Option (Outcome × State)

abbrev lookup_of : Outcome → Lookup
lookup_of o = record { value = o.resolution.value; found = o.resolution.found; error = o.error }

-- A scoped source runs, and the scope answers what it asks; none when the fuel of an inner
-- resolution runs out.
unfoldable pub run :
    (Option Location → State → Answer) → Behaviour → State → Option (Lookup × State)
run asked (answer l) st = some (l, st)
run asked (ask location next) st = elim (asked location st) [
  | none ↦ none
  | some (o, st') ↦ run asked (next (lookup_of o)) st'
]

abbrev cached : Bool → Map ResolutionKey Resolution → ResolutionKey → Option Resolution
cached false m k = none
cached true m k = Map.get m k

abbrev persisted : Bool → Option (Map PersistentKey Value) → PersistentKey → Option Value
persisted false m k = none
persisted true m k = persistent_get m k

-- The value of a persistent entry, as the result.
unfoldable pub from_persistent : Value → Outcome
unfolding unwrap
from_persistent v = elim (unwrap false (record { value = v; found = true; metadata = none })) [
  | ok r ↦ record { resolution = r; error = none }
  | err e ↦ failed e
]

-- After a settled answer: unwrap it, store it, and return it with its error.
unfoldable pub store :
    Settings → Bool → ResolutionKey → PersistentKey → Lookup → State → Outcome × State
store s caching key persistent_key l st =
    elim (unwrap s.observing (record { value = l.value; found = l.found; metadata = none })) [
      | err e ↦ (record { resolution = unresolved; error = join_optional l.error (some e) }, st)
      | ok r ↦ elim l.error [
        | some e ↦ (record { resolution = record r { metadata = none }; error = some e }, st)
        | none ↦ (
          record { resolution = r; error = none },
          if caching
              then record st {
                cache = Map.put st.cache key r;
                persistent =
                    if r.found && not s.capture_sources
                    then persistent_put st.persistent persistent_key r.value
                    else st.persistent;
              }
              else st,
        )
      ]
    ]

module _ (s : Settings) (asked : Option Location → State → Answer) (location : Location)
    (target : Option GoType) (cacheable : Option Bool) (policy : String) where
  abbrev resolution_key : Injector → ResolutionKey
  resolution_key current = record { owner = current.id; location = location; target = target }

  abbrev persistent_key : Injector → PersistentKey
  persistent_key current = record {
    owner = current.id;
    location = location;
    target = target;
    identity = s.source_identity;
  }

  -- The source of one injector is called; `parents` is what the loop does next.
  unfoldable pub consult : Injector → Provider → (State → Answer) → State → Answer
  consult current provider parents st = elim (provider.locate (source_state s)) [
    | none ↦ some (
      failed (elim s.source [
        | none ↦
            Error.message "binding provider %q requires source state; use WithSource"
              (location.kind ∷ [])
        | some v ↦ Error.message "provider %s returned no locator" (location.kind ∷ [])
      ]),
      st,
    )
    | some l ↦ elim (request s.capture_sources true policy l st.now target location.in_path) [
      | none ↦ some (
        failed (Error.message "provider %s does not support bodyNullPolicy" (location.kind ∷ [])),
        st,
      )
      | some b ↦ elim (run asked b (record st { now = st.now + 1 })) [
        | none ↦ none
        | some (r, st') ↦
            if settles l location.in_path r
            then some (
                store s (should_cache provider cacheable policy) (resolution_key current)
                  (persistent_key current) r st')
            else parents st'
      ]
    ]
  ]

  -- The loop over the injector and its parents.
  unfoldable pub walk : List Injector → State → Answer
  walk [] st = some (record { resolution = unresolved; error = none }, st)
  walk (current ∷ parents) st = elim (Registry.lookup current.locators location.kind) [
    | none ↦ walk parents st
    | some provider ↦
        let caching = should_cache provider cacheable policy in
        elim (cached caching st.cache (resolution_key current)) [
          | some r ↦ some (record { resolution = r; error = none }, st)
          | none ↦ elim (persisted caching (effective_persistent s st) (persistent_key current)) [
            | some v ↦ some (from_persistent v, st)
            | none ↦ consult current provider (walk parents) st
          ]
        ]
  ]

-- `defer delete(s.active, key)`
abbrev release : String → Answer → Answer
release key none = none
release key (some (o, st)) = some (o, record st { active = remove st.active key })

-- resolveBindingResult. The fuel bounds the depth of nested resolutions.
unfoldable pub resolve :
    ℕ → Settings → Option Location → Option GoType → Option Bool → String → State → Answer
resolve zero s location target cacheable policy st = none
resolve (suc fuel) s none target cacheable policy st =
    some (failed (Error.message "binding location is required" []), st)
resolve (suc fuel) s (some location) target cacheable policy st =
    let key = active_key location in
    let asked = λ (inner : Option Location) (st' : State). resolve fuel s inner none none "" st' in
    if contains st.active key
    then some (failed (Error.message "cyclic binding dependency %s" (key ∷ [])), st)
    else release key (
        walk s asked location target cacheable policy s.injectors
          (record st { active = key ∷ st.active }))
