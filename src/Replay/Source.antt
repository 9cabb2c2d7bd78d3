-- ===== src/Replay/Source.antt =====
-- replay_provider.go: a replay as the value sources of its bindings' kinds.
-- The sorting of strings, the conversion of a value, and a raw message as a value are other code,
-- as is the context, which may be cancelled from some moment on.
pub mod Answers
use bindly.Prelude.{
  ℕ, String, Bool, true, false, not, ◌||◌, Option, none, some, List, [], ◌∷◌, str_eq, is_some,
  if◌then◌else◌,
}
use bindly.Prelude.Comparable.{string_comparable}
use bindly.Map
use bindly.Map.{Map}
use bindly.Reflect.{GoType, Value}
use bindly.Errors.{Error, Result, ok, err, ◌>>=◌}
use bindly.Locator.{Locator, Lookup, missing, failing, Provider, priority_source}
use bindly.Spec.{BindingSpec}
use bindly.Replay.{Codec, Replay, ReplayValue, source}

-- The selected bindings of a kind by their locations.
abbrev pub Fields : Type 0
Fields = Map String BindingSpec

-- `previous, ok := p.fields[binding.Location.In]; ok && previous.Path != binding.Path`
abbrev pub is_ambiguous : Option BindingSpec → String → Bool
is_ambiguous none path = false
is_ambiguous (some previous) path = not (str_eq previous.path path)

abbrev pub fields_of : Map String Fields → String → Fields
fields_of groups kind = elim (Map.get groups kind) [ some fields ↦ fields | none ↦ Map.new ]

-- The body of the loop of (*Replay).Providers.
unfoldable pub add_binding : Map String Fields → BindingSpec → Result (Map String Fields)
add_binding groups b =
    let fields = fields_of groups b.location.kind in
    if is_ambiguous (Map.get fields b.location.in_path) b.path
    then err (
        Error.message "ambiguous replay location %s:%s" (b.location.kind ∷ b.location.in_path ∷ []))
    else ok (Map.put groups b.location.kind (Map.put fields b.location.in_path b))

unfoldable pub group_bindings :
    Map String Fields → List (String × BindingSpec) → Result (Map String Fields)
unfolding add_binding
group_bindings groups [] = ok groups
group_bindings groups (entry ∷ rest) = elim (add_binding groups entry.1) [
  | err e ↦ err e
  | ok groups' ↦ group_bindings groups' rest
]

-- A result of the code's form (any, bool, error).
abbrev lookup_of : Result (Option Value) → Lookup
lookup_of (err e) = failing e
lookup_of (ok none) = missing
lookup_of (ok (some v)) = record { value = v; found = true; error = none }

abbrev prepared_value : Option (Map String ReplayValue) → String → Option ReplayValue
prepared_value none path = none
prepared_value (some prepared) path = Map.get prepared path

module _ (c : Codec) (convert : Value → Option GoType → Result Value) (raw_message : String → Value)
    (cancelled : ℕ → Option Error) where
  -- The value of a conversion with `true`, also where it fails.
  abbrev converted : Result Value → Lookup
  converted (err e) = record { value = Value.invalid; found = true; error = some e }
  converted (ok v) = record { value = v; found = true; error = none }

  abbrev detach : ReplayValue → Option GoType → Lookup
  detach held target = if not held.found then missing else elim (c.clone_value held.value) [
    | err e ↦ failing e
    | ok detached ↦ converted (convert detached target)
  ]

  -- (*replayProvider).ValueWithBodyNullPolicy
  unfoldable pub replayed : Replay → Fields → Option GoType → String → String → Lookup
  unfolding source
  replayed r fields target name policy = elim (Map.get fields name) [
    | none ↦ missing
    | some b ↦
        if not (str_eq b.body_null_policy "") || not (str_eq policy "")
        then lookup_of (source c r.raw (record b { body_null_policy = policy }) target)
        else elim (prepared_value r.prepared b.path) [
          | none ↦ lookup_of (source c r.raw b target)
          | some held ↦
              if is_some b.transformer
              then lookup_of (source c r.raw b target)
              else detach held target
        ]
  ]

  -- (*replayProvider).CaptureSource
  unfoldable pub captured : Replay → Fields → ℕ → String → Lookup
  captured r fields now name = elim (cancelled now) [
    | some e ↦ failing e
    | none ↦ elim (Map.get fields name) [
      | none ↦ missing
      | some b ↦ elim (Map.get r.raw b.name) [
        | none ↦ missing
        | some raw ↦ record { value = raw_message raw; found = true; error = none }
      ]
    ]
  ]

  -- *replayProvider as a locator, which is its own Locate.
  unfoldable pub replay_locator : Replay → Fields → Locator
  unfolding replayed captured
  replay_locator r fields = record {
    value = λ now target name. replayed r fields target name "";
    value_in_scope = none;
    owns = some (λ name. is_some (Map.get fields name));
    capture_source = some (λ now target name. captured r fields now name);
    value_with_null_policy = some (λ now target name policy. replayed r fields target name policy);
  }

  unfoldable pub replay_provider : Replay → String → Fields → Provider
  unfolding replay_locator
  replay_provider r kind fields = record {
    kind = kind;
    priority = priority_source;
    default_cacheable = some false;
    locate = λ state. some (replay_locator r fields);
  }

  -- The last loop of (*Replay).Providers.
  unfoldable pub take_providers : Replay → Map String Fields → List String → List Provider
  unfolding replay_provider
  take_providers r groups [] = []
  take_providers r groups (kind ∷ rest) =
      replay_provider r kind (fields_of groups kind) ∷ take_providers r groups rest

  -- (*Replay).Providers
  unfoldable pub providers : (List String → List String) → Replay → Result (List Provider)
  unfolding group_bindings take_providers
  providers sort r = do
    groups ← group_bindings Map.new r.plan.fields.entries
    ok (take_providers r groups (sort (Map.keys groups)))
