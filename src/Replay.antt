-- ===== src/Replay.antt =====
-- replay.go, replay_plan.go and replay_binding.go: the selection of replayed bindings, the capture
-- of their values, and the check of an authorization.
-- Raw JSON is a text. Encoding and decoding it, the conversion, clone and comparison of values, the
-- lower case of a name, and the authorization gate are other code. A range over a map takes the
-- entries in the order of the list.
pub mod Authorized
pub mod Prepared
pub mod Keyed
pub mod Source
use bindly.Prelude.{
  ℕ, zero, suc, String, Bool, true, false, not, ◌&&◌, ◌||◌, ◌++◌, Option, none, some, List, [], ◌∷◌,
  str_eq, is_some, if◌then◌else◌,
}
use bindly.Prelude.Comparable.{string_comparable}
use bindly.Prelude.Text.{trim_space}
use bindly.Map
use bindly.Map.{Map}
use bindly.Reflect.{GoType, Value, same_type}
use bindly.Errors.{Error, Result, ok, err, ◌>>=◌, ◌>>◌, refuse_if}
use bindly.Field.{Access, get}
use bindly.Spec.{BindingSpec, is_set, raw_null_policy}
use bindly.Resolve.{contains, remove}
use bindly.Plan.{Plan, target_type, is_target, presence, presence_marker, field_value}
use bindly.Projection.{Projection}
use bindly.Bind.{nil_value}

-- `protected` is a set of paths.
pub record ReplayPlan : Type 0 where
  pub plan : Plan
  pub fields : Map String BindingSpec
  pub order : List String
  pub preflight : Map String BindingSpec
  pub protected : List String

-- The loop that selects a binding by its path.
unfoldable pub find_binding : List BindingSpec → String → Option BindingSpec
find_binding [] path = none
find_binding (b ∷ rest) path = if str_eq b.path path then some b else find_binding rest path

abbrev pub with_name : BindingSpec → BindingSpec
with_name b = record b { name = if str_eq b.name "" then b.path else b.name }

-- The loop of (*Plan).Replay: the names so far, the fields and the order.
unfoldable pub select_bindings :
    List BindingSpec
    → List String
    → Map String BindingSpec
    → List String
    → Result (Map String BindingSpec)
unfolding find_binding
select_bindings bindings names fields [] = ok fields
select_bindings bindings names fields (path ∷ rest) = elim (find_binding bindings path) [
  | none ↦ err (Error.message "replay binding %s is not defined" (path ∷ []))
  | some b ↦
      let others =
        select_bindings bindings ((with_name b).name ∷ names) (Map.put fields path (with_name b))
          rest in
      if contains names (with_name b).name
      then err (Error.message "duplicate replay parameter %s" ((with_name b).name ∷ []))
      else others
]

-- (*Plan).Replay
unfoldable pub replay : Option Plan → List String → Result ReplayPlan
unfolding select_bindings
replay none paths = err (Error.message "replay requires a binding plan" [])
replay (some plan) paths = do
  fields ← select_bindings plan.bindings [] Map.new paths
  ok (record { plan = plan; fields = fields; order = paths; preflight = fields; protected = [] })

-- What `visit` changes.
pub record Preparing : Type 0 where
  pub preflight : Map String BindingSpec
  pub protected : List String
  pub active : List String

-- The sources that a prepared binding may have, besides a parameter.
abbrev pub is_pure : String → Bool
is_pure kind = str_eq kind "const" || (str_eq kind "literal" || str_eq kind "env")

abbrev pub finish : String → BindingSpec → Preparing → Preparing
finish path b st = record st {
  preflight = Map.put st.preflight path b;
  active = remove st.active path;
}

abbrev after_source : String → BindingSpec → Option (Result Preparing) → Option (Result Preparing)
after_source path b none = none
after_source path b (some (err e)) = some (err e)
after_source path b (some (ok st)) = some (ok (finish path b st))

module _ (to_lower : String → String) (projection : Projection) (bindings : List BindingSpec) where
  -- The closure `visit`; none when the fuel for nested sources runs out.
  unfoldable pub visit : ℕ → String → Preparing → Option (Result Preparing)
  visit zero path st = none
  visit (suc fuel) path st =
      let kept = record st { protected = path ∷ st.protected } in
      let entered = record kept { active = path ∷ st.active } in
      if Map.exists st.preflight path
      then some (ok kept)
      else if contains st.active path
      then some (err (Error.message "cyclic replay preparation %s" (path ∷ [])))
      else elim (find_binding bindings path) [
        | none ↦ some (err (Error.message "replay preparation binding %s is absent" (path ∷ [])))
        | some b ↦
            if str_eq b.location.kind "param"
            then elim (Map.get projection.paths (to_lower (trim_space b.location.in_path))) [
              | none ↦ some (
                  err (
                    Error.message "replay preparation source %s is absent"
                      (b.location.in_path ∷ [])))
              | some source ↦ after_source path b (visit fuel source entered)
            ]
            else if is_pure b.location.kind
            then some (ok (finish path b entered))
            else some (
                err (
                  Error.message
                    "replay authorization requires an external or pure parameter source for %s"
                    (path ∷ [])))
      ]

  unfoldable pub visit_paths : ℕ → List String → Preparing → Option (Result Preparing)
  unfolding visit
  visit_paths fuel [] st = some (ok st)
  visit_paths fuel (path ∷ rest) st = elim (visit fuel path st) [
    | none ↦ none
    | some (err e) ↦ some (err e)
    | some (ok st') ↦ visit_paths fuel rest st'
  ]

-- (*ReplayPlan).Prepare
unfoldable pub prepare :
    (String → String)
    → ℕ
    → ReplayPlan
    → Option Projection
    → List String
    → Option (Result ReplayPlan)
unfolding visit_paths
prepare to_lower fuel p none paths =
    some (err (Error.message "replay preparation requires the canonical input projection" []))
prepare to_lower fuel p (some projection) paths =
    if not (same_type projection.target p.plan.target)
    then some (err (Error.message "replay preparation requires the canonical input projection" []))
    else elim (visit_paths to_lower projection p.plan.bindings fuel paths
        (record { preflight = p.preflight; protected = p.protected; active = [] })) [
          | none ↦ none
          | some (err e) ↦ some (err e)
          | some (ok st) ↦
              some (ok (record p { preflight = st.preflight; protected = st.protected }))
        ]

-- replayValue
pub record ReplayValue : Type 0 where
  pub value : Value
  pub found : Bool

pub record Replay : Type 0 where
  pub plan : ReplayPlan
  pub raw : Map String String
  pub prepared : Option (Map String ReplayValue)

abbrev path_error : BindingSpec → String → String → Error
path_error b path text =
    Error.binding
      (record {
        address = 0;
        path = path;
        name = "";
        kind = "";
        in_path = "";
        code = b.error_code;
        message = b.error_message;
      })
      (Error.message text [])

-- Encoding, decoding and the values' clone and comparison.
pub record Codec : Type 0 where
  pub clone_value : Value → Result Value
  pub deep_equal : Value → Value → Bool
  -- conversion to the source type, json.Marshal, and VerifyTypedRoundtrip of the field's type
  pub encode : Value → GoType → GoType → Result (String × Value)
  pub decode : String → Option GoType → String → Result (Option Value)

module _ (c : Codec) where
  -- (*Replay).encodeField
  unfoldable pub encode_field : BindingSpec → GoType → Value → Result String
  encode_field b field_type value = do
    encoded ← c.encode value (elim b.source_type [ some t ↦ t | none ↦ field_type ]) field_type
    u ← refuse_if (not (c.deep_equal value encoded.1)) (
        Error.message
          "replay parameter %s cannot preserve typed value/presence through JSON; provide raw source JSON"
          (b.name ∷ []))
    ok encoded.0

  -- (*Replay).source: a value, if the raw state has one.
  unfoldable pub source : Map String String → BindingSpec → Option GoType → Result (Option Value)
  source raw b target =
      if is_some b.transformer && not (is_some b.source_type)
      then err (Error.message "replay codec %s requires a source type" (b.name ∷ []))
      else elim (Map.get raw b.name) [
        | none ↦ ok none
        | some text ↦ c.decode text target (if raw_null_policy b then "" else b.body_null_policy)
      ]

  abbrev type_in : Plan → String → GoType
  type_in plan path = elim (Map.get plan.fields path) [ some a ↦ a.type | none ↦ plan.target ]

  -- The loop of (*ReplayPlan).Capture.
  unfoldable pub capture_paths :
      ReplayPlan → Value → Map String String → List String → Result (Map String String)
  unfolding encode_field
  capture_paths p input raw [] = ok raw
  capture_paths p input raw (path ∷ rest) = elim (Map.get p.fields path) [
    | none ↦ capture_paths p input raw rest
    | some b ↦ elim (presence (some p.plan) input path) [
      | err e ↦ err e
      | ok false ↦
          let others = capture_paths p input raw rest in
          if is_set b.required
          then err (path_error b path "required replay input is absent")
          else others
      | ok true ↦
          if is_some b.transformer
          then err (
              Error.message
                "replay parameter %s requires raw source JSON; decoded codec values cannot be persisted as source"
                (b.name ∷ []))
          else elim (field_value p.plan path input) [
            | none ↦ err (Error.message "replay field %s is inaccessible" (path ∷ []))
            | some v ↦ do
              encoded ← encode_field b (type_in p.plan path) v
              capture_paths p input (Map.put raw b.name encoded) rest
          ]
    ]
  ]

  -- (*ReplayPlan).Capture
  unfoldable pub capture : ReplayPlan → Value → Result Replay
  unfolding capture_paths
  capture p input =
      if is_target p.plan input
      then (do
        raw ← capture_paths p input Map.new p.order
        ok (record { plan = p; raw = raw; prepared = none }))
      else err (Error.message "replay input must be *%s" [])

  -- The value of one present binding, and the raw state with its source.
  unfoldable pub capture_present :
      ReplayPlan
      → Value
      → String
      → BindingSpec
      → Map String String
      → Result (Value × Map String String)
  unfolding encode_field source
  capture_present p input path b raw = elim (field_value p.plan path input) [
    | none ↦ err (Error.message "prepared replay input %s is inaccessible" (path ∷ []))
    | some v ↦
        if is_set b.required && nil_value v
        then err (path_error b path "required replay input is null")
        else (do
          detached ← c.clone_value v
          if is_some b.transformer then ok (detached, raw) else (do
            original ← source raw b (some (type_in p.plan path))
            if (elim original [ none ↦ false | some o ↦ c.deep_equal o detached ])
                then ok (detached, raw)
                else (do
                  encoded ← encode_field b (type_in p.plan path) detached
                  ok (detached, Map.put raw b.name encoded))))
  ]

  abbrev present_or : Result Bool → String → Bool → Result Bool
  present_or (err e) marker assigned = err e
  present_or (ok present) marker assigned = ok (if str_eq marker "" then assigned else present)

  -- The loop of (*Replay).capturePrepared, with the paths that were assigned.
  unfoldable pub capture_prepared_paths :
      ReplayPlan
      → Value
      → List String
      → Map String String
      → Map String ReplayValue
      → List String
      → Result (Map String String × Map String ReplayValue)
  unfolding capture_present
  capture_prepared_paths p input assigned raw prepared [] = ok (raw, prepared)
  capture_prepared_paths p input assigned raw prepared (path ∷ rest) =
      elim (Map.get p.fields path) [
        | none ↦ capture_prepared_paths p input assigned raw prepared rest
        | some b ↦ elim (presence_marker (some p.plan) input path) [
          | err e ↦ err e
          | ok marker ↦
              elim (present_or (presence (some p.plan) input path) marker
                (contains assigned path)) [
                  | err e ↦ err e
                  | ok false ↦
                      let others =
                        capture_prepared_paths p input assigned (Map.delete raw b.name)
                          (Map.put prepared path (record { value = Value.invalid; found = false }))
                          rest in
                      if is_set b.required
                      then err (path_error b path "required replay input is absent")
                      else others
                  | ok true ↦ elim (capture_present p input path b raw) [
                    | err e ↦ err e
                    | ok (detached, raw') ↦
                        capture_prepared_paths p input assigned raw'
                          (Map.put prepared path (record { value = detached; found = true })) rest
                  ]
                ]
        ]
      ]

  -- (*Replay).capturePrepared
  unfoldable pub capture_prepared : Replay → Value → List String → Result Replay
  unfolding capture_prepared_paths
  capture_prepared r input assigned = do
    captured ← capture_prepared_paths r.plan input assigned r.raw Map.new r.plan.order
    ok (record r { raw = captured.0; prepared = some captured.1 })

  -- The values that an authorization must keep: those of transformed or protected bindings.
  unfoldable pub values_before :
      ReplayPlan → Value → List (String × BindingSpec) → Result (Map String ReplayValue)
  values_before p input [] = ok Map.new
  values_before p input ((path, b) ∷ rest) = do
    others ← values_before p input rest
    if not (is_some b.transformer) && not (contains p.protected path)
        then ok others
        else elim (field_value p.plan path input) [
          | none ↦ err (Error.message "codec input %s is inaccessible" (path ∷ []))
          | some v ↦ do
            copy ← c.clone_value v
            present ← presence (some p.plan) input path
            ok (Map.put others path (record { value = copy; found = present }))
        ]

  abbrev same_bool : Bool → Bool → Bool
  same_bool true b = b
  same_bool false b = not b

  -- The loop of (*Replay).authorize after the gate.
  unfoldable pub check_after :
      ReplayPlan → Value → Map String ReplayValue → List (String × BindingSpec) → Result (Unit {0})
  check_after p input before [] = ok tt
  check_after p input before ((path, b) ∷ rest) = elim (Map.get before path) [
    | none ↦ check_after p input before rest
    | some expected ↦ elim (field_value p.plan path input) [
      | none ↦ err (Error.message "codec input %s is inaccessible" (path ∷ []))
      | some v ↦ elim (presence (some p.plan) input path) [
        | err e ↦ err e
        | ok present ↦
            let others = check_after p input before rest in
            if same_bool present expected.found && c.deep_equal v expected.value
            then others
            else err (
                Error.message
                  "authorization cannot replace verified codec input/output %s; supply raw source values"
                  (path ∷ []))
      ]
    ]
  ]

  -- (*Replay).authorize. The gate may change its input.
  unfoldable pub authorize :
      ReplayPlan → (Value → Value × Option Error) → Value → Value × Option Error
  unfolding values_before check_after
  authorize p gate input = elim (values_before p input p.preflight.entries) [
    | err e ↦ (input, some e)
    | ok before ↦ elim (gate input).1 [
      | some e ↦ ((gate input).0, some e)
      | none ↦ elim (check_after p (gate input).0 before p.preflight.entries) [
        | err e ↦ ((gate input).0, some e)
        | ok u ↦ ((gate input).0, none)
      ]
    ]
  ]
