-- ===== src/Plan/Compile.antt =====
-- plan.go: (*Injector).CompilePlan over given specifications, and resolvePlanField.
-- A target type's fields, what a transformer tag creates and the clone of a default are other
-- code; so is the reading of specifications from a target's tags, where none are given.
use bindly.Prelude.{
  ℕ, String, Bool, true, false, not, ◌++◌, Option, none, some, List, [], ◌∷◌, map, str_eq, nat_eq,
  if◌then◌else◌,
}
use Prim.Native.Char.{code}
use Prim.Native.String.{◌++◌ as append}
use bindly.Prelude.Comparable.{string_comparable}
use bindly.Map
use bindly.Map.{Map}
use bindly.Reflect.{GoType, Kind, Value, kind_of, base_type}
use bindly.Errors.{Error, Result, ok, err, ◌>>=◌, refuse_if}
use bindly.Field.{Access}
use bindly.Spec.{BindingSpec, Transformer, validate_null_policy}
use bindly.RecordCount.{compile_record_count}
use bindly.Resolve.{contains}
use bindly.Groups.{compile_groups}
use bindly.Plan.{Plan}

-- The parts of a reflect.StructField that are read: `xform` is its transformer tag.
pub record StructField : Type 0 where
  pub name : String
  pub index : List ℕ
  pub type : GoType
  pub exported : Bool
  pub set_marker : Bool
  pub xform : Option String

-- strings.Split at each dot.
unfoldable pub split_dots : String → List String
split_dots String.[] = String.[] ∷ []
split_dots (String.◌∷◌ c s) = elim (split_dots s) [
  | [] ↦ String.◌∷◌ c String.[] ∷ []
  | part ∷ parts ↦
      if nat_eq (code c) (b'.') then String.[] ∷ part ∷ parts else String.◌∷◌ c part ∷ parts
]

-- The part behind the last dot.
unfoldable pub last_part : List String → String → String
last_part [] whole = whole
last_part (part ∷ parts) whole = last_part parts part

-- Package reflect on struct types, the injector's transformers, and the clone of a value.
pub record Surroundings : Type 0 where
  pub visible_fields : GoType → List StructField
  pub field_by_name : GoType → String → Option StructField
  pub create_transformer : String → GoType → Result Transformer
  pub clone_value : Value → Result Value

abbrev pub is_struct : GoType → Bool
is_struct (GoType.struct n fs) = true
is_struct t = false

unfoldable pub is_bool : GoType → Bool
is_bool t = elim (kind_of t) [ Kind.bool ↦ true | other ↦ false ]

module _ (r : Surroundings) where
  -- The loop of `resolvePlanField` over the names of a path: the index so far and the last field.
  unfoldable pub resolve_names :
      String → List ℕ → Option StructField → GoType → List String → Result (Option StructField)
  resolve_names path indexes leaf target [] =
      ok (elim leaf [ none ↦ none | some f ↦ some (record f { index = indexes }) ])
  resolve_names path indexes leaf target (name ∷ names) =
      if not (is_struct (base_type target))
      then err (Error.message "binding path %q traverses non-struct %s" (path ∷ []))
      else elim (r.field_by_name (base_type target) name) [
        | none ↦ err (Error.message "binding path %q is not defined" (path ∷ []))
        | some f ↦
            let rest = resolve_names path (indexes ++ f.index) (some f) f.type names in
            if f.exported
            then rest
            else err (Error.message "binding path %q is not defined" (path ∷ []))
      ]

  -- resolvePlanField. A split path has at least one part.
  unfoldable pub resolve_plan_field : GoType → String → Result StructField
  unfolding resolve_names
  resolve_plan_field target path = do
    leaf ← resolve_names path [] none target (split_dots path)
    elim leaf [
      | some f ↦ ok f
      | none ↦ err (Error.message "binding path %q is not defined" (path ∷ []))
    ]

  -- The marker of a binding that names none: of the first marker field that has one for the path.
  unfoldable pub default_marker : GoType → String → List StructField → String
  default_marker target leaf [] = ""
  default_marker target leaf (candidate ∷ rest) =
      let later = default_marker target leaf rest in
      let path = append candidate.name (append "." leaf) in
      if candidate.set_marker
      then elim (resolve_plan_field target path) [
        | ok marker ↦ if is_bool marker.type then path else later
        | err e ↦ later
      ]
      else later

  -- The marker field of a binding.
  unfoldable pub marker_field_of : GoType → BindingSpec → String
  marker_field_of target spec =
      if str_eq spec.marker_field ""
      then default_marker target (last_part (split_dots spec.path) "") (r.visible_fields target)
      else spec.marker_field

  unfoldable pub add_marker : GoType → String → Map String Access → Result (Map String Access)
  add_marker target marker fields = if str_eq marker "" then ok fields else (do
    f ← resolve_plan_field target marker
    u ←
        refuse_if (not (is_bool f.type))
          (Error.message "binding marker %s must be bool" (marker ∷ []))
    ok (Map.put fields marker (record { index = f.index; type = f.type })))

  unfoldable pub transformer_of : BindingSpec → StructField → Result (Option Transformer)
  transformer_of spec f = elim spec.transformer [
    | some t ↦ ok (some t)
    | none ↦ elim f.xform [
      | none ↦ ok none
      | some raw ↦ do t ← r.create_transformer raw f.type; ok (some t)
    ]
  ]

  unfoldable pub default_of : BindingSpec → Result (Option Value)
  default_of spec = elim spec.default_value [
    | none ↦ ok none
    | some v ↦ elim (r.clone_value v) [
      | ok w ↦ ok (some w)
      | err e ↦ err (Error.wrapped "binding %s metadata: %w" e)
    ]
  ]

  abbrev pub refuse_fault : Option Error → Result (Unit {0})
  refuse_fault none = ok tt
  refuse_fault (some e) = err (Error.wrapped "binding %s: %w" e)

  -- One specification: its compiled form and the fields with its own.
  unfoldable pub compile_binding :
      GoType → Map String Access → BindingSpec → Result (BindingSpec × Map String Access)
  compile_binding target fields spec = do
    f ← resolve_plan_field target spec.path
    u ← refuse_fault (compile_record_count spec f.type)
    marked ←
        add_marker target (marker_field_of target spec)
          (Map.put fields spec.path (record { index = f.index; type = f.type }))
    v ←
        refuse_if (str_eq spec.location.kind "")
          (Error.message "binding %s requires a source kind" (spec.path ∷ []))
    t ← transformer_of spec f
    d ← default_of spec
    w ← refuse_fault (
        validate_null_policy
          (record spec {
            marker_field = marker_field_of target spec;
            transformer = t;
            default_value = d;
          })
          (some f.type))
    ok (
      record spec {
        marker_field = marker_field_of target spec;
        transformer = t;
        default_value = d;
      },
      marked,
    )

  -- The loop of CompilePlan over the specifications; `seen` are the paths so far.
  unfoldable pub compile_bindings :
      GoType
      → List String
      → Map String Access
      → List BindingSpec
      → Result (List BindingSpec × Map String Access)
  compile_bindings target seen fields [] = ok ([], fields)
  compile_bindings target seen fields (spec ∷ rest) =
      if contains seen spec.path
      then err (Error.message "duplicate binding path %s" (spec.path ∷ []))
      else (do
        compiled ← compile_binding target fields spec
        others ← compile_bindings target (spec.path ∷ seen) compiled.1 rest
        ok (compiled.0 ∷ others.0, others.1))

  abbrev pub index_map : Map String Access → Map String (List ℕ)
  index_map fields = record { entries = map (λ e. (e.0, e.1.index)) fields.entries }

  -- CompilePlan; none if the fuel of the search for cycles ran out.
  unfoldable pub compile_plan : GoType → List BindingSpec → Option (Result Plan)
  compile_plan target specs =
      if not (is_struct (base_type target))
      then some (err (Error.message "binding target must be a struct" []))
      else elim (compile_bindings (base_type target) [] Map.new specs) [
        | err e ↦ some (err e)
        | ok (bindings, fields) ↦ elim (compile_groups (index_map fields) bindings) [
          | none ↦ none
          | some (err e) ↦ some (err e)
          | some (ok (formed, groups)) ↦ some (
              ok (record {
                groups = groups;
                target = base_type target;
                bindings = formed;
                fields = fields;
              }))
        ]
      ]
