-- ===== src/Projection.antt =====
-- projection.go: the names by which a plan's target is read.
-- The lower case of a text, the fields of a struct type and the zeroing of fields are other code. A
-- range over a map takes the entries in the order of the list.
pub mod Resolved
use bindly.Prelude.{
  String, Bool, true, false, not, ◌&&◌, ◌||◌, ◌++◌, Option, none, some, List, [], ◌∷◌, str_eq,
  if◌then◌else◌,
}
use bindly.Prelude.Comparable.{string_comparable}
use bindly.Prelude.Text.{trim_space, equal_fold}
use bindly.Map
use bindly.Map.{Map}
use bindly.Reflect.{GoType, Value, same_type, type_of}
use bindly.Errors.{Error, Result, ok, err, ◌>>=◌}
use bindly.Field.{Access, get}
use bindly.Spec.{BindingSpec}
use bindly.Resolve.{contains}
use bindly.Plan.{Plan, target_type}
use bindly.Plan.Compile.{Surroundings, resolve_plan_field}

pub record ProjectionField : Type 0 where
  pub path : String
  pub names : List String

pub record Projection : Type 0 where
  pub target : GoType
  pub paths : Map String String
  pub markers : Map String String
  pub fields : Map String Access

-- A name in the map, of another path.
abbrev pub differs : Option String → String → Bool
differs none path = false
differs (some previous) path = not (str_eq previous path)

abbrev pub is_path : Option String → Option String → Bool
is_path (some a) (some b) = str_eq a b
is_path _ _ = false

module _ (r : Surroundings) (to_lower : String → String) where
  abbrev pub normal : String → String
  normal name = to_lower (trim_space name)

  -- A new or repeated name of a path.
  unfoldable pub put_name : String → String → Projection → Result Projection
  put_name name path p = do
    f ← resolve_plan_field r p.target path
    ok (record p {
      paths = Map.put p.paths name path;
      fields = Map.put p.fields path (record { index = f.index; type = f.type });
    })

  -- The closure `add`, with the structural names.
  unfoldable pub add_name : Map String String → String → String → Projection → Result Projection
  unfolding put_name
  add_name structural name path p =
      let added = put_name (normal name) path p in
      if str_eq (normal name) ""
      then ok p
      else if differs (Map.get p.paths (normal name)) path
      then (if is_path (Map.get structural (normal name)) (Map.get p.paths (normal name))
          then ok p
          else err
              (Error.message "input alias %q targets both %s and %s" (normal name ∷ path ∷ [])))
      else added

  unfoldable pub add_names :
      Map String String → String → List String → Projection → Result Projection
  unfolding add_name
  add_names structural path [] p = ok p
  add_names structural path (name ∷ rest) p = do
    p' ← add_name structural name path p
    add_names structural path rest p'

  -- The loop over the target's fields: their names and whether they are exported.
  unfoldable pub add_fields :
      Map String String
      → List (String × Bool)
      → Projection
      → Result (Projection × Map String String)
  unfolding add_name
  add_fields structural [] p = ok (p, structural)
  add_fields structural ((name, false) ∷ rest) p = add_fields structural rest p
  add_fields structural ((name, true) ∷ rest) p = do
    p' ← add_name structural name name p
    add_fields (Map.put structural (to_lower name) name) rest p'

  unfoldable pub add_bindings :
      Map String String → List BindingSpec → Projection → Result Projection
  unfolding add_names
  add_bindings structural [] p = ok p
  add_bindings structural (b ∷ rest) p = do
    p' ← add_names structural b.path (b.path ∷ b.name ∷ []) (
        if str_eq b.marker_field ""
        then p
        else record p { markers = Map.put p.markers b.path b.marker_field })
    add_bindings structural rest p'

  unfoldable pub add_projected :
      Map String String → List ProjectionField → Projection → Result Projection
  unfolding add_names
  add_projected structural [] p = ok p
  add_projected structural (f ∷ rest) p = elim (resolve_plan_field r p.target f.path) [
    | err e ↦ err (Error.message "projection path %q is not defined" (f.path ∷ []))
    | ok there ↦ do
      p' ← add_names structural f.path (f.path ∷ f.names) p
      add_projected structural rest p'
  ]

  -- `transport` and `ambiguous`.
  unfoldable pub transport_names :
      Map String String → List String → List BindingSpec → Map String String × List String
  transport_names transport ambiguous [] = (transport, ambiguous)
  transport_names transport ambiguous (b ∷ rest) =
      let name = normal b.location.in_path in
      let skipped = transport_names transport ambiguous rest in
      let clashing = transport_names (Map.put transport name b.path) (name ∷ ambiguous) rest in
      let clear = transport_names (Map.put transport name b.path) ambiguous rest in
      if equal_fold (trim_space b.location.kind) "param" || str_eq name ""
      then skipped
      else if differs (Map.get transport name) b.path
      then clashing
      else clear

  unfoldable pub add_transport :
      Map String String → List String → List (String × String) → Projection → Result Projection
  unfolding add_name
  add_transport structural ambiguous [] p = ok p
  add_transport structural ambiguous ((name, path) ∷ rest) p =
      if Map.exists p.paths name || contains ambiguous name
      then add_transport structural ambiguous rest p
      else (do p' ← add_name structural name path p; add_transport structural ambiguous rest p')

  abbrev pub add_transports : Map String String → List BindingSpec → Projection → Result Projection
  add_transports structural bindings p =
      let (transport, ambiguous) = transport_names Map.new [] bindings in
      add_transport structural ambiguous transport.entries p

  -- (*Plan).Projection, given the fields of the target's struct type.
  unfoldable pub projection :
      Option Plan → Result (List (String × Bool)) → List ProjectionField → Result Projection
  unfolding add_fields add_bindings add_projected transport_names add_transport
  projection none struct_fields fields = err (Error.message "binding plan is required" [])
  projection (some plan) struct_fields fields = do
    own ← struct_fields
    named ←
        add_fields Map.new own
          (record { target = plan.target; paths = Map.new; markers = Map.new; fields = Map.new })
    bound ← add_bindings named.1 plan.bindings named.0
    projected ← add_projected named.1 fields bound
    add_transports named.1 plan.bindings projected

  -- (*Projection).Value: the value and whether the name is one. A target is a value, or pointers to it.
  unfoldable pub behind_pointers : Value → Option Value
  behind_pointers (Value.pointer t v) = behind_pointers v
  behind_pointers (Value.nil (GoType.pointer t)) = none
  behind_pointers v = some v

  abbrev has_type : Option GoType → GoType → Bool
  has_type none t = false
  has_type (some u) t = same_type u t

  abbrev read : Projection → String → GoType → Value → Option Value
  read p path type target = elim (Map.get p.fields path) [
    | none ↦ some target
    | some a ↦ get a.index type target
  ]

  unfoldable pub value : Option Projection → GoType → Value → String → Result (Option Value × Bool)
  unfolding behind_pointers
  value none type target name = ok (none, false)
  value (some p) type target name = elim (Map.get p.paths (normal name)) [
    | none ↦ ok (none, false)
    | some path ↦ elim (behind_pointers target) [
      | none ↦ ok (none, false)
      | some actual ↦
          if has_type (type_of actual) p.target
          then ok (read p path type target, true)
          else err (Error.message "projection target must be %v" [])
    ]
  ]

  -- The paths and markers that (*Projection).Without zeroes, each once.
  unfoldable pub zeroed_paths : Projection → List String → List String → Result (List String)
  zeroed_paths p seen [] = ok []
  zeroed_paths p seen (name ∷ rest) = elim (Map.get p.paths (normal name)) [
    | none ↦ err (Error.message "input alias %q is not defined" (name ∷ []))
    | some path ↦
        let marker : String = elim (Map.get p.markers path) [ some m ↦ m | none ↦ "" ] in
        let first : List String = if str_eq path "" || contains seen path then [] else path ∷ [] in
        let second : List String =
          if str_eq marker "" || contains (first ++ seen) marker then [] else marker ∷ [] in
        (do others ← zeroed_paths p (second ++ first ++ seen) rest; ok (first ++ second ++ others))
  ]
