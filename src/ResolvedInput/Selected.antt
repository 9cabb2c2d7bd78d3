-- ===== src/ResolvedInput/Selected.antt =====
-- resolved_input.go: the paths that supplied values are for.
use bindly.Prelude.{
  String, false, ◌&&◌, ◌≡◌, inl, inr, Option, List, [], ◌∷◌, str_eq, is_some, arith, Bool-cases,
  Option-cases,
}
use bindly.Prelude.Comparable.{string_comparable}
use bindly.Map
use bindly.Map.{Map}
use bindly.Map.Laws.{get-put, get-new}
use mathlib.Core.Path.{subst}
use bindly.Reflect.{GoType, Value}
use bindly.Errors.{Error, Result, ok, Result-cases}
use bindly.Resolve.{contains}
use bindly.Plan.{Plan, is_target}
use bindly.ResolvedInput.{
  Seed, validate_group_paths, select_paths, collect_values, clone_selected, prepare_seed, field_of,
}

abbrev HasKeys : List String → Map String Value → Type 0
HasKeys paths values = (k : String) → is_some (Map.get values k) ≡ contains paths k

put-HasKeys :
    (paths : List String) (values : Map String Value) (path : String) (v : Value)
    → HasKeys paths values
    → HasKeys (path ∷ paths) (Map.put values path v)
unfolding contains
put-HasKeys paths values path v h k = elim (Bool-cases (str_eq path k)) [
  | inl same ↦ ground (arith, get-put values path k v)
  | inr differ ↦ ground (arith, get-put values path k v, h k)
]

collect_values-HasKeys :
    (plan : Plan) (borrowed : Map String Value) (cloned : Value) (paths : List String)
    (values : Map String Value)
    → collect_values plan borrowed cloned paths ≡ ok values
    → HasKeys paths values
unfolding collect_values contains
collect_values-HasKeys plan borrowed cloned [] values h = λ k.
    subst (λ (m : Map String Value). is_some (Map.get m k) ≡ false) {x = Map.new} {y = values}
      (ground arith) (ground (arith, get-new {V = Value} k))
collect_values-HasKeys plan borrowed cloned (path ∷ rest) values h =
    elim (Result-cases (collect_values plan borrowed cloned rest)) [
      | inr (e, failed) ↦ elim (Option-cases (Map.get borrowed path)) [
        | inr (held, there) ↦ absurd (ground arith)
        | inl absent ↦ elim (Option-cases (field_of plan path cloned)) [
          | inl missing ↦ absurd (ground arith)
          | inr (v, read) ↦ absurd (ground arith)
        ]
      ]
      | inl (others, more) ↦
          let keys = collect_values-HasKeys plan borrowed cloned rest others more in
          elim (Option-cases (Map.get borrowed path)) [
            | inr (held, there) ↦
                subst (HasKeys (path ∷ rest)) {x = Map.put others path held} {y = values}
                  (ground arith) (put-HasKeys rest others path held keys)
            | inl absent ↦ elim (Option-cases (field_of plan path cloned)) [
              | inl missing ↦ absurd (ground arith)
              | inr (v, read) ↦
                  subst (HasKeys (path ∷ rest)) {x = Map.put others path v} {y = values}
                    (ground arith) (put-HasKeys rest others path v keys)
            ]
          ]
    ]

module _ (select : GoType → List String → Option Error)
    (clone : Value → List String → Result Value) where
  -- When supplied values are accepted, they are values for the selected paths and no others.
  pub prepare_seed-paths :
      (plan : Plan) (seed : Seed) (target : Value) (values : Map String Value)
      → prepare_seed select clone plan seed target ≡ ok values
      → (k : String) → is_some (Map.get values k) ≡ contains seed.paths k
  unfolding prepare_seed clone_selected
  prepare_seed-paths plan seed target values h =
      elim (Bool-cases (is_target plan target && is_target plan seed.input)) [
        | inr other ↦ absurd (ground arith)
        | inl fits ↦ elim (Result-cases (validate_group_paths plan seed.paths)) [
          | inr (e, failed) ↦ absurd (ground arith)
          | inl (u, valid) ↦ elim (Result-cases (select_paths plan seed.input [] seed.paths)) [
            | inr (e, failed) ↦ absurd (ground arith)
            | inl ((borrowed, detached), selected) ↦
                elim (Option-cases (select plan.target detached)) [
                  | inr (e, failed) ↦ absurd (ground arith)
                  | inl chosen ↦ elim (Result-cases (clone seed.input detached)) [
                    | inr (e, failed) ↦ absurd (ground arith)
                    | inl (cloned, copied) ↦
                        collect_values-HasKeys plan borrowed cloned seed.paths values (ground arith)
                  ]
                ]
          ]
        ]
      ]
