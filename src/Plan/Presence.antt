-- ===== src/Plan/Presence.antt =====
-- plan.go: reading back presence markers.
use bindly.Prelude.{
  ℕ, String, Bool, true, false, not, ◌||◌, ◌≡◌, sym, none, some, List, [], ◌∷◌, str_eq, arith,
  Bool-cases, Option-cases, inl, inr,
}
use mathlib.Core.Path.{subst}
use bindly.Prelude.Comparable.{string_comparable}
use bindly.Map
use bindly.Reflect.{Visibility, GoType, Value}
use bindly.Errors.{ok, Result-cases}
use bindly.Field.{Access, get, set_value, change_behind}
use bindly.Field.Lens.{get-set}
use bindly.Plan.{
  Plan, target_type, is_target, presence_marker, as_bool, field_value, explicit_presence, presence,
  bool_value, set_presence,
}

-- A target's presence is its explicit one, or true without a marker.
pub presence-explicit_presence :
    (plan : Plan) (target : Value) (path : String) (present has : Bool)
    → explicit_presence (some plan) target path ≡ ok (present, has)
    → presence (some plan) target path ≡ ok (present || not has)
unfolding explicit_presence presence
presence-explicit_presence plan target path present has h =
    elim (Result-cases (presence_marker (some plan) target path)) [
      | inr (e, failed) ↦ absurd (ground arith)
      | inl (marker, found) ↦ elim (Bool-cases (str_eq marker "")) [
        | inl empty ↦ ground arith
        | inr named ↦ elim (Option-cases (field_value plan marker target)) [
          | inl missing ↦ ground arith
          | inr (v, held) ↦ elim (Result-cases (as_bool v)) [
            | inr (e, failed) ↦ absurd (ground arith)
            | inl (b, read) ↦ ground arith
          ]
        ]
      ]
    ]

module _ (plan : Plan) where
  pub explicit_presence-read :
      (target : Value) (path marker : String) (a : Access) (b : Bool)
      → presence_marker (some plan) target path ≡ ok marker
      → str_eq marker "" ≡ false
      → Map.get plan.fields marker ≡ some a
      → get a.index (target_type plan) target ≡ some (bool_value b)
      → explicit_presence (some plan) target path ≡ ok (b, true)
  unfolding explicit_presence as_bool
  explicit_presence-read target path marker a b found named declared read = ground arith

  presence_marker-is_target :
      (target : Value) (path marker : String)
      → presence_marker (some plan) target path ≡ ok marker
      → is_target plan target ≡ true
  unfolding presence_marker
  presence_marker-is_target target path marker found = elim (Bool-cases (is_target plan target)) [
    | inl fits ↦ fits
    | inr other ↦ absurd (ground arith)
  ]

  -- Targets of the plan's type have the same markers.
  presence_marker-same :
      (target other : Value) (path marker : String)
      → presence_marker (some plan) target path ≡ ok marker
      → is_target plan other ≡ true
      → presence_marker (some plan) other path ≡ ok marker
  unfolding presence_marker
  presence_marker-same target other path marker found fits =
      elim (Bool-cases (is_target plan target)) [
        | inl fine ↦ ground arith
        | inr bad ↦ absurd (ground arith)
      ]

module _ (assignable : GoType → GoType → Bool) (plan : Plan) where
  pub set_value-is_target :
      (index : List ℕ) (new target : Value)
      → is_target plan target ≡ true
      → is_target plan
          (set_value assignable index (target_type plan) false Visibility.exported new target).0
        ≡ true
  unfolding set_value change_behind
  set_value-is_target [] new target h = h
  set_value-is_target (i ∷ index) new (Value.pointer t v) h = h
  set_value-is_target (i ∷ index) new _ h = cc

  -- A presence that was set without an error is the one that is read back, if the binding has a
  -- marker.
  pub presence-set_presence :
      (target : Value) (path marker : String) (present : Bool)
      → presence_marker (some plan) target path ≡ ok marker
      → str_eq marker "" ≡ false
      → (set_presence assignable (some plan) target path present).1 ≡ none
      → explicit_presence
          (some plan)
          (set_presence assignable (some plan) target path present).0
          path
        ≡ ok (present, true)
  unfolding set_presence
  presence-set_presence target path marker present found named h =
      elim (Option-cases (Map.get plan.fields marker)) [
        | inl missing ↦ absurd (ground arith)
        | inr (a, declared) ↦
            let (u, typed, read) =
              get-set assignable a.index (target_type plan) false Visibility.exported
                (bool_value present) target (ground arith) in
            let same : (set_presence assignable (some plan) target path present).0
                ≡ (set_value assignable a.index (target_type plan) false Visibility.exported
                    (bool_value present) target).0 =
              ground arith in
            subst (λ w. explicit_presence (some plan) w path ≡ ok (present, true)) (sym same)
              (explicit_presence-read plan _ path marker a present
                (presence_marker-same plan target _ path marker found (
                  set_value-is_target a.index (bool_value present) target
                    (presence_marker-is_target plan target path marker found)))
                named declared read)
      ]
