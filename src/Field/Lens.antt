-- ===== src/Field/Lens.antt =====
-- internal/field/field.go: what a write through an index path means for reads.
use bindly.Prelude.{
  ℕ, String, zero, suc, ◌≡◌, ◌≢◌, ◌⊎◌, inl, inr, refl, ap, sym, ◌∙◌, Bool, true, false, not, ◌&&◌,
  Option, none, some, List, [], ◌∷◌, if◌then◌else◌, nat_eq, nat_eq_iff, arith, Bool-cases,
  Option-cases,
}
use mathlib.Core.Path.{subst}
use bindly.Reflect.{GoType, Fields, Visibility, Value, Values, base_type}
use bindly.Errors.{Error}
use bindly.Groups.{shares_prefix}
use bindly.Field.{
  field_at, value_at, replace_at, zero_value, behind, get, change_behind, change_at, change_found,
  enter, is_read_only, stored, set_value, fits, type_at,
}

value_at-replace_at :
    (vs : Values) (i : ℕ) (v w : Value)
    → value_at vs i ≡ some v
    → value_at (replace_at vs i w) i ≡ some w
unfolding value_at replace_at
value_at-replace_at Values.end i v w h = cc
value_at-replace_at (Values.cons x vs) zero v w h = refl
value_at-replace_at (Values.cons x vs) (suc i) v w h = value_at-replace_at vs i v w h

value_at-replace_at_ne :
    (vs : Values) (i j : ℕ) (w : Value)
    → nat_eq i j ≡ false
    → value_at (replace_at vs i w) j ≡ value_at vs j
unfolding value_at replace_at
value_at-replace_at_ne Values.end i j w h = refl
value_at-replace_at_ne (Values.cons x vs) zero zero w h = ground arith
value_at-replace_at_ne (Values.cons x vs) zero (suc j) w h = refl
value_at-replace_at_ne (Values.cons x vs) (suc i) zero w h = refl
value_at-replace_at_ne (Values.cons x vs) (suc i) (suc j) w h =
    value_at-replace_at_ne vs i j w (ground arith)

-- Either no struct was reached, before or after, or one was changed.
abbrev Changed :
    GoType
    → Value
    → (Fields → Bool → Values → Values × Option Error)
    → Value × Option Error
    → Type 0
Changed t v change r =
    (behind t r.0 ≡ none) × (behind t v ≡ none) × (r.1 ≢ none)
    ⊎ ((fs : Fields) × (inner : Bool) × (vs : Values) × ((behind t v ≡ none)
          ⊎ (behind t v ≡ some (fs, vs)))
        × (behind t r.0 ≡ some (fs, (change fs inner vs).0))
        × (r.1 ≡ (change fs inner vs).1))

Changed-allocated :
    (t u : GoType) (change : Fields → Bool → Values → Values × Option Error)
    (r : Value × Option Error)
    → Changed t (zero_value t) change r
    → Changed (GoType.pointer t) (Value.nil u) change (Value.pointer t r.0, r.1)
unfolding behind
Changed-allocated t u change r (inl (h, _, e)) = inl (h, refl, e)
Changed-allocated t u change r (inr (fs, inner, vs, _, h, e)) = inr (fs, inner, vs, inl refl, h, e)

change_behind-Changed :
    (t : GoType) (addressable : Bool) (read_only : Visibility) (v : Value)
    (change : Fields → Bool → Values → Values × Option Error)
    → Changed t v change (change_behind t addressable read_only v change)
unfolding change_behind behind
change_behind-Changed (GoType.pointer t) a ro (Value.pointer u w) change =
    change_behind-Changed t true ro w change
change_behind-Changed (GoType.pointer t) a ro (Value.nil u) change =
    elim (Bool-cases (a && not (is_read_only ro))) [
      | inl settable ↦
          subst
            (λ b. Changed (GoType.pointer t) (Value.nil u) change (
              if b
              then (
                Value.pointer t (change_behind t true ro (zero_value t) change).0,
                (change_behind t true ro (zero_value t) change).1,
              )
              else (Value.nil u, some (Error.message "field parent cannot be set" []))))
            (sym settable)
            (Changed-allocated t u change (change_behind t true ro (zero_value t) change)
              (change_behind-Changed t true ro (zero_value t) change))
      | inr unsettable ↦
          subst
            (λ b. Changed (GoType.pointer t) (Value.nil u) change (
              if b
              then (
                Value.pointer t (change_behind t true ro (zero_value t) change).0,
                (change_behind t true ro (zero_value t) change).1,
              )
              else (Value.nil u, some (Error.message "field parent cannot be set" []))))
            (sym unsettable) (inl (refl, refl, λ e. ground arith))
    ]
change_behind-Changed (GoType.struct n fs) a ro (Value.structure u vs) change =
    inr (fs, a, vs, inr refl, refl, refl)
change_behind-Changed t a ro v change = inl (refl, refl, λ e. ground arith)

-- A change of one field that succeeded.
abbrev FieldChanged :
    ℕ
    → Visibility
    → (GoType → Bool → Visibility → Value → Value × Option Error)
    → Fields
    → Bool
    → Values
    → Values × Option Error
    → Type 0
FieldChanged i ro change fs inner vs r =
    (r.1 ≡ none)
    → (e : Visibility) × (u : GoType) × (w : Value) × (field_at fs i ≡ some (e, u))
      × (value_at vs i ≡ some w)
      × ((change u inner (enter ro e) w).1 ≡ none)
      × (r.0 ≡ replace_at vs i (change u inner (enter ro e) w).0)

change_at-FieldChanged :
    (i : ℕ) (ro : Visibility) (change : GoType → Bool → Visibility → Value → Value × Option Error)
    (fs : Fields) (inner : Bool) (vs : Values)
    → FieldChanged i ro change fs inner vs (change_at i ro change fs inner vs)
unfolding change_found
change_at-FieldChanged i ro change fs inner vs = by_found (field_at fs i) (value_at vs i) refl refl
  where
    by_found :
        (f : Option (Visibility × GoType)) (o : Option Value)
        → field_at fs i ≡ f
        → value_at vs i ≡ o
        → FieldChanged i ro change fs inner vs (change_found i ro change inner vs f o)
    by_found none o declared held h = ground arith
    by_found (some f) none declared held h = ground arith
    by_found (some (e, u)) (some w) declared held h = (e, u, w, declared, held, h, refl)

behind-fields :
    (t : GoType) (v : Value) (fs : Fields) (vs : Values)
    → behind t v ≡ some (fs, vs)
    → (n : String) × (base_type t ≡ GoType.struct n fs)
unfolding behind base_type
behind-fields (GoType.pointer t) (Value.pointer u w) fs vs h = behind-fields t w fs vs h
behind-fields (GoType.struct n gs) (Value.structure u ws) fs vs h = (n, cc)
behind-fields _ _ fs vs h = ground arith

type_at-step :
    (i : ℕ) (path : List ℕ) (t u : GoType) (fs : Fields) (n : String) (e : Visibility)
    → base_type t ≡ GoType.struct n fs
    → field_at fs i ≡ some (e, u)
    → type_at (i ∷ path) t ≡ type_at path u
unfolding type_at
type_at-step i path t u fs n e base declared = ground arith

get-step :
    (i : ℕ) (path : List ℕ) (t u : GoType) (v w : Value) (fs : Fields) (vs : Values)
    (e : Visibility)
    → behind t v ≡ some (fs, vs)
    → field_at fs i ≡ some (e, u)
    → value_at vs i ≡ some w
    → get (i ∷ path) t v ≡ get path u w
unfolding get
get-step i path t u v w fs vs e there declared held = ground arith

-- A value that is read through a path starts with a field of a struct.
get-start :
    (i : ℕ) (path : List ℕ) (t : GoType) (v found : Value)
    → get (i ∷ path) t v ≡ some found
    → (fs : Fields) × (vs : Values) × (e : Visibility) × (u : GoType) × (w : Value) × (behind t v
        ≡ some (fs, vs))
      × (field_at fs i ≡ some (e, u))
      × (value_at vs i ≡ some w)
      × (get path u w ≡ some found)
unfolding get
get-start i path t v found h = elim (Option-cases (behind t v)) [
  | inl nothing ↦ ground arith
  | inr ((fs, vs), there) ↦ elim (Option-cases (field_at fs i)) [
    | inl nothing ↦ ground arith
    | inr ((e, u), declared) ↦ elim (Option-cases (value_at vs i)) [
      | inl nothing ↦ ground arith
      | inr (w, held) ↦ (fs, vs, e, u, w, there, declared, held, ground arith)
    ]
  ]
]

module _ (i : ℕ) (ro : Visibility)
    (change : GoType → Bool → Visibility → Value → Value × Option Error) where
  value_at-change_at_ne :
      (j : ℕ) (fs : Fields) (inner : Bool) (vs : Values)
      → nat_eq i j ≡ false
      → value_at (change_at i ro change fs inner vs).0 j ≡ value_at vs j
  unfolding change_found
  value_at-change_at_ne j fs inner vs h = by_found (field_at fs i) (value_at vs i)
    where
      by_found :
          (f : Option (Visibility × GoType)) (o : Option Value)
          → value_at (change_found i ro change inner vs f o).0 j ≡ value_at vs j
      by_found none o = refl
      by_found (some f) none = refl
      by_found (some (e, u)) (some w) = value_at-replace_at_ne vs i j _ h

  value_at-change_at :
      (j : ℕ) (fs : Fields) (inner : Bool) (vs : Values) (e : Visibility) (u : GoType) (w : Value)
      → i ≡ j
      → field_at fs j ≡ some (e, u)
      → value_at vs j ≡ some w
      → value_at (change_at i ro change fs inner vs).0 j ≡ some (change u inner (enter ro e) w).0
  unfolding change_found
  value_at-change_at j fs inner vs e u w same declared held =
      let there = ap (value_at vs) same ∙ held in
      let type = ap (field_at fs) same ∙ declared in
      ground (arith, value_at-replace_at vs i w (change u inner (enter ro e) w).0 there)

module _ (assignable : GoType → GoType → Bool) where
  -- `set_value` of a field's own value.
  abbrev write : List ℕ → Value → GoType → Bool → Visibility → Value → Value × Option Error
  write path new u inner hidden w = set_value assignable path u inner hidden new w

  -- A write through an index path that reports no error stores the value given, or the zero
  -- value of the field's type for nil: a read through the same path returns it.
  pub get-set :
      (path : List ℕ) (t : GoType) (addressable : Bool) (read_only : Visibility) (new v : Value)
      → (set_value assignable path t addressable read_only new v).1 ≡ none
      → (u : GoType) × (type_at path t ≡ some u)
        × (get path t (set_value assignable path t addressable read_only new v).0
            ≡ some (stored u new))
  unfolding set_value get type_at
  get-set [] t a ro new v h = elim (Bool-cases (a && not (is_read_only ro))) [
    | inl settable ↦ elim (Bool-cases (fits assignable t new)) [
      | inl fit ↦ (t, refl, ground arith)
      | inr unfit ↦ ground arith
    ]
    | inr unsettable ↦ ground arith
  ]
  get-set (i ∷ path) t a ro new v h =
      elim (change_behind-Changed t a ro v (change_at i ro (write path new))) [
        | inl (_, _, failed) ↦ absurd (failed h)
        | inr (fs, inner, vs, _, there, same) ↦
            let (e, u, w, declared, held, fine, changed) =
              change_at-FieldChanged i ro (write path new) fs inner vs (sym same ∙ h) in
            let (leaf, typed, read) = get-set path u inner (enter ro e) new w fine in
            let (n, base) = behind-fields t _ fs _ there in
            (
              leaf,
              type_at-step i path t u fs n e base declared ∙ typed,
              get-step i path t u _ _ fs _ e (there ∙ ap (λ ws. some (fs, ws)) changed) declared
                    (value_at-replace_at vs i w _ held)
                  ∙ read,
            )
      ]

  -- In a value in which no two pointers lead to one value, a write through an index path keeps, whether it succeeds or fails, every value that was read
  -- through a path that is neither a prefix nor an extension of the one written.
  pub get-set_ne :
      (path other : List ℕ) (t : GoType) (addressable : Bool) (read_only : Visibility)
      (new v found : Value)
      → shares_prefix path other ≡ false
      → get other t v ≡ some found
      → get other t (set_value assignable path t addressable read_only new v).0 ≡ some found
  unfolding set_value shares_prefix
  get-set_ne [] other t a ro new v found apart h = ground arith
  get-set_ne (i ∷ path) [] t a ro new v found apart h = ground arith
  get-set_ne (i ∷ path) (j ∷ other) t a ro new v found apart h =
      let (fs, vs, e, u, w, there, declared, held, read) = get-start j other t v found h in
      elim (change_behind-Changed t a ro v (change_at i ro (write path new))) [
        | inl (_, before, _) ↦ ground arith
        | inr (gs, inner, ws, inl before, _, _) ↦ ground arith
        | inr (gs, inner, ws, inr before, after, _) ↦ elim (Bool-cases (nat_eq i j)) [
          | inl same ↦
              get-step j other t u _ (write path new u inner (enter ro e) w).0 fs _ e (ground arith)
                declared
                (value_at-change_at i ro (write path new) j fs inner vs e u w
                  (ground (arith, nat_eq_iff i j)) declared held)
              ∙ get-set_ne path other u inner (enter ro e) new w found (ground arith) read
          | inr differ ↦
              get-step j other t u _ w fs (change_at i ro (write path new) fs inner vs).0 e
                (ground arith) declared
                (value_at-change_at_ne i ro (write path new) j fs inner vs differ ∙ held)
              ∙ read
        ]
      ]
