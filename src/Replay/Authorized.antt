-- ===== src/Replay/Authorized.antt =====
-- replay_binding.go: what an authorization leaves of the values that it is shown.
use bindly.Prelude.{
  String, Bool, true, false, ◌&&◌, ◌||◌, ◌≡◌, ◌∙◌, sym, ap, inl, inr, Option, none, some, List, [],
  ◌∷◌, str_eq, eq_iff, is_some, arith, Bool-cases, Option-cases,
}
use mathlib.Core.List.{Memᴰ}
use mathlib.Core.Path.{subst}
use bindly.Prelude.Comparable.{string_comparable}
use bindly.Map
use bindly.Map.{Map}
use bindly.Map.Laws.{get-put, get-new}
use bindly.Reflect.{Value}
use bindly.Errors.{Error, ok, Result-cases}
use bindly.Spec.{BindingSpec}
use bindly.Resolve.{contains}
use bindly.Plan.{presence, field_value}
use bindly.Replay.{ReplayPlan, ReplayValue, Codec, values_before, check_after, authorize, same_bool}

-- What an authorization may not change.
abbrev pub is_guarded : ReplayPlan → String × BindingSpec → Bool
is_guarded p (path, b) = is_some b.transformer || contains p.protected path

module _ (c : Codec) (p : ReplayPlan) where
  -- The value and presence of a path, as copied.
  abbrev pub Copied : Value → String → ReplayValue → Type 0
  Copied input path r =
      (v : Value) × (field_value p.plan path input ≡ some v)
      × (c.clone_value v ≡ ok r.value)
      × (presence (some p.plan) input path ≡ ok r.found)

  -- The copies hold guarded values only, and all of those among the entries.
  abbrev HoldsCopies : Value → List (String × BindingSpec) → Map String ReplayValue → Type 0
  HoldsCopies input entries before =
      ((path : String) (r : ReplayValue) → Map.get before path ≡ some r → Copied input path r)
      × ((path : String) (b : BindingSpec)
          → Memᴰ (path, b) entries
          → is_guarded p (path, b) ≡ true
          → is_some (Map.get before path) ≡ true)

  put-HoldsCopies :
      (input : Value) (q : String) (d : BindingSpec) (rest : List (String × BindingSpec))
      (others : Map String ReplayValue) (r : ReplayValue)
      → Copied input q r
      → HoldsCopies input rest others
      → HoldsCopies input ((q, d) ∷ rest) (Map.put others q r)
  put-HoldsCopies input q d rest others r copied (all, each) = (
    λ path r' h. elim (Bool-cases (str_eq q path)) [
      | inl same ↦
          let there : r ≡ r' = ground (arith, get-put others q path r) in
          subst (λ k. Copied input k r') ((eq_iff q path).0 same)
            (subst (Copied input q) there copied)
      | inr differ ↦ all path r' (ground (arith, get-put others q path r))
    ],
    λ path b k guarded. elim (Bool-cases (str_eq q path)) [
      | inl same ↦ ground (arith, get-put others q path r)
      | inr differ ↦ elim k [
        | Memᴰ.head e ↦
            absurd (ground (arith, ap (λ (x : String × BindingSpec). x.0) e, eq_iff q path))
        | Memᴰ.tail later ↦ ground (arith, get-put others q path r, each path b later guarded)
      ]
    ],
  )

  values_before-HoldsCopies :
      (input : Value) (entries : List (String × BindingSpec)) (before : Map String ReplayValue)
      → values_before c p input entries ≡ ok before
      → HoldsCopies input entries before
  unfolding values_before
  values_before-HoldsCopies input [] before h =
      subst (HoldsCopies input []) {x = Map.new} {y = before} (ground arith) (
        λ path r k. absurd (ground (arith, get-new {V = ReplayValue} path)),
        λ path b k. elim k [ ],
      )
  values_before-HoldsCopies input ((q, d) ∷ rest) before h =
      elim (Result-cases (values_before c p input rest)) [
        | inr (e, failed) ↦ absurd (ground arith)
        | inl (others, more) ↦
            let copies = values_before-HoldsCopies input rest others more in
            elim (Bool-cases (is_guarded p (q, d))) [
              | inr free ↦
                  subst (HoldsCopies input ((q, d) ∷ rest)) {x = others} {y = before} (ground arith)
                    (
                      copies.0,
                      λ path b k guarded. elim k [
                        | Memᴰ.head e ↦ absurd (ground (arith, ap (is_guarded p) e))
                        | Memᴰ.tail later ↦ copies.1 path b later guarded
                      ],
                    )
              | inl held ↦ elim (Option-cases (field_value p.plan q input)) [
                | inl missing ↦ absurd (ground arith)
                | inr (v, read) ↦ elim (Result-cases (c.clone_value v)) [
                  | inr (e, failed) ↦ absurd (ground arith)
                  | inl (copy, cloned) ↦ elim (Result-cases (presence (some p.plan) input q)) [
                    | inr (e, failed) ↦ absurd (ground arith)
                    | inl (present, shown) ↦
                        subst (HoldsCopies input ((q, d) ∷ rest))
                          {x = Map.put others q (record { value = copy; found = present })}
                          {y = before} (ground arith)
                          (put-HoldsCopies input q d rest others
                            (record { value = copy; found = present }) (v, read, cloned, shown)
                            copies)
                  ]
                ]
              ]
            ]
      ]

  -- A value that compares equal to its copy, with the same presence.
  abbrev pub Same : Value → String → ReplayValue → Type 0
  Same input path r =
      (v : Value) × (field_value p.plan path input ≡ some v)
      × (c.deep_equal v r.value ≡ true)
      × (presence (some p.plan) input path ≡ ok r.found)

  same_bool-eq : (a b : Bool) → same_bool c a b ≡ true → a ≡ b
  same_bool-eq true b h = ground arith
  same_bool-eq false b h = ground arith

  check_after-step :
      (input : Value) (before : Map String ReplayValue) (q : String) (d : BindingSpec)
      (rest : List (String × BindingSpec))
      → check_after c p input before ((q, d) ∷ rest) ≡ ok tt
      → (check_after c p input before rest ≡ ok tt)
        × ((r : ReplayValue) → Map.get before q ≡ some r → Same input q r)
  unfolding check_after
  check_after-step input before q d rest h = elim (Option-cases (Map.get before q)) [
    | inl free ↦ (ground arith, λ r k. absurd (ground arith))
    | inr (r, held) ↦ elim (Option-cases (field_value p.plan q input)) [
      | inl missing ↦ absurd (ground arith)
      | inr (v, read) ↦ elim (Result-cases (presence (some p.plan) input q)) [
        | inr (e, failed) ↦ absurd (ground arith)
        | inl (present, shown) ↦
            elim (Bool-cases (same_bool c present r.found && c.deep_equal v r.value)) [
              | inr other ↦ absurd (ground arith)
              | inl same ↦ (
                ground arith,
                λ r' k.
                    let there : r ≡ r' = ground arith in
                    subst (Same input q) there (
                      v,
                      read,
                      ground arith,
                      shown ∙ ap ok (same_bool-eq present r.found (ground arith)),
                    ),
              )
            ]
      ]
    ]
  ]

  check_after-Same :
      (input : Value) (before : Map String ReplayValue) (entries : List (String × BindingSpec))
      (path : String) (b : BindingSpec) (r : ReplayValue)
      → check_after c p input before entries ≡ ok tt
      → Memᴰ (path, b) entries
      → Map.get before path ≡ some r
      → Same input path r
  check_after-Same input before [] path b r h k held = elim k [ ]
  check_after-Same input before ((q, d) ∷ rest) path b r h k held =
      let (more, here) = check_after-step input before q d rest h in
      elim k [
        | Memᴰ.tail later ↦ check_after-Same input before rest path b r more later held
        | Memᴰ.head e ↦
            let same : q ≡ path = ap (λ (x : String × BindingSpec). x.0) (sym e) in
            subst (λ k. Same input k r) same (here r (ap (Map.get before) same ∙ held))
      ]

  -- When a gate is passed without an error, every preflight binding that has a transformer or is
  -- protected keeps its presence, and its value compares equal to the copy taken before the gate.
  pub authorize-keeps :
      (gate : Value → Value × Option Error) (input : Value) (path : String) (b : BindingSpec)
      → (authorize c p gate input).1 ≡ none
      → Memᴰ (path, b) p.preflight.entries
      → is_guarded p (path, b) ≡ true
      → (r : ReplayValue) × Copied input path r × Same (authorize c p gate input).0 path r
  unfolding authorize
  authorize-keeps gate input path b h k guarded =
      elim (Result-cases (values_before c p input p.preflight.entries)) [
        | inr (e, failed) ↦ absurd (ground arith)
        | inl (before, copied) ↦ elim (Option-cases (gate input).1) [
          | inr (e, refused) ↦ absurd (ground arith)
          | inl passed ↦
              elim (Result-cases (check_after c p (gate input).0 before p.preflight.entries)) [
                | inr (e, failed) ↦ absurd (ground arith)
                | inl (u, checked) ↦
                    let (all, each) =
                      values_before-HoldsCopies input p.preflight.entries before copied in
                    elim (Option-cases (Map.get before path)) [
                      | inl missing ↦ absurd (ground (arith, each path b k guarded))
                      | inr (r, held) ↦
                          let left : (authorize c p gate input).0 ≡ (gate input).0 = ground arith in
                          (
                            r,
                            all path r held,
                            subst (λ w. Same w path r) (sym left)
                                (check_after-Same (gate input).0 before p.preflight.entries path b r
                                  checked k held),
                          )
                    ]
              ]
        ]
      ]
