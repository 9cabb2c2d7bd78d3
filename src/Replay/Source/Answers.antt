-- ===== src/Replay/Source/Answers.antt =====
-- replay_provider.go: every selected binding is answered by the provider of its kind.
use bindly.Prelude.{
  ℕ, String, Bool, true, false, Option, none, some, List, [], ◌∷◌, ◌≡◌, refl, ◌⊎◌, inl, inr, str_eq,
  eq_iff, arith, Bool-cases, sym, ap, map, is_some,
}
use mathlib.Core.Path.{subst}
use mathlib.Core.List.{Memᴰ}
use bindly.Prelude.Comparable.{string_comparable}
use bindly.Map
use bindly.Map.{Map}
use bindly.Map.Laws.{get-put}
use bindly.Reflect.{GoType, Value}
use bindly.Errors.{Error, Result, ok, Result-cases}
use bindly.Locator.{Locator, Lookup, missing, Provider}
use bindly.Spec.{BindingSpec}
use bindly.Plan.{Plan}
use bindly.Replay.{Codec, Replay, ReplayPlan, replay}
use bindly.Replay.Keyed.{IsKeyed, IsAlone, replay-IsKeyed, IsKeyed-IsAlone}
use bindly.Replay.Source.{
  Fields, is_ambiguous, fields_of, add_binding, group_bindings, captured, replay_locator,
  replay_provider, take_providers, providers,
}

-- The fields hold `b` at its location.
abbrev pub Holds : Fields → BindingSpec → Type 0
Holds fields b = Map.get fields b.location.in_path ≡ some b

abbrev pub Grouped : Map String Fields → BindingSpec → Type 0
Grouped groups b =
    (fields : Fields) × (Map.get groups b.location.kind ≡ some fields) × Holds fields b

add_binding-ok :
    (groups groups' : Map String Fields) (b : BindingSpec)
    → add_binding groups b ≡ ok groups'
    → (is_ambiguous (Map.get (fields_of groups b.location.kind) b.location.in_path) b.path ≡ false)
      × (groups'
          ≡ Map.put groups b.location.kind
              (Map.put (fields_of groups b.location.kind) b.location.in_path b))
unfolding add_binding
add_binding-ok groups groups' b h = (ground arith, ground arith)

add_binding-Grouped :
    (groups groups' : Map String Fields) (b : BindingSpec)
    → add_binding groups b ≡ ok groups'
    → Grouped groups' b
add_binding-Grouped groups groups' b h =
    let fields = Map.put (fields_of groups b.location.kind) b.location.in_path b in
    let (clear, same) = add_binding-ok groups groups' b h in
    subst (λ g. Grouped g b) (sym same)
      (
        fields,
        ground (
          arith,
          get-put groups b.location.kind b.location.kind fields,
          eq_iff b.location.kind b.location.kind,
        ),
        ground (
          arith,
          get-put (fields_of groups b.location.kind) b.location.in_path b.location.in_path b,
          eq_iff b.location.in_path b.location.in_path,
        ),
      )

put-Holds :
    (fields : Fields) (b d : BindingSpec)
    → Holds fields d
    → is_ambiguous (Map.get fields b.location.in_path) b.path ≡ false
    → (str_eq b.path d.path ≡ false) ⊎ (b ≡ d)
    → Holds (Map.put fields b.location.in_path b) d
put-Holds fields b d holds clear alone =
    elim (Bool-cases (str_eq b.location.in_path d.location.in_path)) [
      | inl this ↦ elim alone [
        | inl apart ↦
            let agree : b.location.in_path ≡ d.location.in_path =
              (eq_iff b.location.in_path d.location.in_path).0 this in
            absurd (
              ground (arith, ap (Map.get fields) agree, eq_iff d.path b.path, eq_iff b.path d.path))
        | inr same ↦
            ground (arith, get-put fields b.location.in_path d.location.in_path b, ap some same)
      ]
      | inr other ↦ ground (arith, get-put fields b.location.in_path d.location.in_path b)
    ]

add_binding-keeps :
    (groups groups' : Map String Fields) (b d : BindingSpec)
    → add_binding groups b ≡ ok groups'
    → (str_eq b.path d.path ≡ false) ⊎ (b ≡ d)
    → Grouped groups d
    → Grouped groups' d
add_binding-keeps groups groups' b d h alone (fields, there, holds) =
    let next = Map.put (fields_of groups b.location.kind) b.location.in_path b in
    let (clear, same) = add_binding-ok groups groups' b h in
    subst (λ g. Grouped g d) (sym same)
      (elim (Bool-cases (str_eq b.location.kind d.location.kind)) [
        | inl this ↦
            let agree : b.location.kind ≡ d.location.kind =
              (eq_iff b.location.kind d.location.kind).0 this in
            let mine : fields_of groups b.location.kind ≡ fields =
              ground (arith, ap (Map.get groups) agree) in
            (
              next,
              ground (arith, get-put groups b.location.kind d.location.kind next),
              put-Holds (fields_of groups b.location.kind) b d
                  (subst (λ f. Holds f d) (sym mine) holds) clear alone,
            )
        | inr other ↦
            (fields, ground (arith, get-put groups b.location.kind d.location.kind next), holds)
      ])

group_bindings-keeps :
    (groups groups' : Map String Fields) (entries : List (String × BindingSpec)) (d : BindingSpec)
    → group_bindings groups entries ≡ ok groups'
    → IsAlone d entries
    → Grouped groups d
    → Grouped groups' d
unfolding group_bindings
group_bindings-keeps groups groups' [] d h alone had = subst (λ g. Grouped g d) (ground arith) had
group_bindings-keeps groups groups' (entry ∷ rest) d h alone had =
    elim (Result-cases (add_binding groups entry.1)) [
      | inr (e, failed) ↦ absurd (ground arith)
      | inl (next, added) ↦
          group_bindings-keeps next groups' rest d (ground arith) alone.1
            (add_binding-keeps groups next entry.1 d added alone.0 had)
    ]

group_bindings-Grouped :
    (groups groups' : Map String Fields) (entries : List (String × BindingSpec)) (path : String)
    (d : BindingSpec)
    → group_bindings groups entries ≡ ok groups'
    → IsAlone d entries
    → Memᴰ (path, d) entries
    → Grouped groups' d
unfolding group_bindings
group_bindings-Grouped groups groups' [] path d h alone m = elim m [ ]
group_bindings-Grouped groups groups' (entry ∷ rest) path d h alone m =
    elim (Result-cases (add_binding groups entry.1)) [
      | inr (e, failed) ↦ absurd (ground arith)
      | inl (next, added) ↦ elim m [
        | Memᴰ.head this ↦ group_bindings-keeps next groups' rest d (ground arith) alone.1 (
            subst (Grouped next) (ap (λ p. p.1) (sym this))
              (add_binding-Grouped groups next entry.1 added))
        | Memᴰ.tail later ↦
            group_bindings-Grouped next groups' rest path d (ground arith) alone.1 later
      ]
    ]

keys-Mem :
    (l : List (String × Fields)) (kind : String) (fields : Fields)
    → Map.lookup kind l ≡ some fields
    → Memᴰ kind (map (λ e. e.0) l)
unfolding Map.lookup
keys-Mem [] kind fields h = absurd (ground arith)
keys-Mem (entry ∷ rest) kind fields h = elim (Bool-cases (str_eq entry.0 kind)) [
  | inl this ↦ Memᴰ.head (sym ((eq_iff entry.0 kind).0 this))
  | inr other ↦ Memᴰ.tail (keys-Mem rest kind fields (ground arith))
]

module _ (c : Codec) (convert : Value → Option GoType → Result Value) (raw_message : String → Value)
    (cancelled : ℕ → Option Error) where
  -- What CaptureSource finds of a binding.
  abbrev pub recorded : Replay → BindingSpec → Lookup
  recorded r b = elim (Map.get r.raw b.name) [
    | none ↦ missing
    | some raw ↦ record { value = raw_message raw; found = true; error = none }
  ]

  -- The locator owns the location of `b` and captures what is recorded under its name.
  abbrev pub IsAnswered : Replay → Locator → BindingSpec → Type 0
  IsAnswered r l b =
      (owned : String → Bool) × (raw : ℕ → Option GoType → String → Lookup) × (l.owns ≡ some owned)
      × (owned b.location.in_path ≡ true)
      × (l.capture_source ≡ some raw)
      × ((now : ℕ) (target : Option GoType)
          → cancelled now ≡ none
          → raw now target b.location.in_path ≡ recorded r b)

  replay_locator-IsAnswered :
      (r : Replay) (fields : Fields) (b : BindingSpec)
      → Holds fields b
      → IsAnswered r (replay_locator c convert raw_message cancelled r fields) b
  unfolding replay_locator captured
  replay_locator-IsAnswered r fields b holds = (
    λ name. is_some (Map.get fields name),
    λ now target name. captured c convert raw_message cancelled r fields now name,
    refl,
    ground arith,
    refl,
    λ now target on. ground arith,
  )

  take_providers-Mem :
      (r : Replay) (groups : Map String Fields) (kinds : List String) (kind : String)
      → Memᴰ kind kinds
      → Memᴰ
          (replay_provider c convert raw_message cancelled r kind (fields_of groups kind))
          (take_providers c convert raw_message cancelled r groups kinds)
  unfolding take_providers
  take_providers-Mem r groups [] kind m = elim m [ ]
  take_providers-Mem r groups (k ∷ rest) kind m = elim m [
    | Memᴰ.head this ↦
        Memᴰ.head
          (ap (λ q. replay_provider c convert raw_message cancelled r q (fields_of groups q)) this)
    | Memᴰ.tail later ↦ Memᴰ.tail (take_providers-Mem r groups rest kind later)
  ]

  -- Where the providers are built of a replay whose plan has the fields that (*Plan).Replay chose, each
  -- selected binding has one of its kind among
  -- them, which owns the binding's location and captures the raw source that the replay holds under
  -- the binding's name, or none, at every moment before a cancellation. Sorting is to keep the
  -- members of a list.
  pub providers-IsAnswered :
      (sort : List String → List String)
      (keeps : (l : List String) (k : String) → Memᴰ k l → Memᴰ k (sort l)) (r : Replay)
      (plan : Plan) (paths : List String) (chosen : ReplayPlan) (ps : List Provider) (path : String)
      (b : BindingSpec)
      → providers c convert raw_message cancelled sort r ≡ ok ps
      → replay (some plan) paths ≡ ok chosen
      → r.plan.fields ≡ chosen.fields
      → Memᴰ (path, b) r.plan.fields.entries
      → (p : Provider) × Memᴰ p ps
        × (p.kind ≡ b.location.kind)
        × ((state : Option Value) → (l : Locator) × (p.locate state ≡ some l) × IsAnswered r l b)
  unfolding providers replay_provider Map.get Map.keys
  providers-IsAnswered sort keeps r plan paths chosen ps path b h selected fields_chosen m =
      let keyed =
        subst (λ (f : Map String BindingSpec). IsKeyed f.entries) (sym fields_chosen)
          (replay-IsKeyed plan paths chosen selected) in
      let alone = IsKeyed-IsAlone r.plan.fields.entries path b keyed m in
      elim (Result-cases (group_bindings Map.new r.plan.fields.entries)) [
        | inr (e, failed) ↦ absurd (ground arith)
        | inl (groups, grouped) ↦
            let kind = b.location.kind in
            let (fields, there, holds) =
              group_bindings-Grouped Map.new groups r.plan.fields.entries path b grouped alone m in
            let mine : fields ≡ fields_of groups kind = ground arith in
            (
              replay_provider c convert raw_message cancelled r kind (fields_of groups kind),
              subst
                  (Memᴰ (
                    replay_provider c convert raw_message cancelled r kind (fields_of groups kind)))
                  {x = take_providers c convert raw_message cancelled r groups
                    (sort (Map.keys groups))}
                  {y = ps} (ground arith)
                  (take_providers-Mem r groups (sort (Map.keys groups)) kind
                    (keeps (Map.keys groups) kind (keys-Mem groups.entries kind fields there))),
              refl,
              λ state. (
                replay_locator c convert raw_message cancelled r (fields_of groups kind),
                refl,
                replay_locator-IsAnswered r (fields_of groups kind) b
                    (subst (λ f. Holds f b) mine holds),
              ),
            )
      ]
