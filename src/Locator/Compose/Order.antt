-- ===== src/Locator/Compose/Order.antt =====
-- locator/compose.go: the order in which the layers decide.
use bindly.Prelude.{
  ℕ, String, ◌≡◌, refl, Bool, true, false, Option, some, List, [], ◌∷◌, arith, if◌then◌else◌, ◌≢◌,
  ◌⊎◌, inl, inr, none, str_eq, eq_iff, Bool-cases, Option-cases,
}
use bindly.Reflect.{GoType, Value}
use bindly.Errors.{Error}
use mathlib.Core.Path.{subst}
use bindly.Locator.{Location, Lookup, missing, failing, Behaviour, answer, ask, Locator, Provider}
use bindly.Locator.Compose.{Layer, and_then, request, settles, locate_layer, try_layers, owns_name}

-- A scope with a state of its own: what it answers to a location, and its state afterwards.
module _ {S : Type 0} (scope : S → Option Location → Lookup × S) where
  -- What a computation answers in the end, and the state of the scope that it asked.
  abbrev pub reply : S → Behaviour → Lookup × S
  reply s (answer l) = (l, s)
  reply s (ask location next) = let (l, s') = scope s location in reply s' (next l)

  reply-and_then :
      (s : S) (b : Behaviour) (k : Lookup → Behaviour)
      → reply s (and_then b k) ≡ reply (reply s b).1 (k (reply s b).0)
  unfolding and_then
  reply-and_then s (answer l) k = refl
  reply-and_then s (ask location next) k =
      reply-and_then (scope s location).1 (next (scope s location).0) k

-- A layer's locator, or none.
abbrev pub Located : Layer → Option Value → Locator → Type 0
Located layer state l = (p : Provider) × (layer.provider ≡ some p) × (p.locate state ≡ some l)

abbrev pub Unlocated : Layer → Option Value → Type 0
Unlocated layer state =
    (layer.provider ≡ none) ⊎ ((p : Provider) × (layer.provider ≡ some p) × (p.locate state ≡ none))

-- What an answer does: it decides the value, or leaves it to the layers behind.
abbrev pub Settles : Locator → String → Lookup → Type 0
Settles l name r =
    (r.found ≡ true)
    ⊎ (((e : Error) × (r.error ≡ some e))
        ⊎ ((owned : String → Bool) × (l.owns ≡ some owned) × (owned name ≡ true)))

abbrev pub Passes : Locator → String → Lookup → Type 0
Passes l name r =
    (r.found ≡ false)
    × (r.error ≡ none)
    × ((l.owns ≡ none) ⊎ ((owned : String → Bool) × (l.owns ≡ some owned) × (owned name ≡ false)))

settles-cases :
    (l : Locator) (name : String) (r : Lookup)
    → ((settles l name r ≡ true) × Settles l name r)
      ⊎ ((settles l name r ≡ false) × Passes l name r)
unfolding settles owns_name
settles-cases l name r = elim (Bool-cases r.found) [
  | inl found ↦ inl (ground arith, inl found)
  | inr absent ↦ elim (Option-cases r.error) [
    | inr (e, failed) ↦ inl (ground arith, inr (inl (e, failed)))
    | inl fine ↦ elim (Option-cases l.owns) [
      | inl unowned ↦ inr (ground arith, (absent, fine, inl unowned))
      | inr (owned, given) ↦ elim (Bool-cases (owned name)) [
        | inl mine ↦ inl (ground arith, inr (inr (owned, given, mine)))
        | inr other ↦ inr (ground arith, (absent, fine, inr (owned, given, other)))
      ]
    ]
  ]
]

locate_layer-cases :
    (layer : Layer) (state : Option Value)
    → ((locate_layer layer state ≡ none) × Unlocated layer state)
      ⊎ ((l : Locator) × (locate_layer layer state ≡ some l) × Located layer state l)
unfolding locate_layer
locate_layer-cases layer state = elim (Option-cases layer.provider) [
  | inl ungiven ↦ inl (ground arith, inl ungiven)
  | inr (p, given) ↦ elim (Option-cases (p.locate state)) [
    | inl nothing ↦ inl (ground arith, inr (p, given, nothing))
    | inr (l, there) ↦ inr (l, ground arith, (p, given, there))
  ]
]

module _ (capture in_scope : Bool) (policy : String) (state : Option Value) (now : ℕ)
    (target : Option GoType) (name : String) where
  abbrev pub Uncaptured : Locator → Type 0
  Uncaptured l = (capture ≡ false) ⊎ (l.capture_source ≡ none)

  -- The one way in which a locator is asked: for its raw source, under the null policy, through
  -- the scope, or for its value; it is not asked where it has no support for a policy.
  pub data AskedAs (l : Locator) : Option Behaviour → Type 0 where
    by_capture :
        (raw : ℕ → Option GoType → String → Lookup)
        → capture ≡ true
        → l.capture_source ≡ some raw
        → AskedAs l (some (answer (raw now target name)))
    by_scope :
        (scoped : ℕ → Option GoType → String → Behaviour)
        → Uncaptured l
        → policy ≡ ""
        → in_scope ≡ true
        → l.value_in_scope ≡ some scoped
        → AskedAs l (some (scoped now target name))
    by_value :
        Uncaptured l
        → policy ≡ ""
        → (in_scope ≡ false) ⊎ (l.value_in_scope ≡ none)
        → AskedAs l (some (answer (l.value now target name)))
    by_policy :
        (under : ℕ → Option GoType → String → String → Lookup)
        → Uncaptured l
        → policy ≢ ""
        → l.value_with_null_policy ≡ some under
        → AskedAs l (some (answer (under now target name policy)))
    unsupported : Uncaptured l → policy ≢ "" → l.value_with_null_policy ≡ none → AskedAs l none

  abbrev asked : Locator → Option Behaviour
  asked l = request capture in_scope policy l now target name

  asked_value : (l : Locator) → Uncaptured l → policy ≡ "" → AskedAs l (asked l)
  unfolding request
  asked_value l raw plain = elim (Bool-cases in_scope) [
    | inr alone ↦
        subst (AskedAs l) {x = some (answer (l.value now target name))} {y = asked l}
          (ground (arith, eq_iff policy "")) (by_value raw plain (inl alone))
    | inl scoped ↦ elim (Option-cases l.value_in_scope) [
      | inl denied ↦
          subst (AskedAs l) {x = some (answer (l.value now target name))} {y = asked l}
            (ground (arith, eq_iff policy "")) (by_value raw plain (inr denied))
      | inr (f, given) ↦
          subst (AskedAs l) {x = some (f now target name)} {y = asked l}
            (ground (arith, eq_iff policy "")) (by_scope f raw plain scoped given)
    ]
  ]

  asked_policy : (l : Locator) → Uncaptured l → policy ≢ "" → AskedAs l (asked l)
  unfolding request
  asked_policy l raw set = elim (Option-cases l.value_with_null_policy) [
    | inl denied ↦
        subst (AskedAs l) {x = none} {y = asked l} (ground (arith, eq_iff policy ""))
          (unsupported raw set denied)
    | inr (f, given) ↦
        subst (AskedAs l) {x = some (answer (f now target name policy))} {y = asked l}
          (ground (arith, eq_iff policy "")) (by_policy f raw set given)
  ]

  asked-Uncaptured : (l : Locator) → Uncaptured l → AskedAs l (asked l)
  asked-Uncaptured l raw = elim (Bool-cases (str_eq policy "")) [
    | inl plain ↦ asked_value l raw ((eq_iff policy "").0 plain)
    | inr set ↦ asked_policy l raw (λ e. ground (arith, eq_iff policy ""))
  ]

  request-AskedAs : (l : Locator) → AskedAs l (asked l)
  unfolding request
  request-AskedAs l = elim (Bool-cases capture) [
    | inr denied ↦ asked-Uncaptured l (inl denied)
    | inl capturing ↦ elim (Option-cases l.capture_source) [
      | inl ungiven ↦ asked-Uncaptured l (inr ungiven)
      | inr (raw, given) ↦
          subst (AskedAs l) {x = some (answer (raw now target name))} {y = asked l} (ground arith)
            (by_capture raw capturing given)
    ]
  ]

  module _ {S : Type 0} (scope : S → Option Location → Lookup × S) where
    -- What the layers decide, asked in order: the first answer that settles the name, an error at
    -- a layer that cannot be asked, or a missing value when all of them pass.
    pub data Decides : List Layer → S → Lookup × S → Type 0 where
      exhausted : (s : S) → Decides [] s (missing, s)
      unlocated :
          (layer : Layer) (rest : List Layer) (s : S)
          → Unlocated layer state
          → Decides
              (layer ∷ rest)
              s
              (failing (Error.message "provider layer %s returned no locator" (layer.name ∷ [])), s)
      refused :
          (layer : Layer) (rest : List Layer) (s : S) (l : Locator)
          → Located layer state l
          → AskedAs l none
          → Decides (layer ∷ rest) s (
            failing (
                Error.message "provider layer %s does not support bodyNullPolicy"
                  (layer.name ∷ [])),
            s,
          )
      settled :
          (layer : Layer) (rest : List Layer) (s : S) (l : Locator) (b : Behaviour)
          → Located layer state l
          → AskedAs l (some b)
          → Settles l name (reply scope s b).0
          → Decides (layer ∷ rest) s (reply scope s b)
      passed :
          (layer : Layer) (rest : List Layer) (s : S) (l : Locator) (b : Behaviour) (r : Lookup × S)
          → Located layer state l
          → AskedAs l (some b)
          → Passes l name (reply scope s b).0
          → Decides rest (reply scope s b).1 r
          → Decides (layer ∷ rest) s r

    abbrev decision : List Layer → S → Lookup × S
    decision layers s =
        reply scope s (try_layers capture in_scope policy state now target name layers)

    decision-asked :
        (layer : Layer) (rest : List Layer) (s : S) (l : Locator) (b : Behaviour)
        → locate_layer layer state ≡ some l
        → asked l ≡ some b
        → decision (layer ∷ rest) s
          ≡ reply scope (reply scope s b).1 (
              if settles l name (reply scope s b).0
              then answer (reply scope s b).0
              else try_layers capture in_scope policy state now target name rest)
    unfolding try_layers
    decision-asked layer rest s l b there way = ground (
      arith,
      reply-and_then scope s b (λ r.
          if settles l name r
          then answer r
          else try_layers capture in_scope policy state now target name rest),
    )

    -- For every scope, capturing or not and under every null policy, a composed provider implements
    -- the relation of layers that decide in order: the answer is that of the first layer that finds
    -- the value, fails or owns the name, with the layers before it asked and passed and those behind
    -- it not asked; a layer without a locator, or without support for the policy, is an error there;
    -- and when all layers pass, the value is missing without an error.
    pub try_layers-Decides :
        (layers : List Layer) (s : S)
        → Decides layers s
            (reply scope s (try_layers capture in_scope policy state now target name layers))
    unfolding try_layers
    try_layers-Decides [] s = exhausted s
    try_layers-Decides (layer ∷ rest) s = elim (locate_layer-cases layer state) [
      | inl (nothing, why) ↦
          subst (Decides (layer ∷ rest) s) {y = decision (layer ∷ rest) s} (ground arith)
            (unlocated layer rest s why)
      | inr (l, there, why) ↦ elim (Option-cases (asked l)) [
        | inl denied ↦
            subst (Decides (layer ∷ rest) s) {y = decision (layer ∷ rest) s} (ground arith)
              (refused layer rest s l why (subst (AskedAs l) denied (request-AskedAs l)))
        | inr (b, way) ↦
            let whole = decision-asked layer rest s l b there way in
            let manner = subst (AskedAs l) way (request-AskedAs l) in
            elim (settles-cases l name (reply scope s b).0) [
              | inl (affirmed, decides) ↦
                  subst (Decides (layer ∷ rest) s) {x = reply scope s b}
                    {y = decision (layer ∷ rest) s} (ground arith)
                    (settled layer rest s l b why manner decides)
              | inr (denied, passes) ↦
                  subst (Decides (layer ∷ rest) s) {x = decision rest (reply scope s b).1}
                    {y = decision (layer ∷ rest) s} (ground arith)
                    (passed layer rest s l b (decision rest (reply scope s b).1) why manner passes
                      (try_layers-Decides rest (reply scope s b).1))
            ]
      ]
    ]
