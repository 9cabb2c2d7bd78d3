-- ===== src/Locator/Compose/Validation.antt =====
-- locator/compose.go: what ComposeProviders accepts.
use bindly.Prelude.{
  String, ◌≡◌, ◌≢◌, refl, Bool, true, false, Option, none, some, List, [], ◌∷◌, All, arith, str_eq,
  eq_iff,
}
use bindly.Prelude.Comparable.{string_comparable}
use bindly.Errors.{ok}
use bindly.Map
use bindly.Map.{Map}
use bindly.Map.Laws.{get-put}
use bindly.Locator.{Provider}
use bindly.Locator.Compose.{Layer, check_layers, compose_providers, kind_differs}

-- The layer has a name, and a provider of the kind.
abbrev pub Supplies : String → Layer → Type 0
Supplies kind layer =
    (layer.name ≢ "") × (p : Provider) × (layer.provider ≡ some p) × (p.kind ≡ kind)

-- No two layers share a name.
abbrev pub DistinctNames : List Layer → Type 0
DistinctNames [] = Unit
DistinctNames (layer ∷ rest) = All (λ other. layer.name ≢ other.name) rest × DistinctNames rest

abbrev Unseen : Map String Bool → List Layer → Type 0
Unseen seen = All (λ layer. Map.exists seen layer.name ≡ false)

Unseen-put :
    (seen : Map String Bool) (name : String) (layers : List Layer)
    → Unseen (Map.put seen name true) layers
    → Unseen seen layers × All (λ other. name ≢ other.name) layers
unfolding Map.exists
Unseen-put seen name [] h = (tt, tt)
Unseen-put seen name (layer ∷ rest) h =
    let (older, others) = Unseen-put seen name rest h.1 in
    (
      (ground (arith, h.0, get-put seen name layer.name true, eq_iff name layer.name), older),
      (
        (λ e. ground (arith, h.0, get-put seen name layer.name true, eq_iff name layer.name)),
        others,
      ),
    )

supplies :
    (kind : String) (layer : Layer)
    → str_eq layer.name "" ≡ false
    → kind_differs layer.provider kind ≡ false
    → Supplies kind layer
supplies kind layer named h =
    let (p, given, right) = supplier layer.provider h in
    ((λ e. ground (arith, eq_iff layer.name "")), p, given, right)
  where
    supplier :
        (o : Option Provider)
        → kind_differs o kind ≡ false
        → (p : Provider) × (o ≡ some p) × (p.kind ≡ kind)
    supplier none d = cc
    supplier (some p) d = (p, refl, ground (arith, eq_iff p.kind kind))

check_layers-none :
    (kind : String) (seen : Map String Bool) (layers : List Layer)
    → check_layers kind seen layers ≡ none
    → Unseen seen layers × DistinctNames layers × All (Supplies kind) layers
unfolding check_layers
check_layers-none kind seen [] h = (tt, tt, tt)
check_layers-none kind seen (layer ∷ rest) h =
    let seen' = Map.put seen layer.name true in
    let (unseen, distinct, supplied) = check_layers-none kind seen' rest (ground arith) in
    let (older, others) = Unseen-put seen layer.name rest unseen in
    (
      (ground arith, older),
      (others, distinct),
      (supplies kind layer (ground arith) (ground arith), supplied),
    )

-- A composition that is accepted has layers with distinct, nonempty names, each with a provider
-- of the composition's kind, and the composed provider has that kind.
pub compose_providers-ok :
    (kind : String) (layers : List Layer) (p : Provider)
    → compose_providers kind layers ≡ ok p
    → (p.kind ≡ kind) × (layers ≢ []) × DistinctNames layers × All (Supplies kind) layers
unfolding compose_providers
compose_providers-ok kind [] p h = ground arith
compose_providers-ok kind (layer ∷ rest) p h =
    let (_, distinct, supplied) = check_layers-none kind Map.new (layer ∷ rest) (ground arith) in
    (ground arith, (λ e. cc), distinct, supplied)
