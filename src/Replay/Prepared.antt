-- ===== src/Replay/Prepared.antt =====
-- replay_plan.go: the bindings that a preparation adds.
use bindly.Prelude.{String, true, ◌||◌, ◌≡◌, ◌⊎◌, some, List, str_eq}
use bindly.Prelude.Comparable.{string_comparable}
use bindly.Map
use bindly.Map.{Map}
use bindly.Spec.{BindingSpec}
use bindly.Projection.{Projection}
use bindly.Replay.{find_binding, is_pure}

-- A binding of the plan that reads a parameter or a constant.
abbrev pub IsHarmless : List BindingSpec → String → BindingSpec → Type 0
IsHarmless bindings path b =
    (find_binding bindings path ≡ some b)
    × ((str_eq b.location.kind "param" || is_pure b.location.kind) ≡ true)

-- What is in the preflight later was there before or is harmless.
abbrev AddsHarmless : List BindingSpec → Map String BindingSpec → Map String BindingSpec → Type 0
AddsHarmless bindings old new =
    (path : String) (b : BindingSpec)
    → Map.get new path ≡ some b
    → (Map.get old path ≡ some b) ⊎ IsHarmless bindings path b
