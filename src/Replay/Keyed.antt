-- ===== src/Replay/Keyed.antt =====
-- replay_plan.go: the fields of a replay plan are keyed by the paths of their bindings.
use bindly.Prelude.{
  String, false, ◌≡◌, ◌∙◌, ◌⊎◌, refl, sym, ap, inl, inr, some, List, [], ◌∷◌, All, str_eq, eq_iff,
  arith, Bool-cases, Option-cases,
}
use mathlib.Core.Path.{subst}
use mathlib.Core.List.{Memᴰ}
use bindly.Prelude.Comparable.{string_comparable}
use bindly.Map
use bindly.Map.{Map}
use bindly.Map.Laws.{IsFunctional, put-IsFunctional}
use bindly.Errors.{ok, Result-cases}
use bindly.Spec.{BindingSpec}
use bindly.Plan.{Plan}
use bindly.Resolve.{contains}
use bindly.Replay.{ReplayPlan, find_binding, with_name, select_bindings, replay}

-- Each entry stands under its binding's path, and no path has two.
abbrev pub IsKeyed : List (String × BindingSpec) → Type 0
IsKeyed entries = All (λ e. e.0 ≡ e.1.path) entries × IsFunctional entries

-- No other binding of the entries has the path of `b`.
abbrev pub IsAlone : BindingSpec → List (String × BindingSpec) → Type 0
IsAlone b entries = All (λ e. (str_eq e.1.path b.path ≡ false) ⊎ (e.1 ≡ b)) entries

without-keyed :
    (k : String) (l : List (String × BindingSpec))
    → All (λ e. e.0 ≡ e.1.path) l
    → All (λ e. e.0 ≡ e.1.path) (Map.without k l)
unfolding Map.without
without-keyed k [] all = tt
without-keyed k (e ∷ rest) all = elim (Bool-cases (str_eq e.0 k)) [
  | inl same ↦ rw same (without-keyed k rest all.1)
  | inr other ↦ rw other (all.0, without-keyed k rest all.1)
]

put-IsKeyed :
    (fields : Map String BindingSpec) (b : BindingSpec)
    → IsKeyed fields.entries
    → IsKeyed (Map.put fields b.path b).entries
unfolding Map.put
put-IsKeyed fields b (all, single) =
    ((refl, without-keyed b.path fields.entries all), put-IsFunctional fields b.path b single)

pub find_binding-path :
    (bindings : List BindingSpec) (path : String) (b : BindingSpec)
    → find_binding bindings path ≡ some b
    → b.path ≡ path
unfolding find_binding
find_binding-path [] path b h = absurd (ground arith)
find_binding-path (c ∷ rest) path b h = elim (Bool-cases (str_eq c.path path)) [
  | inl here ↦ ground (arith, eq_iff c.path path)
  | inr there ↦ find_binding-path rest path b (ground arith)
]

select_bindings-IsKeyed :
    (bindings : List BindingSpec) (names : List String) (fields kept : Map String BindingSpec)
    (paths : List String)
    → select_bindings bindings names fields paths ≡ ok kept
    → IsKeyed fields.entries
    → IsKeyed kept.entries
unfolding select_bindings
select_bindings-IsKeyed bindings names fields kept [] h keyed =
    subst (λ (m : Map String BindingSpec). IsKeyed m.entries) {x = fields} {y = kept} (ground arith)
      keyed
select_bindings-IsKeyed bindings names fields kept (path ∷ rest) h keyed =
    elim (Option-cases (find_binding bindings path)) [
      | inl missing ↦ absurd (ground arith)
      | inr (b, found) ↦ elim (Bool-cases (contains names (with_name b).name)) [
        | inl duplicate ↦ absurd (ground arith)
        | inr fresh ↦
            select_bindings-IsKeyed bindings ((with_name b).name ∷ names)
              (Map.put fields path (with_name b)) kept rest (ground arith)
              (subst (λ k. IsKeyed (Map.put fields k (with_name b)).entries)
                (find_binding-path bindings path b found) (put-IsKeyed fields (with_name b) keyed))
      ]
    ]

pub replay-IsKeyed :
    (plan : Plan) (paths : List String) (p : ReplayPlan)
    → replay (some plan) paths ≡ ok p
    → IsKeyed p.fields.entries
unfolding replay Map.new
replay-IsKeyed plan paths p h =
    elim (Result-cases (select_bindings plan.bindings [] Map.new paths)) [
      | inr (e, failed) ↦ absurd (ground arith)
      | inl (fields, selected) ↦
          subst (λ (m : Map String BindingSpec). IsKeyed m.entries) {x = fields} {y = p.fields}
            (ground arith)
            (select_bindings-IsKeyed plan.bindings [] Map.new fields paths selected (tt, tt))
    ]

All-intro :
    (l : List (String × BindingSpec)) (P : String × BindingSpec → Type 0)
    → ((e : String × BindingSpec) → Memᴰ e l → P e)
    → All P l
All-intro [] P h = tt
All-intro (e ∷ rest) P h = (h e (Memᴰ.head refl), All-intro rest P (λ f m. h f (Memᴰ.tail m)))

Mem-keyed :
    (l : List (String × BindingSpec)) (e : String × BindingSpec)
    → All (λ f. f.0 ≡ f.1.path) l
    → Memᴰ e l
    → e.0 ≡ e.1.path
Mem-keyed [] e all m = elim m [ ]
Mem-keyed (f ∷ rest) e all (Memᴰ.head same) =
    subst (λ (g : String × BindingSpec). g.0 ≡ g.1.path) (sym same) all.0
Mem-keyed (f ∷ rest) e all (Memᴰ.tail later) = Mem-keyed rest e all.1 later

Mem-lookup :
    (l : List (String × BindingSpec)) (e : String × BindingSpec)
    → IsFunctional l
    → Memᴰ e l
    → Map.lookup e.0 l ≡ some e.1
unfolding Map.lookup
Mem-lookup [] e single m = elim m [ ]
Mem-lookup (f ∷ rest) e single (Memᴰ.head same) =
    subst (λ (g : String × BindingSpec). Map.lookup g.0 (f ∷ rest) ≡ some g.1) (sym same)
      (ground (arith, eq_iff f.0 f.0))
Mem-lookup (f ∷ rest) e single (Memᴰ.tail later) =
    let there = Mem-lookup rest e single.1 later in
    elim (Bool-cases (str_eq f.0 e.0)) [
      | inl same ↦
          absurd
            (ground (arith, single.0, ap (λ k. Map.lookup k rest) ((eq_iff f.0 e.0).0 same), there))
      | inr other ↦ ground (arith, there)
    ]

pub IsKeyed-IsAlone :
    (l : List (String × BindingSpec)) (path : String) (b : BindingSpec)
    → IsKeyed l
    → Memᴰ (path, b) l
    → IsAlone b l
IsKeyed-IsAlone l path b (all, single) m =
    All-intro l (λ e. (str_eq e.1.path b.path ≡ false) ⊎ (e.1 ≡ b))
      (λ e n. elim (Bool-cases (str_eq e.1.path b.path)) [
        | inr apart ↦ inl apart
        | inl agree ↦
            let same : e.0 ≡ path =
              Mem-keyed l e all n
              ∙ ((eq_iff e.1.path b.path).0 agree ∙ sym (Mem-keyed l (path, b) all m)) in
            let whole : some e.1 ≡ some b =
              sym (Mem-lookup l e single n)
              ∙ (ap (λ k. Map.lookup k l) same ∙ Mem-lookup l (path, b) single m) in
            inr (ground (arith, whole))
      ])
