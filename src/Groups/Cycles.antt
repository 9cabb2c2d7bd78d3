-- ===== src/Groups/Cycles.antt =====
-- resolution_group.go: lemmas on the depth-first search `visit` for prerequisite cycles.
use bindly.Prelude.{
  ℕ, zero, suc, ◌≡◌, refl, ◌∙◌, sym, ap, String, true, none, some, List, [], ◌∷◌, arith, Bool-cases,
  Option-cases, inl, inr, str_eq, eq_iff,
}
use mathlib.Core.List.{Memᴰ}
use mathlib.Core.Path.{subst}
use bindly.Errors.{Result, ok, err, Result-cases}
use bindly.Resolve.{contains}
use bindly.Groups.Visit.{Visited, Search, visit_all, leave, visit, visit_members}

contains-Mem : (keys : List String) (k : String) → contains keys k ≡ true → Memᴰ k keys
unfolding contains
contains-Mem [] k h = cc
contains-Mem (a ∷ keys) k h = elim (Bool-cases (str_eq a k)) [
  | inl e ↦ Memᴰ.head (sym ((eq_iff a k).0 e))
  | inr e ↦ Memᴰ.tail (contains-Mem keys k (ground arith))
]

module _ (canonical : String → Result String) (depends_on : String → List String) where
  -- Every prerequisite of a path in the list has a canonical path later in it.
  abbrev pub Later : List String → List String → Type 0
  Later later [] = Unit
  Later later (name ∷ names) =
      ((path : String) × canonical name ≡ ok path × Memᴰ path later) × Later later names

  abbrev pub IsOrdered : List String → Type 0
  IsOrdered [] = Unit
  IsOrdered (path ∷ later) = Later later (depends_on path) × IsOrdered later

  -- A chain of prerequisites.
  pub data Requires : String → String → Type 0 where
    direct : {name p q : String} → Memᴰ name (depends_on p) → canonical name ≡ ok q → Requires p q
    through :
        {name p q r : String}
        → Memᴰ name (depends_on p)
        → canonical name ≡ ok q
        → Requires q r
        → Requires p r

  abbrev Extends : List String → List String → Type 0
  Extends old new = (q : String) → Memᴰ q old → Memᴰ q new

  Later-grow : (old new names : List String) → Extends old new → Later old names → Later new names
  Later-grow old new [] grow h = tt
  Later-grow old new (n ∷ names) grow ((p, e, m), h) =
      ((p, e, grow p m), Later-grow old new names grow h)

  -- A successful search orders what it has visited.
  abbrev Grows : Visited → Visited → Type 0
  Grows st st' = Extends st.visited st'.visited × IsOrdered st'.visited

  abbrev Visits : (String → Visited → Search) → Type 0
  Visits enter =
      (path : String) (st st' : Visited)
      → enter path st ≡ some (ok st')
      → IsOrdered st.visited
      → Grows st st' × Memᴰ path st'.visited

  -- What a successful run of the loop over prerequisites consists of.
  visit_all-step :
      (enter : String → Visited → Search) (name : String) (names : List String) (st st' : Visited)
      → visit_all canonical depends_on enter (name ∷ names) st ≡ some (ok st')
      → (p : String) × (st1 : Visited) × canonical name ≡ ok p
        × enter p st ≡ some (ok st1)
        × visit_all canonical depends_on enter names st1 ≡ some (ok st')
  visit_all-step enter name names st st' h = elim (Result-cases (canonical name)) [
    | inl (p, e) ↦ elim (Option-cases (enter p st)) [
      | inl n ↦ ground arith
      | inr (r, f) ↦ elim (Result-cases r) [
        | inl (st1, g) ↦ (p, st1, e, f ∙ ap some g, ground arith)
        | inr (x, g) ↦ ground arith
      ]
    ]
    | inr (x, e) ↦ ground arith
  ]

  visit_all-Later :
      (enter : String → Visited → Search)
      → Visits enter
      → (names : List String) (st st' : Visited)
      → visit_all canonical depends_on enter names st ≡ some (ok st')
      → IsOrdered st.visited
      → Grows st st' × Later st'.visited names
  visit_all-Later enter visits [] st st' h o =
      let same : st ≡ st' = cc in (subst (λ s. Grows st s) same ((λ q m. m), o), tt)
  visit_all-Later enter visits (name ∷ names) st st' h o =
      let (p, st1, e, f, rest) = visit_all-step enter name names st st' h in
      let ((grow1, o1), m) = visits p st st1 f o in
      let ((grow2, o2), later) = visit_all-Later enter visits names st1 st' rest o1 in
      (((λ q k. grow2 q (grow1 q k)), o2), ((p, e, grow2 p m), later))

  leave-step :
      (path : String) (found : Search) (st' : Visited)
      → leave canonical depends_on path found ≡ some (ok st')
      → (st1 : Visited) × found ≡ some (ok st1) × path ∷ st1.visited ≡ st'.visited
  leave-step path none st' h = cc
  leave-step path (some (err e)) st' h = cc
  leave-step path (some (ok st1)) st' h = (st1, refl, cc)

  visit-Visits : (fuel : ℕ) → Visits (visit canonical depends_on fuel)
  unfolding visit
  visit-Visits zero path st st' h o = cc
  visit-Visits (suc fuel) path st st' h o = elim (Bool-cases (contains st.visiting path)) [
    | inl c ↦ ground arith
    | inr c ↦ elim (Bool-cases (contains st.visited path)) [
      | inl v ↦
          let same : st ≡ st' = ground arith in
          subst (λ s. Grows st s × Memᴰ path s.visited) same
            (((λ q m. m), o), contains-Mem st.visited path v)
      | inr v ↦
          let enter = visit canonical depends_on fuel in
          let left =
            visit_all canonical depends_on enter (depends_on path)
              (record st { visiting = path ∷ st.visiting }) in
          let unfolded : leave canonical depends_on path left ≡ some (ok st') = ground arith in
          let (st1, e, g) = leave-step path left st' unfolded in
          let ((grow, o1), later) =
            visit_all-Later enter (visit-Visits fuel) (depends_on path)
              (record st { visiting = path ∷ st.visiting }) st1 e o in
          subst (λ vs. (Extends st.visited vs × IsOrdered vs) × Memᴰ path vs) g
            (((λ q m. Memᴰ.tail (grow q m)), (later, o1)), Memᴰ.head refl)
    ]
  ]

  -- A successful search of a group's members.
  pub visit_members-IsOrdered :
      (fuel : ℕ) (paths : List String) (st st' : Visited)
      → visit_members canonical depends_on fuel paths st ≡ some (ok st')
      → IsOrdered st.visited
      → Grows st st' × ((path : String) → Memᴰ path paths → Memᴰ path st'.visited)
  unfolding visit_members
  visit_members-IsOrdered fuel [] st st' h o =
      let same : st ≡ st' = cc in
      (subst (λ s. Grows st s) same ((λ q m. m), o), λ path m. elim m [ ])
  visit_members-IsOrdered fuel (path ∷ paths) st st' h o =
      elim (Option-cases (visit canonical depends_on fuel path st)) [
        | inl n ↦ ground arith
        | inr (r, f) ↦ elim (Result-cases r) [
          | inr (x, g) ↦ ground arith
          | inl (st1, g) ↦
              let rest : visit_members canonical depends_on fuel paths st1 ≡ some (ok st') =
                ground arith in
              let ((grow1, o1), m) = visit-Visits fuel path st st1 (f ∙ ap some g) o in
              let ((grow2, o2), all) = visit_members-IsOrdered fuel paths st1 st' rest o1 in
              (
                ((λ q k. grow2 q (grow1 q k)), o2),
                λ q k. elim k [
                  | Memᴰ.head e ↦ subst (λ p. Memᴰ p st'.visited) (sym e) (grow2 path m)
                  | Memᴰ.tail k' ↦ all q k'
                ],
              )
        ]
      ]

  Later-Mem :
      (later names : List String) (name q : String)
      → Later later names
      → Memᴰ name names
      → canonical name ≡ ok q
      → Memᴰ q later
  Later-Mem later [] name q h m c = elim m [ ]
  Later-Mem later (n ∷ names) name q ((p, e, m), h) (Memᴰ.head same) c =
      let ends : p ≡ q = cc in subst (λ x. Memᴰ x later) ends m
  Later-Mem later (n ∷ names) name q (x, h) (Memᴰ.tail k) c = Later-Mem later names name q h k c

  required-Mem :
      (paths : List String) (name p q : String)
      → IsOrdered paths
      → Memᴰ p paths
      → Memᴰ name (depends_on p)
      → canonical name ≡ ok q
      → Memᴰ q paths
  required-Mem [] name p q o m k c = elim m [ ]
  required-Mem (x ∷ later) name p q (l, o) (Memᴰ.head same) k c =
      Memᴰ.tail
        (Later-Mem later (depends_on x) name q l (subst (λ y. Memᴰ name (depends_on y)) same k) c)
  required-Mem (x ∷ later) name p q (l, o) (Memᴰ.tail m) k c =
      Memᴰ.tail (required-Mem later name p q o m k c)

  chain-Mem :
      (paths : List String) (p q : String)
      → IsOrdered paths
      → Memᴰ p paths
      → Requires p q
      → Memᴰ q paths
  chain-Mem paths p q o m (direct k c) = required-Mem paths _ p q o m k c
  chain-Mem paths p r o m (through {q = q} k c chain) =
      chain-Mem paths q r o (required-Mem paths _ p q o m k c) chain

  head-Mem :
      (path q : String) (later : List String)
      → IsOrdered (path ∷ later)
      → Requires path q
      → Memᴰ q later
  head-Mem path q later (l, o) (direct k c) = Later-Mem later (depends_on path) _ q l k c
  head-Mem path r later (l, o) (through {q = q} k c chain) =
      chain-Mem later q r o (Later-Mem later (depends_on path) _ q l k c) chain

  pub IsOrdered-acyclic :
      (paths : List String) (p : String) → IsOrdered paths → Memᴰ p paths → ¬ Requires p p
  IsOrdered-acyclic [] p o m chain = elim m [ ]
  IsOrdered-acyclic (x ∷ later) p (l, o) (Memᴰ.head same) chain =
      IsOrdered-acyclic later p o
        (head-Mem p p later
          (subst (λ y. Later later (depends_on y) × IsOrdered later) (sym same) (l, o)) chain)
        chain
  IsOrdered-acyclic (x ∷ later) p (l, o) (Memᴰ.tail m) chain = IsOrdered-acyclic later p o m chain

  -- When the search of the members succeeds, no member requires itself through any chain of prerequisites.
  pub visit_members-acyclic :
      (fuel : ℕ) (paths : List String) (found : Visited) (path : String)
      → visit_members canonical depends_on fuel paths (record { visiting = []; visited = [] })
        ≡ some (ok found)
      → Memᴰ path paths
      → ¬ Requires path path
  visit_members-acyclic fuel paths found path h m =
      let (grows, all) =
        visit_members-IsOrdered fuel paths (record { visiting = []; visited = [] }) found h tt in
      IsOrdered-acyclic found.visited path grows.1 (all path m)
