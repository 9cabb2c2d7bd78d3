-- ===== src/Locator/Registry/Shadowing.antt =====
-- locator/registry.go: a layer's own providers and those of its parents.
use bindly.Prelude.{
  String, ◌≡◌, Option, none, some, List, [], ◌∷◌, arith, if◌then◌else◌, eq_iff, inl, inr, All,
}
use bindly.Prelude.Comparable.{◌==◌, string_comparable, ==_refl}
use bindly.Errors.{ok, Result-cases}
use bindly.Map
use bindly.Map.{Map}
use bindly.Map.Laws.{get-put, get-delete, get-new}
use bindly.Locator.{Provider}
use bindly.Locator.Registry.{Registry, child, lookup, register, unregister, register_all}

-- What a registry's own layer holds.
abbrev own : Registry → String → Option Provider
own [] kind = none
own (m ∷ parent) kind = Map.get m kind

-- A provider that is registered answers for its kind from then on, ahead of every parent, and
-- lookups of other kinds are as before.
pub lookup-register :
    (r r' : Registry) (p : Provider) (kind : String)
    → register r p ≡ ok r'
    → lookup r' kind ≡ (if p.kind == kind then some p else lookup r kind)
unfolding register lookup
lookup-register [] r' p kind h = cc
lookup-register (m ∷ parent) [] p kind h = ground arith
lookup-register (m ∷ parent) (m' ∷ parent') p kind h = ground (arith, get-put m p.kind kind p)

own-register :
    (r r' : Registry) (p : Provider) (kind : String) (q : Provider)
    → register r p ≡ ok r'
    → own r kind ≡ some q
    → own r' kind ≡ some q
unfolding register Map.exists
own-register [] r' p kind q h e = cc
own-register (m ∷ parent) [] p kind q h e = ground arith
own-register (m ∷ parent) (m' ∷ parent') p kind q h e =
    ground (arith, get-put m p.kind kind p, eq_iff p.kind kind)

own-register_self : (r r' : Registry) (p : Provider) → register r p ≡ ok r' → own r' p.kind ≡ some p
unfolding register
own-register_self [] r' p h = cc
own-register_self (m ∷ parent) [] p h = ground arith
own-register_self (m ∷ parent) (m' ∷ parent') p h =
    ground (arith, get-put m p.kind p.kind p, ==_refl p.kind)

own-register_all :
    (r r' : Registry) (ps : List Provider) (kind : String) (q : Provider)
    → register_all r ps ≡ ok r'
    → own r kind ≡ some q
    → own r' kind ≡ some q
unfolding register_all
own-register_all r r' [] kind q h e = ground arith
own-register_all r r' (p ∷ ps) kind q h e = elim (Result-cases (register r p)) [
  | inl (r1, ok_p) ↦
      own-register_all r1 r' ps kind q (ground arith) (own-register r r1 p kind q ok_p e)
  | inr (f, bad) ↦ ground arith
]

lookup_of_own :
    (r : Registry) (kind : String) (q : Provider) → own r kind ≡ some q → lookup r kind ≡ some q
unfolding lookup
lookup_of_own [] kind q h = cc
lookup_of_own (m ∷ parent) kind q h = ground arith

-- When all providers of a scope are registered without an error, each of them is the one that
-- its kind resolves to: no two share a kind, and none is shadowed.
pub register_all-lookup :
    (r r' : Registry) (ps : List Provider)
    → register_all r ps ≡ ok r'
    → All (λ p. lookup r' p.kind ≡ some p) ps
unfolding register_all
register_all-lookup r r' [] h = tt
register_all-lookup r r' (p ∷ ps) h = elim (Result-cases (register r p)) [
  | inl (r1, ok_p) ↦
      let rest : register_all r1 ps ≡ ok r' = ground arith in
      (
        lookup_of_own r' p.kind p
            (own-register_all r1 r' ps p.kind p rest (own-register_self r r1 p ok_p)),
        register_all-lookup r1 r' ps rest,
      )
  | inr (f, bad) ↦ absurd (ground arith)
]

-- A child registry answers as its parent does.
pub lookup-child : (r : Registry) (kind : String) → lookup (child r) kind ≡ lookup r kind
unfolding lookup child
lookup-child r kind = ground (arith, get-new {V = Provider} kind)

-- After Unregister the kind is answered by the parents alone.
pub lookup-unregister :
    (m : Map String Provider) (parent : Registry) (kind other : String)
    → lookup (unregister (m ∷ parent) kind) other
      ≡ (if kind == other then lookup parent other else lookup (m ∷ parent) other)
unfolding lookup unregister
lookup-unregister m parent kind other = ground (arith, get-delete m kind other)
