-- ===== src/Resolve/Caching.antt =====
-- scope.go: a resolution that is repeated in one invocation.
use mathlib.Core.Path.{subst}
use bindly.Prelude.{
  ℕ, zero, suc, ◌+◌, ◌≡◌, sym, String, Bool, true, false, Option, none, some, [], ◌∷◌, inl, inr,
  arith, Bool-cases, Option-cases,
}
use bindly.Prelude.Comparable.{==_refl}
use bindly.Reflect.{GoType}
use bindly.Errors.{Result-cases}
use bindly.Map
use bindly.Map.Laws.{get-put}
use bindly.Locator.{Location, Lookup, Provider}
use bindly.Locator.Registry
use bindly.Locator.Compose.{request}
use bindly.Resolve.{
  Injector, Settings, State, Outcome, Answer, active_key, contains, run, store, consult, walk,
  resolve, source_state, unwrap, resolution_key, persistent_key, should_cache, persisted,
  effective_persistent,
}
use bindly.Resolve.Keys.{
  ResolutionKey, PersistentKey, resolution_key_comparable, persistent_key_comparable,
}
use bindly.Resolve.Active.{remove-cons}
use bindly.Resolve.Total.{resolve-active}

store-cached :
    (s : Settings) (key : ResolutionKey) (persistent : PersistentKey) (l : Lookup) (st st' : State)
    (o : Outcome)
    → store s true key persistent l st ≡ (o, st')
    → o.error ≡ none
    → Map.get st'.cache key ≡ some o.resolution
unfolding store
store-cached s key persistent l st st' o e fine =
    elim (Result-cases
      (unwrap s.observing (record { value = l.value; found = l.found; metadata = none }))) [
        | inl (r, u) ↦ ground (arith, u, get-put st.cache key key r, ==_refl key)
        | inr (x, u) ↦ ground (arith, u)
      ]

module _ (s : Settings) (asked : Option Location → State → Answer) (location : Location)
    (target : Option GoType) (cacheable : Option Bool) (policy : String) (current : Injector)
    (provider : Provider) where
  consult-cached :
      (st st' : State) (o : Outcome)
      → should_cache provider cacheable policy ≡ true
      → consult s asked location target cacheable policy current provider
          (walk s asked location target cacheable policy [])
          st
        ≡ some (o, st')
      → o.error ≡ none
      → o.resolution.found ≡ true
      → Map.get st'.cache (resolution_key s asked location target cacheable policy current)
        ≡ some o.resolution
  unfolding consult walk
  consult-cached st st' o caching e fine found =
      elim (Option-cases (provider.locate (source_state s))) [
        | inl absent ↦ absurd (ground (arith, absent))
        | inr (l, located) ↦
            elim (Option-cases
              (request s.capture_sources true policy l st.now target location.in_path)) [
                | inl refused ↦ absurd (ground (arith, located, refused))
                | inr (b, asked_for) ↦
                    elim (Option-cases (run asked b (record st { now = st.now + 1 }))) [
                      | inl starved ↦ absurd (ground (arith, located, asked_for, starved))
                      | inr ((r, st1), ran) ↦
                          store-cached s _
                            (persistent_key s asked location target cacheable policy current) r st1
                            st' o (ground (arith, located, asked_for, ran, caching)) fine
                    ]
              ]
      ]

  -- What a second walk finds: the entry of the invocation's cache, or the persistent one.
  record Kept (st : State) (o : Outcome) : Type 0 where
    again :
        (asked' : Option Location → State → Answer) (st' : State)
        → st'.cache ≡ st.cache
        → st'.persistent ≡ st.persistent
        → walk s asked' location target cacheable policy (current ∷ []) st' ≡ some (o, st')

  walk-Kept :
      (st st' : State) (o : Outcome)
      → Registry.lookup current.locators location.kind ≡ some provider
      → should_cache provider cacheable policy ≡ true
      → walk s asked location target cacheable policy (current ∷ []) st ≡ some (o, st')
      → o.error ≡ none
      → o.resolution.found ≡ true
      → Kept st' o
  unfolding walk
  walk-Kept st st' o given caching e fine found =
      let key = resolution_key s asked location target cacheable policy current in
      elim (Option-cases (Map.get st.cache key)) [
        | inr (r, hit) ↦ record { again = λ asked' st2 c p. ground (arith, given, caching, hit) }
        | inl miss ↦
            elim (Option-cases (
              persisted true (effective_persistent s st)
                (persistent_key s asked location target cacheable policy current))) [
                  | inr (v, hit) ↦ record {
                    again = λ asked' st2 c p. ground (arith, given, caching, miss, hit);
                  }
                  | inl absent ↦
                      let now_cached : Map.get st'.cache key ≡ some o.resolution =
                        consult-cached st st' o caching
                          (ground (arith, given, caching, miss, absent)) fine found in
                      record {
                        again = λ asked' st2 c p. ground (arith, given, caching, now_cached);
                      }
                ]
      ]

-- At an injector without parents, a value that was found and may be cached is found again without
-- asking its source: a second resolution of the same location and target returns the same outcome
-- and changes nothing, whatever the source would answer by then.
pub resolve_again :
    (fuel more : ℕ) (s : Settings) (current : Injector) (provider : Provider) (location : Location)
    (target : Option GoType) (cacheable : Option Bool) (policy : String) (st st' : State)
    (o : Outcome)
    → s.injectors ≡ current ∷ []
    → Registry.lookup current.locators location.kind ≡ some provider
    → should_cache provider cacheable policy ≡ true
    → resolve fuel s (some location) target cacheable policy st ≡ some (o, st')
    → o.error ≡ none
    → o.resolution.found ≡ true
    → resolve (suc more) s (some location) target cacheable policy st' ≡ some (o, st')
unfolding resolve
resolve_again zero more s current provider location target cacheable policy st st' o only given
      caching e fine found =
    cc
resolve_again (suc fuel) more s current provider location target cacheable policy st st' o only
      given caching e fine found =
    elim (Bool-cases (contains st.active (active_key location))) [
      | inl cyclic ↦ absurd (ground (arith, cyclic))
      | inr fresh ↦
          elim (Option-cases
            (walk s (asked fuel) location target cacheable policy (current ∷ []) (entered st))) [
              | inl starved ↦ absurd (ground (arith, fresh, only, starved))
              | inr ((o1, st1), walked) ↦
                  let kept =
                    walk-Kept s (asked fuel) location target cacheable policy current provider
                      (entered st) st1 o given caching (ground (arith, fresh, only, walked)) fine
                      found in
                  let same : st'.active ≡ st.active =
                    resolve-active (suc fuel) s (some location) target cacheable policy st st' o
                      e in
                  let repeated =
                    subst
                      (λ js.
                        walk s (asked more) location target cacheable policy js (entered st')
                        ≡ some (o, entered st'))
                      (sym only)
                      (kept.again (asked more) (entered st') (ground (arith, fresh, only, walked))
                        (ground (arith, fresh, only, walked))) in
                  let unlisted : contains st'.active key ≡ false = rw same fresh in
                  ground (arith, unlisted, repeated, remove-cons st'.active key unlisted)
            ]
    ]
  where
    key : String
    key = active_key location

    asked : ℕ → Option Location → State → Answer
    asked k inner later = resolve k s inner none none "" later

    entered : State → State
    entered now = record now { active = key ∷ now.active }
