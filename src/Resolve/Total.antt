-- ===== src/Resolve/Total.antt =====
-- scope.go: the active keys of a resolution, and its end.
use bindly.Prelude.{
  ℕ, zero, suc, ◌<◌, ◌+◌, ◌≡◌, if◌then◌else◌, refl, ◌∙◌, String, Bool, true, false, Option, none,
  some, List, [], ◌∷◌, All, arith,
}
use mathlib.Core.Path.{subst}
use bindly.Reflect.{GoType}
use bindly.Locator.{Location, Lookup, Behaviour, answer, ask, Locator, Provider}
use bindly.Locator.Registry
use bindly.Locator.Compose.{request, settles}
use bindly.Resolve.{
  Injector, Settings, State, Outcome, Answer, active_key, contains, run, store, consult, walk,
  resolve, source_state, lookup_of, release, resolution_key, persistent_key, should_cache, cached,
  persisted, effective_persistent,
}
use bindly.Resolve.Keys.{ResolutionKey, PersistentKey}
use bindly.Resolve.Active.{remove-cons, free, free-lt}

abbrev pub Known : List String → Option Location → Type 0
Known keys none = Unit
Known keys (some location) = contains keys (active_key location) ≡ true

-- All locations that a computation may ask for are among the keys.
abbrev pub AsksWithin : List String → Behaviour → Type 0
AsksWithin keys (answer l) = Unit
AsksWithin keys (ask location next) =
    Known keys location × ((l : Lookup) → AsksWithin keys (next l))

-- So are those of every source that the injector's providers hand out.
abbrev pub SourcesWithin : List String → Settings → Injector → Type 0
SourcesWithin keys s current =
    (kind : String) (p : Provider) (l : Locator) (policy : String) (now : ℕ)
    (target : Option GoType) (name : String) (b : Behaviour)
    → Registry.lookup current.locators kind ≡ some p
    → p.locate (source_state s) ≡ some l
    → request s.capture_sources true policy l now target name ≡ some b
    → AsksWithin keys b

-- The answer, if there is one, leaves these keys active; with `total` there is one.
abbrev Returns : Bool → List String → Answer → Type 0
Returns total active none = total ≡ false
Returns total active (some (o, st)) = st.active ≡ active

abbrev ReturnsLookup : Bool → List String → Option (Lookup × State) → Type 0
ReturnsLookup total active none = total ≡ false
ReturnsLookup total active (some (l, st)) = st.active ≡ active

active-store :
    (s : Settings) (caching : Bool) (key : ResolutionKey) (persistent_key : PersistentKey)
    (l : Lookup) (st : State)
    → (store s caching key persistent_key l st).1.active ≡ st.active
unfolding store
active-store s caching key persistent_key l st = ground arith

module _ (total : Bool) (active : List String) where
  then_lookup :
      (r : Answer) (k : Outcome → State → Option (Lookup × State))
      → Returns total active r
      → ((o : Outcome) (st : State) → st.active ≡ active → ReturnsLookup total active (k o st))
      → ReturnsLookup total active (elim r [ none ↦ none | some (o, st) ↦ k o st ])
  then_lookup none k h next = h
  then_lookup (some (o, st)) k h next = next o st h

  then_answer :
      (r : Option (Lookup × State)) (k : Lookup → State → Answer)
      → ReturnsLookup total active r
      → ((l : Lookup) (st : State) → st.active ≡ active → Returns total active (k l st))
      → Returns total active (elim r [ none ↦ none | some (l, st) ↦ k l st ])
  then_answer none k h next = h
  then_answer (some (l, st)) k h next = next l st h

  Returns-option :
      {B : Type 0} (o : Option B) (x : Answer) (f : B → Answer)
      → (o ≡ none → Returns total active x)
      → ((b : B) → o ≡ some b → Returns total active (f b))
      → Returns total active (elim o [ none ↦ x | some b ↦ f b ])
  Returns-option none x f hx hf = hx refl
  Returns-option (some b) x f hx hf = hf b refl

  Returns-if :
      (b : Bool) (x y : Answer)
      → (b ≡ true → Returns total active x)
      → (b ≡ false → Returns total active y)
      → Returns total active (if b then x else y)
  Returns-if true x y hx hy = hx refl
  Returns-if false x y hx hy = hy refl

module _ (total : Bool) (keys active : List String) (asked : Option Location → State → Answer)
    (asks_return : (location : Option Location) (st : State)
      → (total ≡ true → Known keys location)
      → st.active ≡ active
      → Returns total active (asked location st)) where
  run-Returns :
      (b : Behaviour) (st : State)
      → (total ≡ true → AsksWithin keys b)
      → st.active ≡ active
      → ReturnsLookup total active (run asked b st)
  unfolding run
  run-Returns (answer l) st within same = same
  run-Returns (ask location next) st within same =
      then_lookup total active (asked location st) (λ o st'. run asked (next (lookup_of o)) st')
        (asks_return location st (λ t. (within t).0) same)
        (λ o st' h. run-Returns (next (lookup_of o)) st' (λ t. (within t).1 (lookup_of o)) h)

  module _ (s : Settings) (location : Location) (target : Option GoType) (cacheable : Option Bool)
      (policy : String) where
    consult-Returns :
        (current : Injector) (provider : Provider) (parents : State → Answer) (st : State)
        → Registry.lookup current.locators location.kind ≡ some provider
        → (total ≡ true → SourcesWithin keys s current)
        → st.active ≡ active
        → ((st' : State) → st'.active ≡ active → Returns total active (parents st'))
        → Returns total active
            (consult s asked location target cacheable policy current provider parents st)
    unfolding consult
    consult-Returns current provider parents st given within same next =
        Returns-option total active (provider.locate (source_state s)) _ _ (λ _. same)
          λ l located.
            Returns-option total active
              (request s.capture_sources true policy l st.now target location.in_path) _ _
              (λ _. same)
              λ b requested.
                then_answer total active (run asked b (record st { now = st.now + 1 })) _
                  (run-Returns b (record st { now = st.now + 1 })
                    (λ t.
                      within t location.kind provider l policy st.now target location.in_path b
                        given located requested)
                    same)
                  λ r st' h.
                    Returns-if total active (settles l location.in_path r) _ _
                      (λ _. active-store s (should_cache provider cacheable policy) _ _ r st' ∙ h)
                      (λ _. next st' h)

    walk-Returns :
        (injectors : List Injector) (st : State)
        → (total ≡ true → All (SourcesWithin keys s) injectors)
        → st.active ≡ active
        → Returns total active (walk s asked location target cacheable policy injectors st)
    unfolding walk
    walk-Returns [] st within same = same
    walk-Returns (current ∷ parents) st within same =
        Returns-option total active (Registry.lookup current.locators location.kind) _ _
          (λ _. walk-Returns parents st (λ t. (within t).1) same)
          λ provider given.
            let caching = should_cache provider cacheable policy in
            Returns-option total active
              (cached caching st.cache
                (resolution_key s asked location target cacheable policy current))
              _ _
              (λ _.
                Returns-option total active
                  (persisted caching (effective_persistent s st)
                    (persistent_key s asked location target cacheable policy current))
                  _ _
                  (λ _.
                    consult-Returns current provider
                      (walk s asked location target cacheable policy parents) st given
                      (λ t. (within t).0) same
                      (λ st' h. walk-Returns parents st' (λ t. (within t).1) h))
                  (λ v _. same))
              (λ r _. same)

Returns-release :
    (total : Bool) (key : String) (active : List String) (r : Answer)
    → contains active key ≡ false
    → Returns total (key ∷ active) r
    → Returns total active (release key r)
Returns-release total key active none fresh h = h
Returns-release total key active (some (o, st)) fresh h = rw h (remove-cons active key fresh)

-- Enough fuel, when it matters: more than the keys that are not active yet.
resolve-Returns :
    (total : Bool) (keys : List String) (fuel : ℕ) (s : Settings) (location : Option Location)
    (target : Option GoType) (cacheable : Option Bool) (policy : String) (st : State)
    → (total ≡ true → All (SourcesWithin keys s) s.injectors)
    → (total ≡ true → Known keys location)
    → (total ≡ true → free keys st.active < fuel)
    → Returns total st.active (resolve fuel s location target cacheable policy st)
unfolding resolve
resolve-Returns false keys zero s location target cacheable policy st within known enough = refl
resolve-Returns true keys zero s location target cacheable policy st within known enough =
    absurd (omega (arith, enough refl))
resolve-Returns total keys (suc fuel) s none target cacheable policy st within known enough = refl
resolve-Returns total keys (suc fuel) s (some location) target cacheable policy st within known
      enough =
    let key = active_key location in
    Returns-if total st.active (contains st.active key) _ _ (λ _. refl)
      λ fresh. Returns-release total key st.active _ fresh (
        walk-Returns total keys (key ∷ st.active)
          (λ inner st'. resolve fuel s inner none none "" st')
          (λ inner st' asked same.
            subst (λ a. Returns total a (resolve fuel s inner none none "" st')) same
              (resolve-Returns total keys fuel s inner none none "" st' within asked
                (λ t. fewer st'.active same (known t) (enough t) fresh)))
          s location target cacheable policy s.injectors (record st { active = key ∷ st.active })
          within refl)
  where
    fewer :
        (later : List String)
        → later ≡ active_key location ∷ st.active
        → contains keys (active_key location) ≡ true
        → free keys st.active < suc fuel
        → contains st.active (active_key location) ≡ false
        → free keys later < fuel
    fewer later same k bound fresh =
        rw same (omega (arith, free-lt keys st.active (active_key location) k fresh))

-- Whatever a resolution returns, a value, an absence or an error, the keys that are active
-- afterwards are those that were active before.
pub resolve-active :
    (fuel : ℕ) (s : Settings) (location : Option Location) (target : Option GoType)
    (cacheable : Option Bool) (policy : String) (st st' : State) (o : Outcome)
    → resolve fuel s location target cacheable policy st ≡ some (o, st')
    → st'.active ≡ st.active
resolve-active fuel s location target cacheable policy st st' o e =
    subst (Returns false st.active) e (
      resolve-Returns false [] fuel s location target cacheable policy st (λ t. cc) (λ t. cc)
        (λ t. cc))

some_of_Returns :
    (active : List String) (r : Answer)
    → Returns true active r
    → (a : Outcome × State) × (r ≡ some a)
some_of_Returns active none h = cc
some_of_Returns active (some a) h = (a, refl)

-- When all locations that the sources of the injectors may ask for, and the one that is resolved,
-- have keys in a finite list, more fuel than the list has keys that are not active is enough: the
-- resolution ends with an outcome, however the sources ask for one another.
pub resolve_total :
    (keys : List String) (fuel : ℕ) (s : Settings) (location : Option Location)
    (target : Option GoType) (cacheable : Option Bool) (policy : String) (st : State)
    → All (SourcesWithin keys s) s.injectors
    → Known keys location
    → free keys st.active < fuel
    → (a : Outcome × State) × (resolve fuel s location target cacheable policy st ≡ some a)
resolve_total keys fuel s location target cacheable policy st within known enough =
    some_of_Returns st.active _ (
      resolve-Returns true keys fuel s location target cacheable policy st (λ _. within)
        (λ _. known) (λ _. enough))
