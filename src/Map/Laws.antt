-- ===== src/Map/Laws.antt =====
-- internal/map.go: lookups after each write, and the entries of a key.
use bindly.Prelude.{
  ◌+◌, ◌≡◌, refl, none, some, List, [], ◌∷◌, inl, inr, length, arith, is_some, if◌then◌else◌,
  Bool-cases,
}
use bindly.Prelude.Comparable.{Comparable, ◌==◌, ==_iff, ==_refl}
use bindly.Map.{
  Map, lookup, without, new, get, put, delete, exists, load_or_store, len, clone, copy_entries,
}

module _ {ℓ κ} {K : Type ℓ} {V : Type κ} ⦃c : Comparable K⦄ where
  lookup-without :
      (entries : List (K × V)) (dropped wanted : K)
      → lookup wanted (without dropped entries)
        ≡ (if dropped == wanted then none else lookup wanted entries)
  unfolding lookup without
  lookup-without [] dropped wanted = ground arith
  lookup-without (entry ∷ rest) dropped wanted = ground (
    arith,
    ==_iff dropped wanted,
    ==_iff entry.0 dropped,
    ==_iff entry.0 wanted,
    lookup-without rest dropped wanted,
  )

  pub get-new : (k : K) → get (new {V = V}) k ≡ none
  unfolding get new
  get-new k = refl

  pub get-put :
      (m : Map K V) (k j : K) (v : V) → get (put m k v) j ≡ (if k == j then some v else get m j)
  unfolding get put lookup
  get-put m k j v = ground (arith, lookup-without m.entries k j)

  pub get-delete : (m : Map K V) (k j : K) → get (delete m k) j ≡ (if k == j then none else get m j)
  unfolding get delete
  get-delete m k j = lookup-without m.entries k j

  -- No key has two entries.
  abbrev pub IsFunctional : List (K × V) → Type κ
  IsFunctional [] = Unit
  IsFunctional ((k, v) ∷ l) = (lookup k l ≡ none) × IsFunctional l

  without-IsFunctional : (k : K) (l : List (K × V)) → IsFunctional l → IsFunctional (without k l)
  unfolding without
  without-IsFunctional k [] h = tt
  without-IsFunctional k ((j, v) ∷ l) h =
      let ih = without-IsFunctional k l h.1 in
      elim (Bool-cases (j == k)) [
        | inl same ↦ rw same ih
        | inr other ↦ rw other (ground (arith, lookup-without l k j, h.0), ih)
      ]

  lookup-without_self : (k : K) (l : List (K × V)) → lookup k (without k l) ≡ none
  lookup-without_self k l = rw (lookup-without l k k, ==_refl k)

  without_absent : (k : K) (l : List (K × V)) → lookup k l ≡ none → without k l ≡ l
  unfolding lookup without
  without_absent k [] h = refl
  without_absent k ((j, v) ∷ l) h = ground (arith, without_absent k l)

  length-without :
      (k : K) (l : List (K × V))
      → IsFunctional l
      → length (without k l) + (if is_some (lookup k l) then 1 else 0) ≡ length l
  unfolding lookup without
  length-without k [] h = refl
  length-without k ((j, v) ∷ l) h =
      ground (arith, length-without k l h.1, without_absent k l, ==_iff j k, h.0)

  pub put-IsFunctional :
      (m : Map K V) (k : K) (v : V) → IsFunctional m.entries → IsFunctional (put m k v).entries
  unfolding put
  put-IsFunctional m k v h = (lookup-without_self k m.entries, without-IsFunctional k m.entries h)

  pub delete-IsFunctional :
      (m : Map K V) (k : K) → IsFunctional m.entries → IsFunctional (delete m k).entries
  unfolding delete
  delete-IsFunctional m k h = without-IsFunctional k m.entries h

  -- With one entry to a key, `Len` grows by one exactly when the written key was absent.
  pub len-put :
      (m : Map K V) (k : K) (v : V)
      → IsFunctional m.entries
      → len (put m k v) ≡ (if exists m k then len m else len m + 1)
  unfolding len put exists get
  len-put m k v h = ground (arith, length-without k m.entries h)

  -- The first writer of a key wins, every caller gets its value, and no other key changes.
  pub get-load_or_store :
      (m : Map K V) (k j : K) (v : V)
      → let ((actual, loaded), m') = load_or_store m k v in
        (get m' k ≡ some actual)
        × (loaded ≡ exists m k)
        × (get m' j ≡ (if exists m k then get m j else get (put m k v) j))
  unfolding load_or_store exists
  get-load_or_store m k j v = ground (arith, get-put m k k v, ==_refl k)

  get-copy_entries :
      (l : List (K × V)) (m : Map K V) (j : K)
      → IsFunctional l
      → get (copy_entries l m) j ≡ elim (lookup j l) [ some v ↦ some v | none ↦ get m j ]
  unfolding copy_entries lookup
  get-copy_entries [] m j h = refl
  get-copy_entries ((k, v) ∷ l) m j h =
      ground (arith, get-copy_entries l (put m k v) j h.1, get-put m k j v, ==_iff k j, h.0)

  -- A clone answers every lookup as the original does.
  pub get-clone : (m : Map K V) (j : K) → IsFunctional m.entries → get (clone m) j ≡ get m j
  unfolding clone get new lookup
  get-clone m j h = ground (arith, get-copy_entries m.entries new j h, get-new j)
