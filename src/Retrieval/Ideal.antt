-- ===== src/Retrieval/Ideal.antt =====
-- The local cache against a map that forgets nothing, over any sequence of its calls.
use aurelian_autonomous_ente.Prelude.{
  ℕ, String, ◌≡◌, ◌⊎◌, inl, inr, refl, ap, List, [], ◌∷◌, ◌++◌, Option, none, some, ◌==◌, eq_iff,
  arith, lookup, if◌then◌else◌, Option-cases, Bool-cases,
}
use aurelian_autonomous_ente.Floats.{Floats}
use aurelian_autonomous_ente.Retrieval.Cache.{
  pop, move_to_end, Stamped, Cache, has_expired, local_cache_get, local_cache_set,
}
use aurelian_autonomous_ente.Retrieval.Kept.{
  IsDistinct, IsDistinct-touch, IsBounded, IsBounded-set, IsBounded-get, set-touch, lookup-evict,
  lookup-pop, lookup-append,
}

-- A call of the cache, with the time that the clock shows.
pub data CacheCall {ℓ} (V : Type ℓ) : Type ℓ where
  get : ℕ → String → CacheCall V
  set : ℕ → String → V → CacheCall V

-- The map that forgets nothing: the last value set for each key, with its time.
abbrev pub Latest {ℓ} : Type ℓ → Type ℓ
Latest V = String → Option (Stamped V)

module _ {ℓ} {V : Type ℓ} (fl : Floats) where
  -- The answers of the reads, and the cache at the end.
  unfoldable pub run_cache : ℕ → List (CacheCall V) → Cache V → List (Option V) × Cache V
  run_cache n [] c = ([], c)
  run_cache n (get now k ∷ calls) c =
      let (v, c') = local_cache_get fl now k c in
      let (vs, end) = run_cache n calls c' in (v ∷ vs, end)
  run_cache n (set now k v ∷ calls) c = run_cache n calls (local_cache_set n now k v c)

  -- After any sequence of calls, a cache that began with at most its bound of entries and no key
  -- twice has at most its bound of entries, and no key twice.
  pub run_cache-IsBounded :
      (n : ℕ) (calls : List (CacheCall V)) (c : Cache V)
      → IsBounded n c
      → IsBounded n (run_cache n calls c).1
  unfolding run_cache
  run_cache-IsBounded n [] c b = b
  run_cache-IsBounded n (get now k ∷ calls) c b =
      run_cache-IsBounded n calls (local_cache_get fl now k c).1 (IsBounded-get fl n now k c b)
  run_cache-IsBounded n (set now k v ∷ calls) c b =
      run_cache-IsBounded n calls (local_cache_set n now k v c) (IsBounded-set n n now k v c b)

  abbrev pub remember : String → Stamped V → Latest V → Latest V
  remember k e m j = if k == j then some e else m j

  abbrev pub fresh_value : ℕ → Option (Stamped V) → Option V
  fresh_value now none = none
  fresh_value now (some (stamp, v)) = if has_expired fl now stamp then none else some v

  abbrev pub run_latest : List (CacheCall V) → Latest V → List (Option V)
  run_latest [] m = []
  run_latest (get now k ∷ calls) m = fresh_value now (m k) ∷ run_latest calls m
  run_latest (set now k v ∷ calls) m = run_latest calls (remember k (now, v) m)

  -- Each answer is the map's, or a miss.
  abbrev pub AgreeOrMiss : List (Option V) → List (Option V) → Type ℓ
  AgreeOrMiss [] [] = Unit
  AgreeOrMiss (a ∷ answers) (b ∷ bs) = ((a ≡ none) ⊎ (a ≡ b)) × AgreeOrMiss answers bs
  AgreeOrMiss answers latest = answers ≡ latest

  abbrev Refines : Cache V → Latest V → Type ℓ
  Refines c m = (k : String) (e : Stamped V) → lookup k c ≡ some e → m k ≡ some e

  Refines-pop :
      (c : Cache V) (m : Latest V) (k : String) → IsDistinct c → Refines c m → Refines (pop k c) m
  Refines-pop c m k d r j e h = r j e (lookup-pop j k c e d h).0

  Refines-moved :
      (c : Cache V) (m : Latest V) (k : String)
      → IsDistinct c
      → Refines c m
      → Refines (move_to_end k c) m
  unfolding move_to_end
  Refines-moved c m k d r = elim (Option-cases (lookup k c)) [
    | inl h ↦ rw h r
    | inr (f, h) ↦ rw h (λ j e found. elim (lookup-append j k f (pop k c) e found) [
      | inl old ↦ r j e (lookup-pop j k c e d old).0
      | inr (same, it) ↦ r j e (rw (← same, ← it) h)
    ])
  ]

  Refines-set :
      (n now : ℕ) (c : Cache V) (m : Latest V) (k : String) (v : V)
      → IsDistinct c
      → Refines c m
      → Refines (local_cache_set n now k v c) (remember k (now, v) m)
  Refines-set n now c m k v d r = rw (set-touch n now k v c) (λ j e found.
      let there =
        lookup-evict j n (pop k c ++ (k, (now, v)) ∷ []) e (IsDistinct-touch k (now, v) c d)
          found in
      elim (lookup-append j k (now, v) (pop k c) e there) [
        | inl old ↦ let (before, other) = lookup-pop j k c e d old in rw other (r j e before)
        | inr (same, it) ↦ rw ((eq_iff k j).1 same) (ap some it)
      ])

  get-Refines :
      (now : ℕ) (c : Cache V) (m : Latest V) (k : String)
      → IsDistinct c
      → Refines c m
      → (((local_cache_get fl now k c).0 ≡ none)
          ⊎ ((local_cache_get fl now k c).0 ≡ fresh_value now (m k)))
        × Refines (local_cache_get fl now k c).1 m
  unfolding local_cache_get
  get-Refines now c m k d r = elim (Option-cases (lookup k c)) [
    | inl h ↦ rw h (inl refl, r)
    | inr ((t, v), h) ↦
        rw (h, r k (t, v) h)
          (elim (Bool-cases (has_expired fl now t)) [
            | inl old ↦ rw old (inl refl, Refines-pop c m k d r)
            | inr new ↦ rw new (inr refl, Refines-moved c m k d r)
          ])
  ]

  run_cache-Agrees :
      (n : ℕ) (calls : List (CacheCall V)) (c : Cache V) (m : Latest V)
      → IsBounded n c
      → Refines c m
      → AgreeOrMiss (run_cache n calls c).0 (run_latest calls m)
  unfolding run_cache
  run_cache-Agrees n [] c m b r = tt
  run_cache-Agrees n (get now k ∷ calls) c m b r =
      let (here, there) = get-Refines now c m k b.1 r in
      (
        here,
        run_cache-Agrees n calls (local_cache_get fl now k c).1 m (IsBounded-get fl n now k c b)
            there,
      )
  run_cache-Agrees n (set now k v ∷ calls) c m b r =
      run_cache-Agrees n calls (local_cache_set n now k v c) (remember k (now, v) m)
        (IsBounded-set n n now k v c b) (Refines-set n now c m k v b.1 r)

  -- From an empty cache, over any sequence of calls and at any times, each read of the cache misses
  -- or answers what a map that forgets nothing answers: the value last set for the key, unless that
  -- was set 60 seconds ago or earlier.
  pub run_cache_refines :
      (n : ℕ) (calls : List (CacheCall V))
      → AgreeOrMiss (run_cache n calls []).0 (run_latest calls (λ k. none))
  run_cache_refines n calls =
      run_cache-Agrees n calls [] (λ k. none) (omega arith, tt) (λ k e h. cc)
