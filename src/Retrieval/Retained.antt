-- ===== src/Retrieval/Retained.antt =====
-- How long the local cache keeps a value: the least recently used entries go first.
use aurelian_autonomous_ente.Prelude.{
  ℕ, suc, ◌+◌, ◌≤◌, ◌<◌, String, ◌≡◌, inl, inr, refl, false, List, [], ◌∷◌, ◌++◌, some, ◌==◌,
  eq_iff, eq_refl, arith, length, length-append, lookup, All, contains, keys_of, Option-cases,
  Bool-cases,
}
use aurelian_autonomous_ente.Floats.{Floats}
use aurelian_autonomous_ente.Retrieval.Cache.{
  pop, move_to_end, evict, Stamped, Cache, has_expired, local_cache_get, local_cache_set,
}
use aurelian_autonomous_ente.Retrieval.Kept.{
  place, IsDistinct, set-touch, contains-pop_self, length-pop-le,
}
use aurelian_autonomous_ente.Retrieval.Ideal.{CacheCall, get, set, run_cache}

module _ {ℓ} {E : Type ℓ} (k : String) where
  -- The key has its entry, with at most `m` entries behind it.
  abbrev Within : ℕ → E → List (String × E) → Type ℓ
  Within m e c = (p : ℕ) × (p ≤ m) × (place k c ≡ some (p, e))

  lookup-place :
      (c : List (String × E)) (p : ℕ) (e : E) → place k c ≡ some (p, e) → lookup k c ≡ some e
  lookup-place [] p e h = cc
  lookup-place ((j, f) ∷ c) p e h = ground (arith, lookup-place c p e)

  place-lt : (c : List (String × E)) (p : ℕ) (e : E) → place k c ≡ some (p, e) → p < length c
  place-lt [] p e h = cc
  place-lt ((j, f) ∷ c) p e h = ground (arith, place-lt c p e)

  place-pop :
      (j : String) (c : List (String × E)) (p : ℕ) (e : E)
      → (k == j) ≡ false
      → place k c ≡ some (p, e)
      → Within p e (pop j c)
  unfolding pop
  place-pop j [] p e n h = cc
  place-pop j ((i, f) ∷ c) p e n h = elim (Bool-cases (i == k)) [
    | inl same ↦ (
      length (pop j c),
      ground (arith, length-pop-le j c),
      ground (arith, eq_iff i k, eq_iff k j, eq_iff i j),
    )
    | inr other ↦
        let (q, le, there) = place-pop j c p e n (rw other at h) in
        elim (Bool-cases (i == j)) [
          | inl here ↦ (p, omega arith, rw here (rw other at h))
          | inr later ↦ (q, le, rw (later, other) there)
        ]
  ]

  place-append :
      (j : String) (f : E) (c : List (String × E)) (p : ℕ) (e : E)
      → place k c ≡ some (p, e)
      → place k (c ++ (j, f) ∷ []) ≡ some (suc p, e)
  place-append j f [] p e h = cc
  place-append j f ((i, g) ∷ c) p e h =
      ground (arith, place-append j f c p e, length-append c ((j, f) ∷ []))

  place-append_new :
      (e : E) (c : List (String × E))
      → contains k (keys_of c) ≡ false
      → place k (c ++ (k, e) ∷ []) ≡ some (0, e)
  place-append_new e [] h = rw eq_refl refl
  place-append_new e ((i, g) ∷ c) h = ground (arith, place-append_new e c)

  place-evict :
      (n : ℕ) (c : List (String × E)) (p : ℕ) (e : E)
      → p < n
      → place k c ≡ some (p, e)
      → place k (evict n c) ≡ some (p, e)
  unfolding evict
  place-evict n [] p e lt h = cc
  place-evict n ((i, f) ∷ c) p e lt h = ground (arith, place-evict n c p e)

  Within-moved :
      (j : String) (m : ℕ) (e : E) (c : List (String × E))
      → (k == j) ≡ false
      → Within m e c
      → Within (suc m) e (move_to_end j c)
  unfolding move_to_end
  Within-moved j m e c other (p, le, h) = elim (Option-cases (lookup j c)) [
    | inl absent ↦ rw absent (p, omega arith, h)
    | inr (f, found) ↦
        let (q, le', h') = place-pop j c p e other h in
        rw found (suc q, omega arith, place-append j f (pop j c) q e h')
  ]

module _ {ℓ} {V : Type ℓ} (fl : Floats) (k : String) where
  -- A call about another key.
  abbrev pub IsOther : CacheCall V → Type 0
  IsOther (get now j) = (k == j) ≡ false
  IsOther (set now j v) = (k == j) ≡ false

  Within-get :
      (now : ℕ) (j : String) (m : ℕ) (e : Stamped V) (c : Cache V)
      → (k == j) ≡ false
      → Within k m e c
      → Within k (suc m) e (local_cache_get fl now j c).1
  unfolding local_cache_get
  Within-get now j m e c other (p, le, h) = elim (Option-cases (lookup j c)) [
    | inl absent ↦ rw absent (p, omega arith, h)
    | inr ((t, v), found) ↦ rw found (elim (Bool-cases (has_expired fl now t)) [
      | inl old ↦ let (q, le', h') = place-pop k j c p e other h in rw old (q, omega arith, h')
      | inr new ↦ rw new (Within-moved k j m e c other (p, le, h))
    ])
  ]

  Within-set :
      (n now : ℕ) (j : String) (v : V) (m : ℕ) (e : Stamped V) (c : Cache V)
      → (k == j) ≡ false
      → suc m < n
      → Within k m e c
      → Within k (suc m) e (local_cache_set n now j v c)
  Within-set n now j v m e c other lt (p, le, h) =
      let (q, le', h') = place-pop k j c p e other h in
      rw (set-touch n now j v c) (
        suc q,
        omega arith,
        place-evict k n (pop j c ++ (j, (now, v)) ∷ []) (suc q) e (omega arith)
            (place-append k j (now, v) (pop j c) q e h'),
      )

  run_cache-Within :
      (n : ℕ) (calls : List (CacheCall V)) (m : ℕ) (e : Stamped V) (c : Cache V)
      → All IsOther calls
      → m + length calls < n
      → Within k m e c
      → Within k (m + length calls) e (run_cache fl n calls c).1
  unfolding run_cache
  run_cache-Within n [] m e c o lt (p, le, h) = (p, omega arith, h)
  run_cache-Within n (get now j ∷ calls) m e c (o, os) lt w =
      let (p, le, h) =
        run_cache-Within n calls (suc m) e (local_cache_get fl now j c).1 os (omega arith)
          (Within-get now j m e c o w) in
      (p, omega arith, h)
  run_cache-Within n (set now j v ∷ calls) m e c (o, os) lt w =
      let (p, le, h) =
        run_cache-Within n calls (suc m) e (local_cache_set n now j v c) os (omega arith)
          (Within-set n now j v m e c o (omega arith) w) in
      (p, omega arith, h)

  -- A value that was just set is still found after any sequence of calls about other keys that is
  -- shorter than the bound of the cache, as long as it has not expired.
  pub run_cache_retains :
      (n : ℕ) (now later : ℕ) (v : V) (calls : List (CacheCall V)) (c : Cache V)
      → IsDistinct c
      → All IsOther calls
      → length calls < n
      → has_expired fl later now ≡ false
      → (local_cache_get fl later k (run_cache fl n calls (local_cache_set n now k v c)).1).0
        ≡ some v
  unfolding local_cache_get
  run_cache_retains n now later v calls c d o lt fresh =
      let start : Within k 0 (now, v) (local_cache_set n now k v c) = rw (set-touch n now k v c) (
        0,
        omega arith,
        place-evict k n (pop k c ++ (k, (now, v)) ∷ []) 0 (now, v) (omega arith)
            (place-append_new k (now, v) (pop k c) (contains-pop_self k c d)),
      ) in
      let (p, le, h) = run_cache-Within n calls 0 (now, v) _ o (omega arith) start in
      rw (lookup-place k (run_cache fl n calls (local_cache_set n now k v c)).1 p (now, v) h, fresh)
        refl
