-- ===== src/Retrieval/Kept.antt =====
-- What the local cache holds: its bound, its distinct keys, and what it keeps.
use aurelian_autonomous_ente.Prelude.{
  ℕ, suc, ◌+◌, ◌≤◌, String, ◌≡◌, inl, inr, refl, false, List, [], ◌∷◌, ◌++◌, Option, none, some,
  ◌==◌, eq_iff, eq_refl, arith, ltb, length, length-append, lookup, lookup-eq-none, ◌⊎◌, contains,
  keys_of, if◌then◌else◌, Option-cases, Bool-cases,
}
use aurelian_autonomous_ente.Floats.{Floats}
use aurelian_autonomous_ente.Retrieval.Cache.{
  assign, pop, move_to_end, evict, Cache, has_expired, local_cache_get, local_cache_set,
}

module _ {ℓ} {E : Type ℓ} where
  -- Where a key stands: the number of entries behind it, and its entry.
  abbrev pub place : String → List (String × E) → Option (ℕ × E)
  place k [] = none
  place k ((j, e) ∷ c) = if j == k then some (length c, e) else place k c

  -- No key occurs twice.
  abbrev pub IsDistinct : List (String × E) → Type 0
  IsDistinct [] = Unit
  IsDistinct ((j, e) ∷ c) = (contains j (keys_of c) ≡ false) × IsDistinct c

  pub length-evict-le : (n : ℕ) (c : List (String × E)) → length (evict n c) ≤ n
  unfolding evict
  length-evict-le n [] = omega arith
  length-evict-le n (x ∷ c) = ground (arith, length-evict-le n c)

  pub length-pop-le : (k : String) (c : List (String × E)) → length (pop k c) ≤ length c
  unfolding pop
  length-pop-le k [] = omega arith
  length-pop-le k ((j, e) ∷ c) = ground (arith, length-pop-le k c)

  length-pop :
      (k : String) (c : List (String × E)) (e : E)
      → lookup k c ≡ some e
      → length (pop k c) + 1 ≡ length c
  unfolding pop
  length-pop k [] e h = cc
  length-pop k ((j, f) ∷ c) e h = ground (arith, length-pop k c e)

  length-move : (k : String) (c : List (String × E)) → length (move_to_end k c) ≡ length c
  unfolding move_to_end
  length-move k c = elim (Option-cases (lookup k c)) [
    | inl h ↦ rw h refl
    | inr (e, h) ↦ rw h (omega (arith, length-append (pop k c) ((k, e) ∷ []), length-pop k c e h))
  ]

  lookup-assign : (k : String) (e : E) (c : List (String × E)) → lookup k (assign k e c) ≡ some e
  unfolding assign
  lookup-assign k e [] = rw eq_refl refl
  lookup-assign k e ((j, f) ∷ c) = ground (arith, lookup-assign k e c)

  pop-assign : (k : String) (e : E) (c : List (String × E)) → pop k (assign k e c) ≡ pop k c
  unfolding assign pop
  pop-assign k e [] = rw eq_refl refl
  pop-assign k e ((j, f) ∷ c) = ground (arith, pop-assign k e c)

  pub move_to_end-assign :
      (k : String) (e : E) (c : List (String × E))
      → move_to_end k (assign k e c) ≡ pop k c ++ (k, e) ∷ []
  unfolding move_to_end
  move_to_end-assign k e c = rw (lookup-assign k e c, pop-assign k e c) refl

  contains-pop :
      (j k : String) (c : List (String × E))
      → contains j (keys_of c) ≡ false
      → contains j (keys_of (pop k c)) ≡ false
  unfolding pop
  contains-pop j k [] h = refl
  contains-pop j k ((i, e) ∷ c) h = ground (arith, contains-pop j k c)

  pub IsDistinct-pop : (k : String) (c : List (String × E)) → IsDistinct c → IsDistinct (pop k c)
  unfolding pop
  IsDistinct-pop k [] h = tt
  IsDistinct-pop k ((j, e) ∷ c) h = elim (Bool-cases (j == k)) [
    | inl same ↦ rw same h.1
    | inr other ↦ rw other (contains-pop j k c h.0, IsDistinct-pop k c h.1)
  ]

  pub contains-pop_self :
      (k : String) (c : List (String × E)) → IsDistinct c → contains k (keys_of (pop k c)) ≡ false
  unfolding pop
  contains-pop_self k [] h = refl
  contains-pop_self k ((j, e) ∷ c) h = ground (arith, eq_iff j k, contains-pop_self k c h.1, h.0)

  contains-append :
      (j k : String) (e : E) (c : List (String × E))
      → (k == j) ≡ false
      → contains j (keys_of c) ≡ false
      → contains j (keys_of (c ++ (k, e) ∷ [])) ≡ false
  contains-append j k e [] n h = rw n refl
  contains-append j k e ((i, f) ∷ c) n h = ground (arith, contains-append j k e c n)

  IsDistinct-append :
      (k : String) (e : E) (c : List (String × E))
      → IsDistinct c
      → contains k (keys_of c) ≡ false
      → IsDistinct (c ++ (k, e) ∷ [])
  IsDistinct-append k e [] d h = (refl, tt)
  IsDistinct-append k e ((j, f) ∷ c) d h = (
    contains-append j k e c (ground (arith, eq_iff j k, eq_iff k j)) d.0,
    IsDistinct-append k e c d.1 (ground arith),
  )

  IsDistinct-evict : (n : ℕ) (c : List (String × E)) → IsDistinct c → IsDistinct (evict n c)
  unfolding evict
  IsDistinct-evict n [] d = tt
  IsDistinct-evict n (x ∷ c) d = elim (Bool-cases (ltb n (suc (length c)))) [
    | inl full ↦ rw full (IsDistinct-evict n c d.1)
    | inr fits ↦ rw fits d
  ]

  pub IsDistinct-touch :
      (k : String) (e : E) (c : List (String × E))
      → IsDistinct c
      → IsDistinct (pop k c ++ (k, e) ∷ [])
  IsDistinct-touch k e c d =
      IsDistinct-append k e (pop k c) (IsDistinct-pop k c d) (contains-pop_self k c d)

  -- What holds of a cache of at most `n` entries.
  abbrev pub IsBounded : ℕ → List (String × E) → Type 0
  IsBounded n c = (length c ≤ n) × IsDistinct c

  IsBounded-moved :
      (n : ℕ) (k : String) (c : List (String × E)) → IsBounded n c → IsBounded n (move_to_end k c)
  unfolding move_to_end
  IsBounded-moved n k c (b, d) = (
    omega (arith, length-move k c),
    elim (Option-cases (lookup k c)) [
      | inl h ↦ rw h d
      | inr (e, h) ↦ rw h (IsDistinct-touch k e c d)
    ],
  )

module _ {ℓ} {V : Type ℓ} where
  pub set-touch :
      (n now : ℕ) (k : String) (v : V) (c : Cache V)
      → local_cache_set n now k v c ≡ evict n (pop k c ++ (k, (now, v)) ∷ [])
  unfolding local_cache_set
  set-touch n now k v c = rw (move_to_end-assign k (now, v) c) refl

  pub IsBounded-set :
      (n m now : ℕ) (k : String) (v : V) (c : Cache V)
      → IsBounded m c
      → IsBounded n (local_cache_set n now k v c)
  IsBounded-set n m now k v c (b, d) = rw (set-touch n now k v c) (
    length-evict-le n (pop k c ++ (k, (now, v)) ∷ []),
    IsDistinct-evict n _ (IsDistinct-touch k (now, v) c d),
  )

  pub IsBounded-get :
      (fl : Floats) (n now : ℕ) (k : String) (c : Cache V)
      → IsBounded n c
      → IsBounded n (local_cache_get fl now k c).1
  unfolding local_cache_get
  IsBounded-get fl n now k c (b, d) = elim (Option-cases (lookup k c)) [
    | inl h ↦ rw h (b, d)
    | inr ((t, v), h) ↦ rw h (elim (Bool-cases (has_expired fl now t)) [
      | inl old ↦ rw old (omega (arith, length-pop-le k c), IsDistinct-pop k c d)
      | inr new ↦ rw new (IsBounded-moved n k c (b, d))
    ])
  ]

module _ {ℓ} {E : Type ℓ} where
  -- What is found after a key was taken out, put at the end, or the oldest entries dropped.
  pub lookup-evict :
      (j : String) (n : ℕ) (c : List (String × E)) (e : E)
      → IsDistinct c
      → lookup j (evict n c) ≡ some e
      → lookup j c ≡ some e
  unfolding evict
  lookup-evict j n [] e d h = h
  lookup-evict j n ((i, f) ∷ c) e d h = elim (Bool-cases (ltb n (suc (length c)))) [
    | inl full ↦
        let later = lookup-evict j n c e d.1 (rw full at h) in
        ground (arith, later, d.0, eq_iff i j, lookup-eq-none i c d.0)
    | inr fits ↦ rw fits at h
  ]

  pub lookup-pop :
      (j k : String) (c : List (String × E)) (e : E)
      → IsDistinct c
      → lookup j (pop k c) ≡ some e
      → (lookup j c ≡ some e) × ((k == j) ≡ false)
  unfolding pop
  lookup-pop j k [] e d h = cc
  lookup-pop j k ((i, f) ∷ c) e d h =
      ground
        (arith, lookup-pop j k c e d.1, lookup-eq-none i c d.0, eq_iff i j, eq_iff i k, eq_iff k j)

  pub lookup-append :
      (j k : String) (f : E) (c : List (String × E)) (e : E)
      → lookup j (c ++ (k, f) ∷ []) ≡ some e
      → (lookup j c ≡ some e) ⊎ ((k ≡ j) × (f ≡ e))
  lookup-append j k f [] e h = ground (arith, eq_iff k j)
  lookup-append j k f ((i, g) ∷ c) e h = ground (arith, lookup-append j k f c e)
