-- ===== src/Retrieval/Entries.antt =====
-- What holds of all the entries of the local cache, after each of its steps.
use aurelian_autonomous_ente.Prelude.{
  ℕ, suc, String, ◌≡◌, inl, inr, List, [], ◌∷◌, ◌++◌, some, ◌==◌, eq_iff, arith, All, ltb, length,
  lookup, Bool-cases, Option-cases, Option, some_injective,
}
use aurelian_autonomous_ente.Floats.{Floats}
use aurelian_autonomous_ente.Retrieval.Cache.{
  Cache, Stamped, pop, move_to_end, assign, evict, has_expired, local_cache_get, local_cache_set,
}

module _ {ℓ κ} {E : Type ℓ} (P : String × E → Type κ) where
  All-pop : (k : String) (c : List (String × E)) → All P c → All P (pop k c)
  unfolding pop
  All-pop k [] a = tt
  All-pop k ((j, e) ∷ c) (h, a) = elim (Bool-cases (j == k)) [
    | inl same ↦ rw same a
    | inr other ↦ rw other (h, All-pop k c a)
  ]

  All-snoc : (x : String × E) (c : List (String × E)) → P x → All P c → All P (c ++ x ∷ [])
  All-snoc x [] h a = (h, tt)
  All-snoc x (y ∷ c) h (hy, a) = (hy, All-snoc x c h a)

  pub All-lookup :
      (k : String) (c : List (String × E)) (e : E) → All P c → lookup k c ≡ some e → P (k, e)
  All-lookup k [] e a h = cc
  All-lookup k ((j, f) ∷ c) e (hj, a) h = elim (Bool-cases (j == k)) [
    | inl same ↦
        let key = (eq_iff j k).0 same in let it : f ≡ e = ground (arith) in rw (← key, ← it) hj
    | inr other ↦ All-lookup k c e a (rw other at h)
  ]

  All-moved : (k : String) (c : List (String × E)) → All P c → All P (move_to_end k c)
  unfolding move_to_end
  All-moved k c a = elim (Option-cases (lookup k c)) [
    | inl h ↦ rw h a
    | inr (e, h) ↦ rw h (All-snoc (k, e) (pop k c) (All-lookup k c e a h) (All-pop k c a))
  ]

  All-assign :
      (k : String) (e : E) (c : List (String × E)) → P (k, e) → All P c → All P (assign k e c)
  unfolding assign
  All-assign k e [] h a = (h, tt)
  All-assign k e ((j, f) ∷ c) h (hj, a) = elim (Bool-cases (j == k)) [
    | inl same ↦ rw same (rw ((eq_iff j k).0 same) h, a)
    | inr other ↦ rw other (hj, All-assign k e c h a)
  ]

  All-evict : (n : ℕ) (c : List (String × E)) → All P c → All P (evict n c)
  unfolding evict
  All-evict n [] a = tt
  All-evict n (x ∷ c) (h, a) = elim (Bool-cases (ltb n (suc (length c)))) [
    | inl full ↦ rw full (All-evict n c a)
    | inr fits ↦ rw fits (h, a)
  ]

module _ {ℓ κ} {V : Type ℓ} (P : String × Stamped V → Type κ) where
  pub All-set :
      (n now : ℕ) (k : String) (v : V) (c : Cache V)
      → P (k, (now, v))
      → All P c
      → All P (local_cache_set n now k v c)
  unfolding local_cache_set
  All-set n now k v c h a =
      All-evict P n _ (All-moved P k (assign k (now, v) c) (All-assign P k (now, v) c h a))

  -- A read keeps what holds of all entries, and its answer is the value of an entry for the key.
  abbrev pub IsAnswer : String → Option V → Type (ℓ ⊔ κ)
  IsAnswer k o = (v : V) → o ≡ some v → (t : ℕ) × P (k, (t, v))

  pub All-get :
      (fl : Floats) (now : ℕ) (k : String) (c : Cache V)
      → All P c
      → IsAnswer k (local_cache_get fl now k c).0 × All P (local_cache_get fl now k c).1
  unfolding local_cache_get
  All-get fl now k c a = elim (Option-cases (lookup k c)) [
    | inl h ↦ rw h ((λ v e. cc), a)
    | inr ((t, w), h) ↦ rw h (elim (Bool-cases (has_expired fl now t)) [
      | inl old ↦ rw old ((λ v e. cc), All-pop P k c a)
      | inr new ↦
          rw new
            ((λ v e. (t, rw (← some_injective e) (All-lookup P k c (t, w) a h))), All-moved P k c a)
    ])
  ]
