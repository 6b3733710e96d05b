-- ===== src/Retrieval/Ranking.antt =====
-- The result of a search that is not answered from the cache: which documents it has, and their order.
use mathlib.Core.List.{Perm}
use mathlib.Core.List.Perm
use aurelian_autonomous_ente.Prelude.{
  ℕ, String, ◌≡◌, inl, inr, refl, ap, Bool, false, ◌&&◌, List, [], ◌∷◌, map, none, take, select,
  Bool-cases,
}
use aurelian_autonomous_ente.Floats.{Floats, IsAsymmetric}
use aurelian_autonomous_ente.Result.{ok}
use aurelian_autonomous_ente.World.Effects.{done}
use aurelian_autonomous_ente.Security.Context.{context_is_usable}
use aurelian_autonomous_ente.Retrieval.Backends.{DocumentRow, Match, Backends, Shelf, cache_get}
use aurelian_autonomous_ente.Retrieval.Search.{
  Query, insert_match, sort_matches, labels_of, figures_of, match_of, score_documents, threshold_of,
  ranked, qdrant_candidates, compute_result, search, cache_key, documents_of, backend_name, miss,
}

module _ (fl : Floats) where
  -- No match is below the one that follows it.
  abbrev pub IsDescending : List Match → Type 0
  IsDescending [] = Unit
  IsDescending (m ∷ []) = Unit
  IsDescending (m ∷ x ∷ xs) = (fl.lt m.score x.score ≡ false) × IsDescending (x ∷ xs)

  module _ (asym : IsAsymmetric fl) where
    insert-IsDescending :
        (m : Match) (xs : List Match) → IsDescending xs → IsDescending (insert_match fl m xs)
    unfolding insert_match
    insert-IsDescending m [] d = tt
    insert-IsDescending m (x ∷ []) d = elim (Bool-cases (fl.lt m.score x.score)) [
      | inl below ↦ rw below (asym m.score x.score below, tt)
      | inr above ↦ rw above (above, tt)
    ]
    insert-IsDescending m (x ∷ y ∷ xs) (xy, d) = elim (Bool-cases (fl.lt m.score x.score)) [
      | inl below ↦
          let rest = insert-IsDescending m (y ∷ xs) d in
          rw below (elim (Bool-cases (fl.lt m.score y.score)) [
            | inl under ↦ rw under (xy, rw under at rest)
            | inr over ↦ rw over (asym m.score x.score below, (over, d))
          ])
      | inr above ↦ rw above (above, (xy, d))
    ]

    pub sort-IsDescending : (ms : List Match) → IsDescending (sort_matches fl ms)
    unfolding sort_matches
    sort-IsDescending [] = tt
    sort-IsDescending (m ∷ ms) = insert-IsDescending m (sort_matches fl ms) (sort-IsDescending ms)

  insert-perm : (m : Match) (xs : List Match) → Perm (insert_match fl m xs) (m ∷ xs)
  unfolding insert_match
  insert-perm m [] = Perm.refl (m ∷ [])
  insert-perm m (x ∷ xs) = elim (Bool-cases (fl.lt m.score x.score)) [
    | inl below ↦ rw below (Perm.trans (Perm.cons x (insert-perm m xs)) (Perm.swap m x xs))
    | inr above ↦ rw above (Perm.refl (m ∷ x ∷ xs))
  ]

  pub sort-perm : (ms : List Match) → Perm (sort_matches fl ms) ms
  unfolding sort_matches
  sort-perm [] = Perm.refl []
  sort-perm (m ∷ ms) = Perm.trans (insert-perm m (sort_matches fl ms)) (Perm.cons m (sort-perm ms))

module _ (b : Backends) (q : Query) where
  -- A usable document whose combined figure reaches the threshold.
  abbrev pub qualifies : List (ℕ × ℕ) → DocumentRow → Bool
  qualifies qdrant d =
      context_is_usable (labels_of d) q.environment q.service
      && b.floats.le (threshold_of b q) (figures_of b q qdrant d).combined

  -- The matches of all the documents that qualify, in the order of the documents.
  abbrev pub expected : List (ℕ × ℕ) → List DocumentRow → List Match
  expected qdrant docs =
      map (λ d. match_of b (figures_of b q qdrant d) d) (select (qualifies qdrant) docs)

  score-expected :
      (qdrant : List (ℕ × ℕ)) (docs : List DocumentRow)
      → score_documents b q (threshold_of b q) qdrant docs ≡ expected qdrant docs
  unfolding score_documents
  score-expected qdrant [] = refl
  score-expected qdrant (d ∷ docs) =
      elim (Bool-cases (context_is_usable (labels_of d) q.environment q.service)) [
        | inr unusable ↦ rw unusable (score-expected qdrant docs)
        | inl usable ↦
            elim (Bool-cases (b.floats.le (threshold_of b q) (figures_of b q qdrant d).combined)) [
              | inr low ↦ rw (usable, low) (score-expected qdrant docs)
              | inl high ↦
                  rw (usable, high)
                    (ap (λ ms. match_of b (figures_of b q qdrant d) d ∷ ms)
                      (score-expected qdrant docs))
            ]
      ]

  -- A search that the cache does not answer and whose statement succeeds returns as many as are asked
  -- for of a list that holds a match for each of the tenant's documents that qualifies and no other,
  -- in which no match's score is below that of the next one.
  pub search_ranks :
      (tenant : String) (s : Shelf)
      → IsAsymmetric b.floats
      → (cache_get b s.tick (cache_key b tenant q) s.cache).0 ≡ none
      → b.fault s.tick ≡ done
      → (l : List Match) × ((search b tenant q s).0
          ≡ ok (
            record {
              matches = take q.limit l;
              vector_backend = backend_name (qdrant_candidates b s.tick tenant q);
              threshold = threshold_of b q;
            },
            miss,
          ))
        × IsDescending b.floats l
        × Perm l
            (expected (qdrant_candidates b s.tick tenant q) (documents_of b tenant s.documents))
  unfolding search compute_result ranked
  search_ranks tenant s asym missed fine =
      let qdrant = qdrant_candidates b s.tick tenant q in
      let scored =
        score_documents b q (threshold_of b q) qdrant (documents_of b tenant s.documents) in
      (
        sort_matches b.floats scored,
        rw (missed, fine) refl,
        sort-IsDescending b.floats asym scored,
        rw (← score-expected qdrant (documents_of b tenant s.documents))
            (sort-perm b.floats scored),
      )
