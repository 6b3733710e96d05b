-- ===== src/Retrieval/Tests.antt =====
-- Concrete caches, documents and searches, with floats taken as whole numbers.
use aurelian_autonomous_ente.Prelude.{ℕ, ◌≡◌, refl, List, [], ◌∷◌, none, some, arith, codes}
use aurelian_autonomous_ente.Floats.{whole}
use aurelian_autonomous_ente.Retrieval.Cache.{
  assign, pop, move_to_end, evict, has_expired, local_cache_get, local_cache_set,
}
use aurelian_autonomous_ente.Retrieval.Kept.{IsBounded}
use aurelian_autonomous_ente.Retrieval.Ideal.{
  CacheCall, get, set, run_cache, run_cache-IsBounded, AgreeOrMiss, run_latest, run_cache_refines,
}
use aurelian_autonomous_ente.Retrieval.Retained.{run_cache_retains}
use aurelian_autonomous_ente.Retrieval.Scores.{find_runs, tokens}

-- Two entries fit: reading "a" makes "b" the oldest, which goes when "c" comes.
abbrev calls : List (CacheCall ℕ)
calls = set 0 "a" 1 ∷ set 1 "b" 2 ∷ get 2 "a" ∷ set 3 "c" 3 ∷ get 4 "b" ∷ get 5 "a" ∷ []

run_calls : (run_cache whole 2 calls []).0 ≡ some 1 ∷ none ∷ some 1 ∷ []
unfolding run_cache local_cache_get local_cache_set has_expired assign pop move_to_end evict
run_calls = refl

run_cache-IsBounded_example : IsBounded 2 (run_cache whole 2 calls []).1
run_cache-IsBounded_example = run_cache-IsBounded whole 2 calls [] (omega arith, tt)

run_cache_refines_example :
    AgreeOrMiss whole (run_cache whole 2 calls []).0 (run_latest whole calls (λ k. none))
run_cache_refines_example = run_cache_refines whole 2 calls

run_cache_retains_example :
    (local_cache_get whole {V = ℕ} 9 "k"
      (run_cache whole 3 (set 1 "b" 2 ∷ get 2 "a" ∷ []) (local_cache_set 3 0 "k" 7 [])).1).0
    ≡ some 7
unfolding has_expired
run_cache_retains_example =
    run_cache_retains whole "k" 3 0 9 7 (set 1 "b" 2 ∷ get 2 "a" ∷ []) [] tt (refl, (refl, tt))
      (omega arith) refl

tokens_of_text :
    tokens (codes "Core-api: is a UP") ≡ codes "core-api" ∷ codes "is" ∷ codes "up" ∷ []
unfolding tokens find_runs
tokens_of_text = refl
