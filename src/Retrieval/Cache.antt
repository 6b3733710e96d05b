-- ===== src/Retrieval/Cache.antt =====
-- The local cache of app/rag.py: an ordered dict, the least recently used entry first. Its bound is
-- a natural number, and times are floats.
use aurelian_autonomous_ente.Prelude.{
  ℕ, String, Bool, List, [], ◌∷◌, ◌++◌, Option, none, some, ◌==◌, ltb, length, lookup, suc,
  if◌then◌else◌,
}
use aurelian_autonomous_ente.Floats.{Floats}

module _ {ℓ} {E : Type ℓ} where
  -- `d[k] = e`: in its place if the key is there, and at the end if it is new
  unfoldable pub assign : String → E → List (String × E) → List (String × E)
  assign k e [] = (k, e) ∷ []
  assign k e ((j, f) ∷ c) = if j == k then (j, e) ∷ c else (j, f) ∷ assign k e c

  -- `d.pop(k, None)`
  unfoldable pub pop : String → List (String × E) → List (String × E)
  pop k [] = []
  pop k ((j, f) ∷ c) = if j == k then c else (j, f) ∷ pop k c

  -- `d.move_to_end(k)`, of a key that is there
  abbrev pub moved : String → List (String × E) → Option E → List (String × E)
  moved k c none = c
  moved k c (some e) = pop k c ++ (k, e) ∷ []

  unfoldable pub move_to_end : String → List (String × E) → List (String × E)
  move_to_end k c = moved k c (lookup k c)

  -- `while len(d) > max_entries: d.popitem(last=False)`
  unfoldable pub evict : ℕ → List (String × E) → List (String × E)
  evict max_entries [] = []
  evict max_entries (x ∷ c) =
      if ltb max_entries (suc (length c)) then evict max_entries c else x ∷ c

-- A value with the time it was set at.
abbrev pub Stamped {ℓ} : Type ℓ → Type ℓ
Stamped V = ℕ × V

abbrev pub Cache {ℓ} : Type ℓ → Type ℓ
Cache V = List (String × Stamped V)

-- the bits of 60.0
abbrev pub sixty : ℕ
sixty = 4633641066610819072

module _ (fl : Floats) where
  unfoldable pub has_expired : ℕ → ℕ → Bool
  has_expired now stamp = fl.le sixty (fl.sub now stamp)

  module _ {ℓ} {V : Type ℓ} where
    abbrev pub local_found : ℕ → String → Cache V → Option (Stamped V) → Option V × Cache V
    local_found now key c none = (none, c)
    local_found now key c (some (stamp, v)) =
        if has_expired now stamp then (none, pop key c) else (some v, move_to_end key c)

    unfoldable pub local_cache_get : ℕ → String → Cache V → Option V × Cache V
    local_cache_get now key c = local_found now key c (lookup key c)

module _ {ℓ} {V : Type ℓ} where
  unfoldable pub local_cache_set : ℕ → ℕ → String → V → Cache V → Cache V
  local_cache_set max_entries now key value c =
      evict max_entries (move_to_end key (assign key (now, value) c))
