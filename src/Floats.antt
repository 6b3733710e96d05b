-- ===== src/Floats.antt =====
-- Python's floats as their bits, and the operations of the language on them that the code uses.
use aurelian_autonomous_ente.Prelude.{
  ℕ, ◌+◌, ◌-◌, ◌*◌, ltb, leb, Bool, true, false, ◌≡◌, List, [], ◌∷◌, if◌then◌else◌,
}

pub record Floats : Type 0 where
  pub of_nat : ℕ → ℕ
  pub add : ℕ → ℕ → ℕ
  pub sub : ℕ → ℕ → ℕ
  pub mul : ℕ → ℕ → ℕ
  pub div : ℕ → ℕ → ℕ
  pub neg : ℕ → ℕ
  -- `a < b` and `a <= b`
  pub lt : ℕ → ℕ → Bool
  pub le : ℕ → ℕ → Bool
  -- `math.sqrt`, `math.log1p` and `round(x, digits)`
  pub sqrt : ℕ → ℕ
  pub log1p : ℕ → ℕ
  pub round : ℕ → ℕ → ℕ

module _ (fl : Floats) where
  -- `min(a, b)` and `max(a, b)`: the first, unless the second is beyond it
  abbrev pub min_float : ℕ → ℕ → ℕ
  min_float a b = if fl.lt b a then b else a

  abbrev pub max_float : ℕ → ℕ → ℕ
  max_float a b = if fl.lt a b then b else a

  -- `sum(xs)`
  abbrev pub sum_from : ℕ → List ℕ → ℕ
  sum_from acc [] = acc
  sum_from acc (x ∷ xs) = sum_from (fl.add acc x) xs

  -- Less is never both ways, not-a-number included.
  abbrev pub IsAsymmetric : Type 0
  IsAsymmetric = (a b : ℕ) → fl.lt a b ≡ true → fl.lt b a ≡ false

-- Whole numbers for floats, to run code on.
abbrev pub whole : Floats
whole = record {
  of_nat = λ n. n;
  add = λ a b. a + b;
  sub = λ a b. a - b;
  mul = λ a b. a * b;
  div = λ a b. a;
  neg = λ a. 0;
  lt = ltb;
  le = leb;
  sqrt = λ a. a;
  log1p = λ a. a;
  round = λ a n. a;
}
