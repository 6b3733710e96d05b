-- ===== src/Planner/Extract.antt =====
-- The regular expressions of app/planning.py: each search gives the group of the leftmost match.
use aurelian_autonomous_ente.Prelude.{
  ℕ, suc, zero, String, Bool, ◌&&◌, ◌||◌, [], ◌∷◌, ◌++◌, Option, none, some, eqb, leb, codes, Text,
  if◌then◌else◌,
}
use aurelian_autonomous_ente.Security.Patterns.{fold_case, strip_literal}

-- The classes `\s`, `\w` and `\d`, the functions of the language on texts, and the text of code points.
pub record Unicode : Type 0 where
  pub is_space : ℕ → Bool
  pub is_word : ℕ → Bool
  pub is_digit : ℕ → Bool
  pub lower : Text → Text
  pub upper : Text → Text
  -- `float(s)` of a number in digits, as the float's bits
  pub parse_float : Text → ℕ
  pub text : Text → String

-- The characters of a class that a text begins with, and the rest: a greedy `[...]*`.
module _ (p : ℕ → Bool) where
  unfoldable pub run_of : Text → Text
  run_of [] = []
  run_of (c ∷ t) = if p c then c ∷ run_of t else []

  unfoldable pub skip : Text → Text
  skip [] = []
  skip (c ∷ t) = if p c then skip t else c ∷ t

  -- `[...]+`, captured
  abbrev pub non_empty : Text → Option Text
  non_empty [] = none
  non_empty (c ∷ run) = some (c ∷ run)

  -- `[...]{n}` and what follows
  unfoldable pub exactly : ℕ → Text → Option (Text × Text)
  exactly zero t = some ([], t)
  exactly (suc n) [] = none
  exactly (suc n) (c ∷ t) = elim (exactly n t) [
    | none ↦ none
    | some (run, rest) ↦ if p c then some (c ∷ run, rest) else none
  ]

-- `re.search`: the first place at which the rest of the text matches.
unfoldable pub first_match : (Text → Option Text) → Text → Option Text
first_match m [] = m []
first_match m (c ∷ t) = elim (m (c ∷ t)) [ some found ↦ some found | none ↦ first_match m t ]

abbrev if_some : Option Text → (Text → Option Text) → Option Text
if_some none m = none
if_some (some t) m = m t

-- `[A-Z]` under `re.I`
abbrev pub is_letter : ℕ → Bool
is_letter c = leb 97 (fold_case c) && leb (fold_case c) 122

module _ (u : Unicode) where
  -- `[\w.@+-]`
  abbrev pub is_user_char : ℕ → Bool
  is_user_char c = u.is_word c || eqb c 46 || eqb c 64 || eqb c 43 || eqb c 45

  -- `\s+([\w.@+-]+)`: white space is no user character, so the greedy run need not give any back.
  abbrev pub spaced_user : Text → Option Text
  spaced_user t =
      if_some (non_empty u.is_space (run_of u.is_space t))
        (λ spaces. non_empty is_user_char (run_of is_user_char (skip u.is_space t)))

  abbrev or_match : Option Text → Option Text → Option Text
  or_match (some found) other = some found
  or_match none other = other

  -- `(?:user|account)\s+([\w.@+-]+)`
  abbrev pub user_here : Text → Option Text
  user_here t =
      or_match (if_some (strip_literal (codes "user") t) spaced_user)
        (if_some (strip_literal (codes "account") t) spaced_user)

  -- `[-\s]?(\d+)`: neither "-" nor white space is a digit.
  abbrev pub skip_one : Text → Text
  skip_one [] = []
  skip_one (c ∷ t) = if eqb c 45 || u.is_space c then t else c ∷ t

  -- `ord[-\s]?(\d+)`
  abbrev pub order_here : Text → Option Text
  order_here t =
      if_some (strip_literal (codes "ord") t)
        (λ rest. non_empty u.is_digit (run_of u.is_digit (skip_one rest)))

  -- `(\d+(?:\.\d+)?)`
  abbrev fraction : Text → Text
  fraction [] = []
  fraction (c ∷ t) =
      if eqb c 46 then elim (run_of u.is_digit t) [ [] ↦ [] | d ∷ ds ↦ 46 ∷ d ∷ ds ] else []

  abbrev pub number_here : Text → Option Text
  number_here t =
      if_some (non_empty u.is_digit (run_of u.is_digit t))
        (λ whole. some (whole ++ fraction (skip u.is_digit t)))

  -- `\$\s*(\d+(?:\.\d+)?)`
  abbrev pub amount_here : Text → Option Text
  amount_here [] = none
  amount_here (c ∷ t) = if eqb c 36 then number_here (skip u.is_space t) else none

  -- `-\d{3}`, the whole of it
  abbrev pub three_digits : Text → Option Text
  three_digits [] = none
  three_digits (c ∷ t) =
      if eqb c 45
      then elim (exactly u.is_digit 3 t) [ none ↦ none | some (ds, rest) ↦ some (45 ∷ ds) ]
      else none

  -- `([A-Z]{3}-\d{3})`
  abbrev pub sku_here : Text → Option Text
  sku_here t = elim (exactly is_letter 3 t) [
    | none ↦ none
    | some (letters, rest) ↦ if_some (three_digits rest) (λ number. some (letters ++ number))
  ]

  -- `CUST-\d{3}`: the letters that were matched, and the number
  abbrev pub customer_here : Text → Option Text
  customer_here t = elim (exactly is_letter 4 t) [
    | none ↦ none
    | some (letters, rest) ↦
        if_some (strip_literal (codes "cust") t)
          (λ rest'. if_some (three_digits rest') (λ number. some (letters ++ number)))
  ]
