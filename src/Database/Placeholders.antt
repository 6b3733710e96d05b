-- ===== src/Database/Placeholders.antt =====
-- `_pg_placeholders` (app/database.py) on the code points of a statement. Which of them are letters
-- or digits is Unicode's to say, and a parameter.
use aurelian_autonomous_ente.Prelude.{
  starts_with, ℕ, zero, suc, Bool, false, ◌&&◌, ◌||◌, List, [], ◌∷◌, ◌++◌, Option, none, some, eqb,
  length, take, Text, codes, if◌then◌else◌,
}
use aurelian_autonomous_ente.Engine.Keys.{decimal}

-- `state`; a dollar-quoted block has its tag after the first "$".
pub data State : Type 0 where
  code single double line block : State
  dollar : (tag : Text) → State

-- An item of `out`: text as it was, or the placeholder of a number.
pub data Piece : Type 0 where
  verbatim : Text → Piece
  placeholder : ℕ → Piece

-- A step: what it appends, the next state, how many more code points it has used, and the count.
pub record Step : Type 0 where
  pub piece : Piece
  pub state : State
  pub skip : ℕ
  pub count : ℕ

abbrev pub is_next : ℕ → Text → Bool
is_next d [] = false
is_next d (c ∷ s) = eqb c d

module _ (is_alnum : ℕ → Bool) where
  -- The rest of a dollar tag, with its closing "$", if the text goes on with one.
  abbrev pub tag_rest : Text → Option Text
  tag_rest [] = none
  tag_rest (c ∷ s) =
      let rest = tag_rest s in
      if is_alnum c || eqb c 95
      then elim rest [ none ↦ none | some tag ↦ some (c ∷ tag) ]
      else if eqb c 36
      then some (c ∷ [])
      else none

  abbrev pub keep : State → ℕ → ℕ → Step
  keep st n c = record { piece = verbatim (c ∷ []); state = st; skip = 0; count = n }

  -- `out.extend([ch,nxt]); i+=2`
  abbrev pub keep_two : State → ℕ → ℕ → Text → Step
  keep_two st n c s = record { piece = verbatim (c ∷ take 1 s); state = st; skip = 1; count = n }

  abbrev pub keep_tag : State → ℕ → ℕ → Text → Step
  keep_tag st n c tag = record {
    piece = verbatim (c ∷ tag);
    state = st;
    skip = length tag;
    count = n;
  }

  abbrev pub open_dollar : ℕ → ℕ → Option Text → Step
  open_dollar n c none = keep code n c
  open_dollar n c (some tag) = keep_tag (dollar tag) n c tag

  abbrev pub question_mark : ℕ → ℕ → Text → Step
  question_mark n c s =
      if is_next 124 s || is_next 38 s
      then keep code n c
      else record { piece = placeholder (suc n); state = code; skip = 0; count = suc n }

  abbrev pub step_code : ℕ → ℕ → Text → Step
  step_code n c s =
      if eqb c 39
      then keep single n c
      else if eqb c 34
      then keep double n c
      else if eqb c 45 && is_next 45 s
      then keep_two line n c s
      else if eqb c 47 && is_next 42 s
      then keep_two block n c s
      else if eqb c 36
      then open_dollar n c (tag_rest s)
      else if eqb c 63
      then question_mark n c s
      else keep code n c

  -- In quotes, where a doubled quote stands for one.
  abbrev pub step_quoted : ℕ → State → ℕ → ℕ → Text → Step
  step_quoted quote st n c s =
      if eqb c quote
      then (if is_next quote s then keep_two st n c s else keep code n c)
      else keep st n c

  unfoldable pub step : State → ℕ → ℕ → Text → Step
  step code n c s = step_code n c s
  step single n c s = step_quoted 39 single n c s
  step double n c s = step_quoted 34 double n c s
  step line n c s = if eqb c 10 then keep code n c else keep line n c
  step block n c s = if eqb c 42 && is_next 47 s then keep_two code n c s else keep block n c
  step (dollar tag) n c s =
      if eqb c 36 && starts_with tag s then keep_tag code n c tag else keep (dollar tag) n c

  -- The loop, past code points that the last step has used.
  unfoldable pub pieces : State → ℕ → ℕ → Text → List Piece
  unfolding step
  pieces st skip n [] = []
  pieces st (suc skip) n (c ∷ s) = pieces st skip n s
  pieces st zero n (c ∷ s) = let m = step st n c s in m.piece ∷ pieces m.state m.skip m.count s

  -- `"".join(out)`
  abbrev pub join : List Piece → Text
  join [] = []
  join (verbatim t ∷ ps) = t ++ join ps
  join (placeholder n ∷ ps) = 36 ∷ codes (decimal n) ++ join ps

  unfoldable pub pg_placeholders : Text → Text
  unfolding pieces
  pg_placeholders sql = join (pieces code 0 0 sql)
