-- ===== src/Database/Tokens.antt =====
-- What `_pg_placeholders` (app/database.py) is to do, told by whole tokens: how far a quoted text, a
-- comment or a dollar-quoted block goes, and that all but the lone "?" between them is copied.
use aurelian_autonomous_ente.Prelude.{
  starts_with, ℕ, zero, suc, ◌+◌, Bool, true, false, not, ◌&&◌, ◌||◌, [], ◌∷◌, ◌++◌, Option, none,
  some, eqb, length, drop, Text, codes, if◌then◌else◌,
}
use aurelian_autonomous_ente.Engine.Keys.{decimal}
use aurelian_autonomous_ente.Database.Placeholders.{is_next, tag_rest}

-- The rest of a quoted text, up to and with its closing quote; a doubled quote does not close it.
unfoldable pub quoted_length : ℕ → Text → ℕ
quoted_length quote [] = 0
quoted_length quote (c ∷ []) = 1
quoted_length quote (c ∷ d ∷ s) = elim (eqb c quote) [
  | false ↦ suc (quoted_length quote (d ∷ s))
  | true ↦ elim (eqb d quote) [ false ↦ 1 | true ↦ suc (suc (quoted_length quote s)) ]
]

-- The rest of a comment, up to and with the end of the line.
unfoldable pub line_length : Text → ℕ
line_length [] = 0
line_length (c ∷ s) = let rest = line_length s in if eqb c 10 then 1 else suc rest

-- The rest of a comment, up to and with its first "*/".
unfoldable pub block_length : Text → ℕ
block_length [] = 0
block_length (c ∷ s) = let rest = block_length s in if eqb c 42 && is_next 47 s then 2 else suc rest

-- The rest of a dollar-quoted block, up to and with the first copy of its tag, "$" and the rest.
unfoldable pub dollar_length : Text → Text → ℕ
dollar_length tag [] = 0
dollar_length tag (c ∷ s) =
    let rest = dollar_length tag s in
    if eqb c 36 && starts_with tag s then suc (length tag) else suc rest

-- A "?" that no "|" or "&" follows.
abbrev pub is_mark : ℕ → Text → Bool
is_mark c s = eqb c 63 && not (is_next 124 s || is_next 38 s)

module _ (is_alnum : ℕ → Bool) where
  abbrev pub block_after : Option Text → Text → ℕ
  block_after none s = 0
  block_after (some tag) s = length tag + dollar_length tag (drop (length tag) s)

  -- How many code points of the text after `c` belong to the token that `c` begins.
  abbrev pub token_rest : ℕ → Text → ℕ
  token_rest c s =
      if eqb c 39
      then quoted_length 39 s
      else if eqb c 34
      then quoted_length 34 s
      else if eqb c 45 && is_next 45 s
      then suc (line_length (drop 1 s))
      else if eqb c 47 && is_next 42 s
      then suc (block_length (drop 1 s))
      else if eqb c 36
      then block_after (tag_rest is_alnum s) s
      else 0

  -- The statement with each lone "?" outside of those tokens replaced by "$" and its number, from
  -- `n + 1` on, and everything else copied; the next `inside` code points are inside a token.
  unfoldable pub translate : ℕ → ℕ → Text → Text
  translate n inside [] = []
  translate n (suc inside) (c ∷ s) = c ∷ translate n inside s
  translate n zero (c ∷ s) = elim (is_mark c s) [
    | true ↦ 36 ∷ codes (decimal (suc n)) ++ translate (suc n) 0 s
    | false ↦ c ∷ translate n (token_rest c s) s
  ]
