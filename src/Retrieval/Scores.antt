-- ===== src/Retrieval/Scores.antt =====
-- `tokens`, `bm25ish`, `dense_hash` and `cosine` (app/rag.py).
use aurelian_autonomous_ente.Prelude.{
  ℕ, suc, zero, ◌+◌, ◌/◌, ◌%◌, Bool, true, false, ◌&&◌, ◌||◌, List, [], ◌∷◌, ◌++◌, map, Option,
  none, some, eqb, leb, ltb, length, select, Text, if◌then◌else◌,
}
use aurelian_autonomous_ente.Floats.{Floats, sum_from}

-- `[a-zA-Z0-9_\-]`
abbrev pub is_token_char : ℕ → Bool
is_token_char c =
    leb 97 c && leb c 122 || leb 65 c && leb c 90 || leb 48 c && leb c 57 || eqb c 95 || eqb c 45

abbrev pub emit : Text → List Text → List Text
emit [] found = found
emit (c ∷ run) found = (c ∷ run) ∷ found

-- `TOKEN_RE.findall`, from a text whose first characters, the run so far, have been read
unfoldable pub find_runs : Text → Text → List Text
find_runs run [] = emit run []
find_runs run (c ∷ t) =
    if is_token_char c then find_runs (run ++ c ∷ []) t else emit run (find_runs [] t)

-- `.lower()` of a character of a token
abbrev pub lower_ascii : ℕ → ℕ
lower_ascii c = if leb 65 c && leb c 90 then c + 32 else c

unfoldable pub tokens : Text → List Text
tokens s = map (map lower_ascii) (select (λ x. ltb 1 (length x)) (find_runs [] s))

unfoldable pub same_text : Text → Text → Bool
same_text [] [] = true
same_text (c ∷ s) (d ∷ t) = eqb c d && same_text s t
same_text _ _ = false

abbrev pub Counter : Type 0
Counter = List (Text × ℕ)

unfoldable pub count_one : Text → Counter → Counter
count_one t [] = (t, 1) ∷ []
count_one t ((u, n) ∷ c) = if same_text u t then (u, suc n) ∷ c else (u, n) ∷ count_one t c

unfoldable pub count_all : Counter → List Text → Counter
count_all c [] = c
count_all c (t ∷ ts) = count_all (count_one t c) ts

unfoldable pub count_of : Text → Counter → Option ℕ
count_of t [] = none
count_of t ((u, n) ∷ c) = if same_text u t then some n else count_of t c

-- the bits of 1.0
abbrev pub one : ℕ
one = 4607182418800017408

module _ (fl : Floats) where
  abbrev pub weight : ℕ → ℕ
  weight n = fl.add one (fl.log1p (fl.of_nat n))

  -- The summands: one for each token of the query, in order, that the document has.
  unfoldable pub shared_weights : Counter → Counter → List ℕ
  shared_weights [] d = []
  shared_weights ((t, n) ∷ q) d = elim (count_of t d) [
    | none ↦ shared_weights q d
    | some m ↦ fl.mul (weight m) (weight n) ∷ shared_weights q d
  ]

  unfoldable pub bm25ish : Text → Text → ℕ
  bm25ish query text =
      let q = count_all [] (tokens query) in
      let d = count_all [] (tokens text) in
      let n = if ltb (length (tokens text)) 1 then 1 else length (tokens text) in
      fl.div (sum_from fl 0 (shared_weights q d)) (fl.sqrt (fl.of_nat n))

  -- `v[i] += x`
  unfoldable pub add_at : ℕ → ℕ → List ℕ → List ℕ
  add_at i x [] = []
  add_at zero x (y ∷ v) = fl.add y x ∷ v
  add_at (suc i) x (y ∷ v) = y ∷ add_at i x v

  abbrev pub sign_of : ℕ → ℕ
  sign_of h = if eqb (h / 256 % 2) 1 then one else fl.neg one

  -- `digest` is `int(hashlib.sha256(t.encode()).hexdigest(), 16)`
  unfoldable pub add_tokens : (Text → ℕ) → ℕ → List Text → List ℕ → List ℕ
  add_tokens digest dim [] v = v
  add_tokens digest dim (t ∷ ts) v =
      let h = digest t in add_tokens digest dim ts (add_at (h % dim) (sign_of h) v)

  unfoldable pub zeros : ℕ → List ℕ
  zeros zero = []
  zeros (suc n) = 0 ∷ zeros n

  unfoldable pub dense_hash : (Text → ℕ) → ℕ → Text → List ℕ
  dense_hash digest dim text =
      let v = add_tokens digest dim (tokens text) (zeros dim) in
      let length_of_v = fl.sqrt (sum_from fl 0 (map (λ x. fl.mul x x) v)) in
      let norm = if eqb length_of_v 0 then one else length_of_v in map (λ x. fl.div x norm) v

  unfoldable pub products : List ℕ → List ℕ → List ℕ
  products (x ∷ a) (y ∷ b) = fl.mul x y ∷ products a b
  products _ _ = []

  unfoldable pub cosine : List ℕ → List ℕ → ℕ
  cosine a b = sum_from fl 0 (products a b)
