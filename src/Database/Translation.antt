-- ===== src/Database/Translation.antt =====
-- `_pg_placeholders` (app/database.py) beside the translation by whole tokens.
use aurelian_autonomous_ente.Prelude.{
  ℕ, zero, suc, ◌+◌, ◌≡◌, refl, sym, ap, ◌∙◌, Bool, true, false, ◌||◌, [], ◌∷◌, ◌++◌, eqb_iff,
  length, drop, Text, Bool-cases, inl, inr, arith, codes,
}
use aurelian_autonomous_ente.Engine.Keys.{decimal}
use aurelian_autonomous_ente.Database.Placeholders.{
  State, code, single, double, line, block, dollar, placeholder, is_next, step_code, step, pieces,
  join, pg_placeholders,
}
use aurelian_autonomous_ente.Database.Pieces.{cut, step-Fits}
use aurelian_autonomous_ente.Database.Copies.{
  remaining, Copies, quoted-Copies, line-Copies, block-Copies, dollar-Copies, code-Copies,
}
use aurelian_autonomous_ente.Database.Tokens.{is_mark, token_rest, translate}

module _ (is_alnum : ℕ → Bool) where
  -- A token is copied.
  translate-copy :
      (n k l : ℕ) (t u : Text)
      → l ≡ length t + k
      → translate is_alnum n l (t ++ u) ≡ t ++ translate is_alnum n k u
  unfolding translate
  translate-copy n k l [] u e =
      let same : l ≡ k = omega arith in ap (λ x. translate is_alnum n x u) same
  translate-copy n k zero (c ∷ t) u e = let never : ⊥ = omega arith in absurd never
  translate-copy n k (suc l) (c ∷ t) u e = ap (λ x. c ∷ x) (translate-copy n k l t u (omega arith))

  -- A step that copies does what the translation does with the code points that the step uses.
  copied-step :
      (st : State) (n l c : ℕ) (s : Text)
      → (let m = step is_alnum st n c s in
          Copies n l s m
          → join is_alnum (pieces is_alnum m.state m.skip m.count s)
            ≡ translate is_alnum m.count (remaining m.state (drop m.skip s)) (drop m.skip s)
          → join is_alnum (m.piece ∷ pieces is_alnum m.state m.skip m.count s)
            ≡ translate is_alnum n l (c ∷ s))
  copied-step st n l c s (t, e, counts, fits) later =
      let m = step is_alnum st n c s in
      let u = drop m.skip s in
      let r = remaining m.state u in
      ap (λ p. join is_alnum (p ∷ pieces is_alnum m.state m.skip m.count s)) e
      ∙ ap (λ x. t ++ x) (later ∙ ap (λ k. translate is_alnum k r u) counts)
      ∙ sym (translate-copy n r l t u fits)
      ∙ ap (λ x. translate is_alnum n l x)
          (ap (λ p. cut p ++ u) (sym e) ∙ step-Fits is_alnum st n c s)

  mark-step :
      (n c : ℕ) (s : Text)
      → is_mark c s ≡ true
      → step_code is_alnum n c s
        ≡ record { piece = placeholder (suc n); state = code; skip = 0; count = suc n }
  mark-step n c s h =
      let c63 : c ≡ 63 = (eqb_iff c 63).0 (ground (arith, h)) in
      let lone : (is_next 124 s || is_next 38 s) ≡ false = ground (arith, h) in rw (c63, lone) refl

  translate-mark :
      (n c : ℕ) (s : Text)
      → is_mark c s ≡ true
      → translate is_alnum n 0 (c ∷ s)
        ≡ 36 ∷ codes (decimal (suc n)) ++ translate is_alnum (suc n) 0 s
  unfolding translate
  translate-mark n c s h =
      ap
        (λ b. elim b as (λ _. Text) [
          | true ↦ 36 ∷ codes (decimal (suc n)) ++ translate is_alnum (suc n) 0 s
          | false ↦ c ∷ translate is_alnum n (token_rest is_alnum c s) s
        ])
        h

  translate-other :
      (n c : ℕ) (s : Text)
      → is_mark c s ≡ false
      → translate is_alnum n 0 (c ∷ s)
        ≡ translate is_alnum n (suc (token_rest is_alnum c s)) (c ∷ s)
  unfolding translate
  translate-other n c s h =
      ap
        (λ b. elim b as (λ _. Text) [
          | true ↦ 36 ∷ codes (decimal (suc n)) ++ translate is_alnum (suc n) 0 s
          | false ↦ c ∷ translate is_alnum n (token_rest is_alnum c s) s
        ])
        h

  pieces-translate :
      (st : State) (skip n : ℕ) (s : Text)
      → join is_alnum (pieces is_alnum st skip n s)
        ≡ translate is_alnum n (remaining st (drop skip s)) (drop skip s)
  unfolding pieces translate step
  pieces-translate st zero n [] = refl
  pieces-translate st (suc skip) n [] = refl
  pieces-translate st (suc skip) n (c ∷ s) = pieces-translate st skip n s
  pieces-translate code zero n (c ∷ s) = elim (Bool-cases (is_mark c s)) [
    | inl mark ↦
        ap (λ m. join is_alnum (m.piece ∷ pieces is_alnum m.state m.skip m.count s))
          (mark-step n c s mark)
        ∙ ap (λ x. 36 ∷ codes (decimal (suc n)) ++ x) (pieces-translate code 0 (suc n) s)
        ∙ sym (translate-mark n c s mark)
    | inr other ↦
        let m = step is_alnum code n c s in
        copied-step code n (suc (token_rest is_alnum c s)) c s (code-Copies is_alnum n c s other)
          (pieces-translate m.state m.skip m.count s)
        ∙ sym (translate-other n c s other)
  ]
  pieces-translate single zero n (c ∷ s) =
      let m = step is_alnum single n c s in
      copied-step single n _ c s (quoted-Copies is_alnum 39 n c single s (λ t. refl))
        (pieces-translate m.state m.skip m.count s)
  pieces-translate double zero n (c ∷ s) =
      let m = step is_alnum double n c s in
      copied-step double n _ c s (quoted-Copies is_alnum 34 n c double s (λ t. refl))
        (pieces-translate m.state m.skip m.count s)
  pieces-translate line zero n (c ∷ s) =
      let m = step is_alnum line n c s in
      copied-step line n _ c s (line-Copies is_alnum n c s)
        (pieces-translate m.state m.skip m.count s)
  pieces-translate block zero n (c ∷ s) =
      let m = step is_alnum block n c s in
      copied-step block n _ c s (block-Copies is_alnum n c s)
        (pieces-translate m.state m.skip m.count s)
  pieces-translate (dollar tag) zero n (c ∷ s) =
      let m = step is_alnum (dollar tag) n c s in
      copied-step (dollar tag) n _ c s (dollar-Copies is_alnum tag n c s)
        (pieces-translate m.state m.skip m.count s)

  -- The translation replaces each "?" that stands outside of quoted texts, comments and dollar-quoted
  -- blocks and that no "|" or "&" follows by "$" and its number, 1, 2, 3 and so on from left to right,
  -- and copies everything else; a text, comment or block that never ends is copied to the end.
  pub pg_placeholders-translate :
      (sql : Text) → pg_placeholders is_alnum sql ≡ translate is_alnum 0 0 sql
  unfolding pg_placeholders
  pg_placeholders-translate sql = pieces-translate code 0 0 sql
