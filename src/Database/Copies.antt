-- ===== src/Database/Copies.antt =====
-- Each step of `_pg_placeholders` (app/database.py) that is no placeholder copies a part of one token.
use aurelian_autonomous_ente.Prelude.{
  starts_with, ℕ, suc, ◌+◌, ◌≡◌, refl, sym, ap, subst, ◌∙◌, Bool, true, false, ◌&&◌, ◌||◌, [], ◌∷◌,
  Option, none, some, eqb, length, drop, Text, if◌then◌else◌, Bool-cases, inl, inr, arith,
}
use aurelian_autonomous_ente.Database.Placeholders.{
  State, code, single, double, line, block, dollar, verbatim, Step, is_next, tag_rest, keep,
  keep_two, open_dollar, question_mark, step_code, step_quoted, step,
}
use aurelian_autonomous_ente.Database.Tokens.{
  quoted_length, line_length, block_length, dollar_length, is_mark, block_after, token_rest,
}

-- How much of the text is left of the token that a state is in.
abbrev pub remaining : State → Text → ℕ
remaining code s = 0
remaining single s = quoted_length 39 s
remaining double s = quoted_length 34 s
remaining line s = line_length s
remaining block s = block_length s
remaining (dollar tag) s = dollar_length tag s

-- A step copies text, and the token has `l` code points from where the step is on.
abbrev pub Copies : ℕ → ℕ → Text → Step → Type 0
Copies n l s m =
    (t : Text) × (m.piece ≡ verbatim t)
    × (m.count ≡ n)
    × (l ≡ length t + remaining m.state (drop m.skip s))

Copies-if :
    (n l k : ℕ) (s : Text) (b : Bool) (x y : Step)
    → (b ≡ true → Copies n l s x)
    → (b ≡ false → Copies n k s y)
    → Copies n (if b then l else k) s (if b then x else y)
Copies-if n l k s true x y h i = h refl
Copies-if n l k s false x y h i = i refl

-- The same for a token that has begun with the step's code point.
Copies-suc_if :
    (n l k : ℕ) (s : Text) (b : Bool) (x y : Step)
    → (b ≡ true → Copies n (suc l) s x)
    → (b ≡ false → Copies n (suc k) s y)
    → Copies n (suc (if b then l else k)) s (if b then x else y)
Copies-suc_if n l k s true x y h i = h refl
Copies-suc_if n l k s false x y h i = i refl

-- The clauses of `quoted_length`, by what its tests give.
quoted_length-other :
    (quote c d : ℕ) (s : Text)
    → eqb c quote ≡ false
    → quoted_length quote (c ∷ d ∷ s) ≡ suc (quoted_length quote (d ∷ s))
unfolding quoted_length
quoted_length-other quote c d s f =
    ap
      (λ b. elim b as (λ _. ℕ) [
        | false ↦ suc (quoted_length quote (d ∷ s))
        | true ↦ elim (eqb d quote) as (λ _. ℕ) [
          | false ↦ 1
          | true ↦ suc (suc (quoted_length quote s))
        ]
      ])
      f

quoted_length-found :
    (quote c d : ℕ) (s : Text) (doubled : Bool)
    → eqb c quote ≡ true
    → eqb d quote ≡ doubled
    → quoted_length quote (c ∷ d ∷ s) ≡ (if doubled then suc (suc (quoted_length quote s)) else 1)
unfolding quoted_length
quoted_length-found quote c d s doubled f g =
    ap
      (λ b. elim b as (λ _. ℕ) [
        | false ↦ suc (quoted_length quote (d ∷ s))
        | true ↦ elim (eqb d quote) as (λ _. ℕ) [
          | false ↦ 1
          | true ↦ suc (suc (quoted_length quote s))
        ]
      ])
      f
    ∙ ap (λ b. elim b as (λ _. ℕ) [ false ↦ 1 | true ↦ suc (suc (quoted_length quote s)) ]) g
    ∙ tested doubled
  where
    tested :
        (b : Bool)
        → elim b as (λ _. ℕ) [ false ↦ 1 | true ↦ suc (suc (quoted_length quote s)) ]
          ≡ (if b then suc (suc (quoted_length quote s)) else 1)
    tested true = refl
    tested false = refl

both : (a b : Bool) → (a && b) ≡ true → b ≡ true
both true b h = h
both false b h = cc h

module _ (is_alnum : ℕ → Bool) where
  keep-Copies :
      (st : State) (n c l : ℕ) (s : Text)
      → l ≡ suc (remaining st s)
      → Copies n l s (keep is_alnum st n c)
  keep-Copies st n c l s e = (c ∷ [], refl, refl, omega arith)

  keep_two-Copies :
      (st : State) (n c d l : ℕ) (s : Text)
      → l ≡ suc (suc (remaining st s))
      → Copies n l (d ∷ s) (keep_two is_alnum st n c (d ∷ s))
  keep_two-Copies st n c d l s e = (c ∷ d ∷ [], refl, refl, omega arith)

  pub quoted-Copies :
      (quote n c : ℕ) (st : State) (s : Text)
      → ((t : Text) → remaining st t ≡ quoted_length quote t)
      → Copies n (quoted_length quote (c ∷ s)) s (step_quoted is_alnum quote st n c s)
  unfolding quoted_length
  quoted-Copies quote n c st [] h = elim (Bool-cases (eqb c quote)) [
    | inl found ↦ rw found (keep-Copies code n c 1 [] refl)
    | inr other ↦ rw other (keep-Copies st n c 1 [] (ap suc (sym (h []))))
  ]
  quoted-Copies quote n c st (d ∷ s) h = elim (Bool-cases (eqb c quote)) [
    | inr other ↦
        subst (λ l. Copies n l (d ∷ s) (step_quoted is_alnum quote st n c (d ∷ s)))
          (sym (quoted_length-other quote c d s other))
          (rw other (keep-Copies st n c _ (d ∷ s) (ap suc (sym (h (d ∷ s))))))
    | inl found ↦ elim (Bool-cases (eqb d quote)) [
      | inl doubled ↦
          subst (λ l. Copies n l (d ∷ s) (step_quoted is_alnum quote st n c (d ∷ s)))
            (sym (quoted_length-found quote c d s true found doubled))
            (rw (found, doubled) (keep_two-Copies st n c d _ s (ap (λ k. suc (suc k)) (sym (h s)))))
      | inr closed ↦
          subst (λ l. Copies n l (d ∷ s) (step_quoted is_alnum quote st n c (d ∷ s)))
            (sym (quoted_length-found quote c d s false found closed))
            (rw (found, closed) (keep-Copies code n c 1 (d ∷ s) refl))
    ]
  ]

  pub line-Copies :
      (n c : ℕ) (s : Text) → Copies n (line_length (c ∷ s)) s (step is_alnum line n c s)
  unfolding line_length step
  line-Copies n c s =
      Copies-if n 1 (suc (line_length s)) s (eqb c 10) (keep is_alnum code n c)
        (keep is_alnum line n c) (λ _. keep-Copies code n c 1 s refl)
        (λ _. keep-Copies line n c _ s refl)

  pub block-Copies :
      (n c : ℕ) (s : Text) → Copies n (block_length (c ∷ s)) s (step is_alnum block n c s)
  unfolding block_length step
  block-Copies n c [] = elim (Bool-cases (eqb c 42)) [
    | inl star ↦ rw star (keep-Copies block n c 1 [] refl)
    | inr other ↦ rw other (keep-Copies block n c 1 [] refl)
  ]
  block-Copies n c (d ∷ s) =
      Copies-if n 2 (suc (block_length (d ∷ s))) (d ∷ s) (eqb c 42 && eqb d 47)
        (keep_two is_alnum code n c (d ∷ s)) (keep is_alnum block n c)
        (λ _. keep_two-Copies code n c d 2 s refl) (λ _. keep-Copies block n c _ (d ∷ s) refl)

  pub dollar-Copies :
      (tag : Text) (n c : ℕ) (s : Text)
      → Copies n (dollar_length tag (c ∷ s)) s (step is_alnum (dollar tag) n c s)
  unfolding dollar_length step
  dollar-Copies tag n c s =
      Copies-if n (suc (length tag)) (suc (dollar_length tag s)) s (eqb c 36 && starts_with tag s) _
        _ (λ _. (c ∷ tag, refl, refl, omega arith)) (λ _. keep-Copies (dollar tag) n c _ s refl)

  open_dollar-Copies :
      (n c : ℕ) (s : Text) (o : Option Text)
      → Copies n (suc (block_after is_alnum o s)) s (open_dollar is_alnum n c o)
  open_dollar-Copies n c s none = keep-Copies code n c 1 s refl
  open_dollar-Copies n c s (some tag) = (c ∷ tag, refl, refl, omega arith)

  opened-Copies :
      (st : State) (d l n c : ℕ) (s : Text)
      → is_next d s ≡ true
      → l ≡ remaining st (drop 1 s)
      → Copies n (suc (suc l)) s (keep_two is_alnum st n c s)
  opened-Copies st d l n c [] h e = cc h
  opened-Copies st d l n c (x ∷ s) h e = keep_two-Copies st n c x _ s (ap (λ k. suc (suc k)) e)

  plain-Copies :
      (n c : ℕ) (s : Text)
      → is_mark c s ≡ false
      → Copies n 1 s (if eqb c 63 then question_mark is_alnum n c s else keep is_alnum code n c)
  plain-Copies n c s h = elim (Bool-cases (eqb c 63)) [
    | inr other ↦ rw other (keep-Copies code n c 1 s refl)
    | inl question ↦ elim (Bool-cases (is_next 124 s || is_next 38 s)) [
      | inl operator ↦ rw (question, operator) (keep-Copies code n c 1 s refl)
      | inr lone ↦ cc (rw (question, lone) at h)
    ]
  ]

  pub code-Copies :
      (n c : ℕ) (s : Text)
      → is_mark c s ≡ false
      → Copies n (suc (token_rest is_alnum c s)) s (step_code is_alnum n c s)
  code-Copies n c s no_mark =
      Copies-suc_if n (quoted_length 39 s) _ s (eqb c 39) _ _ (λ _. keep-Copies single n c _ s refl)
        (λ _.
          Copies-suc_if n (quoted_length 34 s) _ s (eqb c 34) _ _
            (λ _. keep-Copies double n c _ s refl)
            (λ _.
              Copies-suc_if n (suc (line_length (drop 1 s))) _ s (eqb c 45 && is_next 45 s) _ _
                (λ e. opened-Copies line 45 _ n c s (both (eqb c 45) _ e) refl)
                (λ _.
                  Copies-suc_if n (suc (block_length (drop 1 s))) _ s (eqb c 47 && is_next 42 s) _ _
                    (λ e. opened-Copies block 42 _ n c s (both (eqb c 47) _ e) refl)
                    (λ _.
                      Copies-suc_if n (block_after is_alnum (tag_rest is_alnum s) s) 0 s (eqb c 36)
                        _ _ (λ _. open_dollar-Copies n c s (tag_rest is_alnum s))
                        (λ _. plain-Copies n c s no_mark)))))
