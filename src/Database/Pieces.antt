-- ===== src/Database/Pieces.antt =====
-- Each step of `_pg_placeholders` (app/database.py) uses the text that its piece was cut from.
use aurelian_autonomous_ente.Prelude.{
  starts_with, ℕ, suc, ◌≡◌, refl, sym, subst, ap, Bool, true, false, ◌&&◌, ◌||◌, [], ◌∷◌, ◌++◌,
  Option, none, some, eqb, eqb_iff, length, take, drop, Text, if◌then◌else◌, Bool-cases, inl, inr,
  arith, some_injective,
}
use aurelian_autonomous_ente.Database.Placeholders.{
  State, code, single, double, line, block, dollar, Piece, verbatim, placeholder, Step, is_next,
  tag_rest, keep, keep_two, open_dollar, question_mark, step_code, step_quoted, step,
}

-- The text that a piece was cut from.
abbrev pub cut : Piece → Text
cut (verbatim t) = t
cut (placeholder n) = 63 ∷ []

-- A step uses what it says it uses.
abbrev pub StepFits : ℕ → ℕ → Text → Step → Type 0
StepFits n c s m = cut m.piece ++ drop m.skip s ≡ c ∷ s

StepFits-if :
    (n c : ℕ) (s : Text) (b : Bool) (x y : Step)
    → (b ≡ true → StepFits n c s x)
    → (b ≡ false → StepFits n c s y)
    → StepFits n c s (if b then x else y)
StepFits-if n c s true x y h k = h refl
StepFits-if n c s false x y h k = k refl

take-drop_one : (s : Text) → take 1 s ++ drop 1 s ≡ s
take-drop_one [] = refl
take-drop_one (d ∷ s) = refl

starts_with-drop : (tag s : Text) → starts_with tag s ≡ true → tag ++ drop (length tag) s ≡ s
starts_with-drop [] s h = refl
starts_with-drop (t ∷ tag) [] h = cc
starts_with-drop (t ∷ tag) (c ∷ s) h = ground (arith, starts_with-drop tag s)

longer_tag :
    (c : ℕ) (s : Text) (rest : Option Text) (tag : Text)
    → ((t : Text) → rest ≡ some t → t ++ drop (length t) s ≡ s)
    → elim rest [ none ↦ none | some t ↦ some (c ∷ t) ] ≡ some tag
    → tag ++ drop (length tag) (c ∷ s) ≡ c ∷ s
longer_tag c s none tag k h = cc
longer_tag c s (some t) tag k h =
    subst (λ x. x ++ drop (length x) (c ∷ s) ≡ c ∷ s) (some_injective h)
      (ap (λ x. c ∷ x) (k t refl))

module _ (is_alnum : ℕ → Bool) where
  tag_rest-drop : (s tag : Text) → tag_rest is_alnum s ≡ some tag → tag ++ drop (length tag) s ≡ s
  tag_rest-drop [] tag h = cc
  tag_rest-drop (c ∷ s) tag h = elim (Bool-cases (is_alnum c || eqb c 95)) [
    | inl word ↦
        longer_tag c s (tag_rest is_alnum s) tag (λ t e. tag_rest-drop s t e) (rw word at h)
    | inr other ↦ elim (Bool-cases (eqb c 36)) [
      | inl close ↦
          subst (λ t. t ++ drop (length t) (c ∷ s) ≡ c ∷ s)
            (some_injective (rw (other, close) at h)) refl
      | inr no_tag ↦ cc (rw (other, no_tag) at h)
    ]
  ]

  keep-Fits : (st : State) (n c : ℕ) (s : Text) → StepFits n c s (keep is_alnum st n c)
  keep-Fits st n c s = refl

  keep_two-Fits : (st : State) (n c : ℕ) (s : Text) → StepFits n c s (keep_two is_alnum st n c s)
  keep_two-Fits st n c s = (ap (λ x. c ∷ x) (take-drop_one s))

  open_dollar-Fits :
      (n c : ℕ) (s : Text) (o : Option Text)
      → tag_rest is_alnum s ≡ o
      → StepFits n c s (open_dollar is_alnum n c o)
  open_dollar-Fits n c s none e = keep-Fits code n c s
  open_dollar-Fits n c s (some tag) e = (ap (λ x. c ∷ x) (tag_rest-drop s tag e))

  question_mark-Fits : (n c : ℕ) (s : Text) → c ≡ 63 → StepFits n c s (question_mark is_alnum n c s)
  question_mark-Fits n c s e =
      let found : Step = record {
        piece = placeholder (suc n);
        state = code;
        skip = 0;
        count = suc n;
      } in
      StepFits-if n c s (is_next 124 s || is_next 38 s) (keep is_alnum code n c) found
        (λ _. keep-Fits code n c s) (λ _. ap (λ x. x ∷ s) (sym e))

  quoted-Fits :
      (quote n c : ℕ) (st : State) (s : Text) → StepFits n c s (step_quoted is_alnum quote st n c s)
  quoted-Fits quote n c st s =
      StepFits-if n c s (eqb c quote) _ _
        (λ _.
          StepFits-if n c s (is_next quote s) _ _ (λ _. keep_two-Fits st n c s)
            (λ _. keep-Fits code n c s))
        (λ _. keep-Fits st n c s)

  code-Fits : (n c : ℕ) (s : Text) → StepFits n c s (step_code is_alnum n c s)
  code-Fits n c s =
      StepFits-if n c s (eqb c 39) _ _ (λ _. keep-Fits single n c s)
        (λ _.
          StepFits-if n c s (eqb c 34) _ _ (λ _. keep-Fits double n c s)
            (λ _.
              StepFits-if n c s (eqb c 45 && is_next 45 s) _ _ (λ _. keep_two-Fits line n c s)
                (λ _.
                  StepFits-if n c s (eqb c 47 && is_next 42 s) _ _ (λ _. keep_two-Fits block n c s)
                    (λ _.
                      StepFits-if n c s (eqb c 36) _ _
                        (λ _. open_dollar-Fits n c s (tag_rest is_alnum s) refl)
                        (λ _.
                          StepFits-if n c s (eqb c 63) _ _
                            (λ e. question_mark-Fits n c s ((eqb_iff c 63).0 e))
                            (λ _. keep-Fits code n c s))))))

  pub step-Fits : (st : State) (n c : ℕ) (s : Text) → StepFits n c s (step is_alnum st n c s)
  unfolding step
  step-Fits code n c s = code-Fits n c s
  step-Fits single n c s = quoted-Fits 39 n c single s
  step-Fits double n c s = quoted-Fits 34 n c double s
  step-Fits line n c s =
      StepFits-if n c s (eqb c 10) _ _ (λ _. keep-Fits code n c s) (λ _. keep-Fits line n c s)
  step-Fits block n c s =
      StepFits-if n c s (eqb c 42 && is_next 47 s) _ _ (λ _. keep_two-Fits code n c s)
        (λ _. keep-Fits block n c s)
  step-Fits (dollar tag) n c s = elim (Bool-cases (eqb c 36 && starts_with tag s)) [
    | inl close ↦ rw close (ap (λ x. c ∷ x) (starts_with-drop tag s (ground (arith, close))))
    | inr other ↦ rw other (keep-Fits (dollar tag) n c s)
  ]
