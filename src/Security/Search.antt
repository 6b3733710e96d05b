-- ===== src/Security/Search.antt =====
-- The search for a pattern finds it exactly where the text spells it, in any letter case.
use aurelian_autonomous_ente.Prelude.{
  ℕ, String, ◌≡◌, ◌↔◌, inl, inr, refl, sym, ap, subst, Bool, true, List, [], ◌∷◌, ◌++◌, map, some,
  ◌==◌, eq_iff, eq_refl, eqb, arith, codes, contains, Text, Bool-cases, Option-cases,
}
use aurelian_autonomous_ente.Security.Patterns.{
  fold_case, strip_literal, match_alternatives, match_here, match_anywhere,
}

-- The text begins with one alternative of each group in turn, up to letter case.
abbrev pub Spells : List (List String) → Text → Type 0
Spells [] t = Unit
Spells (g ∷ gs) t =
    (w : String) × (u t' : Text) × (contains w g ≡ true)
    × (map fold_case u ≡ codes w)
    × (t ≡ u ++ t')
    × Spells gs t'

-- It does so from some place on.
abbrev pub SpellsWithin : List (List String) → Text → Type 0
SpellsWithin gs t = (before after : Text) × (t ≡ before ++ after) × Spells gs after

strip_literal_sound :
    (ks : List ℕ) (t t' : Text)
    → strip_literal ks t ≡ some t'
    → (u : Text) × (map fold_case u ≡ ks) × (t ≡ u ++ t')
unfolding strip_literal
strip_literal_sound [] t t' h = ([], refl, cc)
strip_literal_sound (k ∷ ks) [] t' h = cc
strip_literal_sound (k ∷ ks) (c ∷ t) t' h = elim (Bool-cases (eqb (fold_case c) k)) [
  | inl same ↦
      let (u, e, q) = strip_literal_sound ks t t' (rw same at h) in
      (c ∷ u, ground (arith, e), ap (λ x. c ∷ x) q)
  | inr other ↦ absurd (ground arith)
]

strip_literal_complete :
    (ks : List ℕ) (u t' : Text) → map fold_case u ≡ ks → strip_literal ks (u ++ t') ≡ some t'
unfolding strip_literal
strip_literal_complete [] [] t' h = refl
strip_literal_complete [] (c ∷ u) t' h = cc
strip_literal_complete (k ∷ ks) [] t' h = cc
strip_literal_complete (k ∷ ks) (c ∷ u) t' h = ground (arith, strip_literal_complete ks u t')

match_alternatives_sound :
    (ws : List String) (go : Text → Bool) (t : Text)
    → match_alternatives ws go t ≡ true
    → (w : String) × (t' : Text) × (contains w ws ≡ true)
      × (strip_literal (codes w) t ≡ some t')
      × (go t' ≡ true)
unfolding match_alternatives
match_alternatives_sound [] go t h = cc
match_alternatives_sound (w ∷ ws) go t h = elim (Option-cases (strip_literal (codes w) t)) [
  | inl e ↦
      let (v, t', m, s, g) = match_alternatives_sound ws go t (ground arith) in
      (v, t', ground arith, s, g)
  | inr (t', e) ↦ elim (Bool-cases (go t')) [
    | inl g ↦ (w, t', rw eq_refl, e, g)
    | inr g ↦
        let (v, t'', m, s, g') = match_alternatives_sound ws go t (ground arith) in
        (v, t'', ground arith, s, g')
  ]
]

match_alternatives_complete :
    (ws : List String) (go : Text → Bool) (t : Text) (w : String) (t' : Text)
    → contains w ws ≡ true
    → strip_literal (codes w) t ≡ some t'
    → go t' ≡ true
    → match_alternatives ws go t ≡ true
unfolding match_alternatives
match_alternatives_complete [] go t w t' m s g = cc
match_alternatives_complete (v ∷ ws) go t w t' m s g = elim (Bool-cases (v == w)) [
  | inl same ↦
      let e = sym ((eq_iff v w).0 same) in
      ground (arith, subst (λ x. strip_literal (codes x) t ≡ some t') e s)
  | inr other ↦ ground (arith, match_alternatives_complete ws go t w t')
]

pub match_here_iff : (gs : List (List String)) (t : Text) → (match_here gs t ≡ true) ↔ Spells gs t
unfolding match_here
match_here_iff [] t = (λ h. tt, λ h. refl)
match_here_iff (g ∷ gs) t = (
  λ h.
      let (w, t', m, s, go) = match_alternatives_sound g (match_here gs) t h in
      let (u, e, q) = strip_literal_sound (codes w) t t' s in
      (w, u, t', m, e, q, (match_here_iff gs t').0 go),
  λ (w, u, t', m, e, q, rest).
      match_alternatives_complete g (match_here gs) t w t' m
        (rw q (strip_literal_complete (codes w) u t' e)) ((match_here_iff gs t').1 rest),
)

match_anywhere_sound :
    (gs : List (List String)) (t : Text) → match_anywhere gs t ≡ true → SpellsWithin gs t
unfolding match_anywhere
match_anywhere_sound gs [] h = ([], [], refl, (match_here_iff gs []).0 h)
match_anywhere_sound gs (c ∷ t) h = elim (Bool-cases (match_here gs (c ∷ t))) [
  | inl here ↦ ([], c ∷ t, refl, (match_here_iff gs (c ∷ t)).0 here)
  | inr later ↦
      let (before, after, e, s) = match_anywhere_sound gs t (ground arith) in
      (c ∷ before, after, ap (λ x. c ∷ x) e, s)
]

match_anywhere_complete :
    (gs : List (List String)) (before after : Text)
    → match_here gs after ≡ true
    → match_anywhere gs (before ++ after) ≡ true
unfolding match_anywhere
match_anywhere_complete gs [] [] h = h
match_anywhere_complete gs [] (c ∷ t) h = rw h
match_anywhere_complete gs (c ∷ before) after h =
    ground (arith, match_anywhere_complete gs before after h)

-- `re.search` finds a pattern exactly if the text spells it somewhere, up to letter case.
pub match_anywhere_iff :
    (gs : List (List String)) (t : Text) → (match_anywhere gs t ≡ true) ↔ SpellsWithin gs t
match_anywhere_iff gs t = (
  match_anywhere_sound gs t,
  λ (before, after, e, s).
      rw e (match_anywhere_complete gs before after ((match_here_iff gs after).1 s)),
)
