-- ===== src/Prelude/Texts.antt =====
-- Texts: joins as an f-string makes them, code points, and the decimal print of a number.
use Prim.Native.Nat.{ℕ}
use Prim.Native.Char.{code}
use Prim.Native.String.{String, ◌++◌}
use mathlib.Core.List.{List, [], ◌∷◌}
use mathlib.Core.Logic.{inl, inr}
use mathlib.Core.Bool.{Bool, true, false, ◌&&◌, ◌||◌}
use text.Mathlib.Text.{◌==◌}
use text.Mathlib.TextEquality.{eq_iff}
use aurelian_autonomous_ente.Prelude.Tests.{eqb, Bool-cases}

-- `f"{a}{b}..."`
abbrev pub concat : List String → String
concat [] = ""
concat (s ∷ ss) = s ++ concat ss

-- The code points of a text.
abbrev pub codes : String → List ℕ
codes String.[] = []
codes (String.◌∷◌ c s) = code c ∷ codes s

-- A text that the code walks through, as its code points.
abbrev pub Text : Type 0
Text = List ℕ

-- `t.startswith(s)`, and `s in t`
abbrev pub starts_with : Text → Text → Bool
starts_with [] t = true
starts_with (c ∷ s) [] = false
starts_with (c ∷ s) (d ∷ t) = eqb d c && starts_with s t

abbrev pub occurs_in : Text → Text → Bool
occurs_in s [] = starts_with s []
occurs_in s (d ∷ t) = starts_with s (d ∷ t) || occurs_in s t

unfoldable pub String-discrete : Discrete String
String-discrete s t = elim (Bool-cases (s == t)) [
  | inl same ↦ Dec.yes ((eq_iff s t).0 same)
  | inr other ↦ Dec.no (λ e. cc ((eq_iff s t).1 e, other))
]
