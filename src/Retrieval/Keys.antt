-- ===== src/Retrieval/Keys.antt =====
-- The key of a cached search names the tenant: no two tenants share one.
use text.Mathlib.TextEquality.{Char-path}
use aurelian_autonomous_ente.Prelude.{
  String, ◌≡◌, refl, false, [], ◌∷◌, ◌++◌, eqb, any, arith, codes, Text,
}
use aurelian_autonomous_ente.Retrieval.Backends.{Backends}
use aurelian_autonomous_ente.Retrieval.Search.{Query, key_rest, key_text}

-- The text has no "|".
abbrev pub IsBarFree : Text → Type 0
IsBarFree t = any (λ c. eqb c 124) t ≡ false

pub codes_injective : (s t : String) → codes s ≡ codes t → s ≡ t
codes_injective String.[] String.[] h = refl
codes_injective String.[] (String.◌∷◌ d t) h = cc
codes_injective (String.◌∷◌ c s) String.[] h = cc
codes_injective (String.◌∷◌ c s) (String.◌∷◌ d t) h =
    let same = Char-path c d (ground arith) in
    let rest = codes_injective s t (ground arith) in rw (same, rest) refl

before_bar : (a b r r' : Text) → IsBarFree a → IsBarFree b → a ++ 124 ∷ r ≡ b ++ 124 ∷ r' → a ≡ b
before_bar [] [] r r' fa fb h = refl
before_bar [] (d ∷ b) r r' fa fb h = absurd (ground arith)
before_bar (c ∷ a) [] r r' fa fb h = absurd (ground arith)
before_bar (c ∷ a) (d ∷ b) r r' fa fb h = ground (arith, before_bar a b r r')

pub key_text-names_tenant :
    (b : Backends) (s t : String) (q p : Query)
    → IsBarFree (codes s)
    → IsBarFree (codes t)
    → key_text b s q ≡ key_text b t p
    → s ≡ t
key_text-names_tenant b s t q p fs ft h =
    codes_injective s t (before_bar (codes s) (codes t) (key_rest b q) (key_rest b p) fs ft h)
