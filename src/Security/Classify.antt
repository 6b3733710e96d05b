-- ===== src/Security/Classify.antt =====
-- `normalize_untrusted_text` and `classify_untrusted_input` (app/security.py).
use aurelian_autonomous_ente.Prelude.{
  ℕ, String, Bool, not, ◌&&◌, ◌||◌, List, [], ◌∷◌, map, leb, eqb, length, take, select, ◌==◌, Text,
  if◌then◌else◌,
}
use aurelian_autonomous_ente.Security.Patterns.{Pattern, match_anywhere, injection_patterns}

pub record InputRisk : Type 0 where
  pub allowed : Bool
  pub risk : String
  pub reasons : List String
  pub sanitized : Text
  pub guard_source : String

-- `[\u200B-\u200D\u2060\uFEFF]`
abbrev pub is_zero_width : ℕ → Bool
is_zero_width c = leb 0x200B c && leb c 0x200D || eqb c 0x2060 || eqb c 0xFEFF

module _ (nfkc : Text → Text) where
  unfoldable pub normalize_untrusted_text : Text → Text
  normalize_untrusted_text text = select (λ c. not (is_zero_width c)) (nfkc text)

  -- The patterns that the text matches.
  unfoldable pub matched_patterns : Text → List Pattern
  matched_patterns text = select (λ p. match_anywhere p.groups text) injection_patterns

  abbrev pub risk_of_matches : List Pattern → String
  risk_of_matches ps =
      if leb 2 (length ps) then "high" else elim ps [ [] ↦ "low" | p ∷ rest ↦ "medium" ]

  unfoldable pub classify_untrusted_input : Text → InputRisk
  classify_untrusted_input text =
      let normalized = normalize_untrusted_text text in
      let found = matched_patterns normalized in
      let risk = risk_of_matches found in
      record {
        allowed = risk == "low";
        risk = risk;
        reasons = map (λ (p : Pattern). p.source) found;
        sanitized = take 4000 normalized;
        guard_source = "deterministic";
      }
