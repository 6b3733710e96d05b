-- ===== src/Security/Patterns.antt =====
-- `INJECTION_PATTERNS` and their search (app/security.py). Each pattern is a row of groups of
-- alternatives; a literal is a group of one.
use aurelian_autonomous_ente.Prelude.{
  ℕ, ◌+◌, String, Bool, true, false, ◌&&◌, ◌||◌, List, [], ◌∷◌, Option, none, some, leb, eqb, codes,
  Text, if◌then◌else◌,
}

-- The source of a regular expression and what it matches.
pub record Pattern : Type 0 where
  pub source : String
  pub groups : List (List String)

-- The lower-case letter that `re.I` takes a code point for, as far as it is a letter of the
-- patterns: ASCII capitals, the dotted and dotless i, the long s and the Kelvin sign.
unfoldable pub fold_case : ℕ → ℕ
fold_case c =
    if leb 0x41 c && leb c 0x5A
    then c + 32
    else if eqb c 0x130 || eqb c 0x131
    then 0x69
    else if eqb c 0x17F
    then 0x73
    else if eqb c 0x212A
    then 0x6B
    else c

-- The text behind a literal that it begins with.
unfoldable pub strip_literal : List ℕ → Text → Option Text
strip_literal [] t = some t
strip_literal (k ∷ ks) [] = none
strip_literal (k ∷ ks) (c ∷ t) = if eqb (fold_case c) k then strip_literal ks t else none

-- Some alternative begins the text and the rest goes on.
unfoldable pub match_alternatives : List String → (Text → Bool) → Text → Bool
match_alternatives [] go t = false
match_alternatives (w ∷ ws) go t =
    elim (strip_literal (codes w) t) [ none ↦ false | some t' ↦ go t' ]
    || match_alternatives ws go t

-- The pattern matches at the start of the text.
unfoldable pub match_here : List (List String) → Text → Bool
match_here [] t = true
match_here (g ∷ gs) t = match_alternatives g (match_here gs) t

-- `re.search`
unfoldable pub match_anywhere : List (List String) → Text → Bool
match_anywhere gs [] = match_here gs []
match_anywhere gs (c ∷ t) = match_here gs (c ∷ t) || match_anywhere gs t

abbrev literal : String → List String
literal w = w ∷ []

abbrev pub injection_patterns : List Pattern
injection_patterns =
    record {
      source = "ignore (all|any|the) previous";
      groups = literal "ignore " ∷ ("all" ∷ "any" ∷ "the" ∷ []) ∷ literal " previous" ∷ [];
    }
    ∷ record { source = "system prompt"; groups = literal "system prompt" ∷ [] }
    ∷ record { source = "developer message"; groups = literal "developer message" ∷ [] }
    ∷ record {
      source = "bypass (policy|guardrail|approval)";
      groups = literal "bypass " ∷ ("policy" ∷ "guardrail" ∷ "approval" ∷ []) ∷ [];
    }
    ∷ record {
      source = "reveal (secret|credential|token|password)";
      groups = literal "reveal " ∷ ("secret" ∷ "credential" ∷ "token" ∷ "password" ∷ []) ∷ [];
    }
    ∷ record {
      source = "disable (security|audit|logging)";
      groups = literal "disable " ∷ ("security" ∷ "audit" ∷ "logging" ∷ []) ∷ [];
    }
    ∷ record { source = "act as root"; groups = literal "act as root" ∷ [] }
    ∷ record { source = "jailbreak"; groups = literal "jailbreak" ∷ [] }
    ∷ record {
      source = "do not follow (policy|rules)";
      groups = literal "do not follow " ∷ ("policy" ∷ "rules" ∷ []) ∷ [];
    }
    ∷ record { source = "exfiltrat"; groups = literal "exfiltrat" ∷ [] }
    ∷ record { source = "override authorization"; groups = literal "override authorization" ∷ [] }
    ∷ record {
      source = "disregard (prior|previous|system)";
      groups = literal "disregard " ∷ ("prior" ∷ "previous" ∷ "system" ∷ []) ∷ [];
    }
    ∷ record {
      source = "circumvent (policy|security|approval)";
      groups = literal "circumvent " ∷ ("policy" ∷ "security" ∷ "approval" ∷ []) ∷ [];
    }
    ∷ []
