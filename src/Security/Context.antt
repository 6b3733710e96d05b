-- ===== src/Security/Context.antt =====
-- `context_is_usable` (app/security.py).
use aurelian_autonomous_ente.Prelude.{
  String, Bool, true, false, not, ◌||◌, [], ◌∷◌, Option, none, some, contains, ◌==◌, if◌then◌else◌,
}

-- The columns of a document that retrieval filters by.
pub record Labels : Type 0 where
  pub trust_level : String
  pub environment : String
  pub service : String

unfoldable pub context_is_usable : Labels → String → Option String → Bool
context_is_usable doc environment service =
    if not (contains doc.trust_level ("trusted" ∷ "verified" ∷ []))
    then false
    else if not (contains doc.environment (environment ∷ "all" ∷ []))
    then false
    else elim service [
      | none ↦ true
      | some s ↦ s == "" || contains doc.service (s ∷ "general" ∷ "all" ∷ [])
    ]
