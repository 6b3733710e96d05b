-- ===== src/Security/Usable.antt =====
-- Which documents retrieval may put before a model (app/security.py).
use aurelian_autonomous_ente.Prelude.{
  String, ◌≡◌, ◌↔◌, ◌⊎◌, true, Option, none, some, eq_iff, arith,
}
use aurelian_autonomous_ente.Security.Context.{Labels, context_is_usable}

-- The document's service is the one that is asked for, or serves all.
abbrev pub FitsService : String → Option String → Type 0
FitsService service none = Unit
FitsService service (some s) =
    (s ≡ "") ⊎ ((service ≡ s) ⊎ ((service ≡ "general") ⊎ (service ≡ "all")))

abbrev pub IsUsable : Labels → String → Option String → Type 0
IsUsable doc environment service =
    ((doc.trust_level ≡ "trusted") ⊎ (doc.trust_level ≡ "verified"))
    × ((doc.environment ≡ environment) ⊎ (doc.environment ≡ "all"))
    × FitsService doc.service service

-- A document is usable exactly if it is trusted or verified, is of the environment that is asked for
-- or of all, and, where a service is asked for by a name that is not empty, is of that service or of
-- a general one.
pub context_is_usable_iff :
    (doc : Labels) (environment : String) (service : Option String)
    → (context_is_usable doc environment service ≡ true) ↔ IsUsable doc environment service
unfolding context_is_usable
context_is_usable_iff doc environment none = (
  ground (
    arith,
    eq_iff "trusted" doc.trust_level,
    eq_iff "verified" doc.trust_level,
    eq_iff environment doc.environment,
    eq_iff "all" doc.environment,
  ),
  ground (
    arith,
    eq_iff "trusted" doc.trust_level,
    eq_iff "verified" doc.trust_level,
    eq_iff environment doc.environment,
    eq_iff "all" doc.environment,
  ),
)
context_is_usable_iff doc environment (some s) = (
  ground (
    arith,
    eq_iff "trusted" doc.trust_level,
    eq_iff "verified" doc.trust_level,
    eq_iff environment doc.environment,
    eq_iff "all" doc.environment,
    eq_iff s "",
    eq_iff s doc.service,
    eq_iff "general" doc.service,
    eq_iff "all" doc.service,
  ),
  ground (
    arith,
    eq_iff "trusted" doc.trust_level,
    eq_iff "verified" doc.trust_level,
    eq_iff environment doc.environment,
    eq_iff "all" doc.environment,
    eq_iff s "",
    eq_iff s doc.service,
    eq_iff "general" doc.service,
    eq_iff "all" doc.service,
  ),
)
