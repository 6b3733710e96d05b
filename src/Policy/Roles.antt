-- ===== src/Policy/Roles.antt =====
-- A higher role never loses what a lower one has.
use aurelian_autonomous_ente.Prelude.{
  ℕ, ◌≤◌, String, ◌≡◌, ◌⊎◌, refl, sym, subst, true, false, Option, none, some, arith, lookup, ltb,
  get_or,
}
use aurelian_autonomous_ente.Result.{ok, ok_injective, bind-eq-ok}
use aurelian_autonomous_ente.Auth.Roles.{Principal, role_level}
use aurelian_autonomous_ente.Policy.Decision.{
  PolicyDecision, PolicyDocument, Rule, rule_of, below_minimum, decide, decide_option,
  local_decision,
}

ltb_mono : (l l' m : ℕ) → l ≤ l' → ltb l m ≡ false → ltb l' m ≡ false
ltb_mono l l' m h e = ground arith

below_minimum_mono :
    (role role' minimum : String) (l l' : ℕ)
    → lookup role role_level ≡ some l
    → lookup role' role_level ≡ some l'
    → l ≤ l'
    → below_minimum role minimum ≡ false
    → below_minimum role' minimum ≡ false
unfolding below_minimum
below_minimum_mono role role' minimum l l' e e' le h =
    let low : ltb l (get_or (lookup minimum role_level) 99) ≡ false = rw (e, below_minimum) at h in
    rw (e', below_minimum) (ltb_mono l l' _ le low)

module _ (doc : PolicyDocument) (action environment input_risk : String) where
  decide_raised :
      (rule : Option Rule) (p : Principal) (role : String)
      → ((minimum : String)
          → below_minimum p.role minimum ≡ false
          → below_minimum role minimum ≡ false)
      → let d = decide_option doc rule action p environment input_risk in
        (d.allowed ≡ true) ⊎ (d.requires_approval ≡ true)
        → decide_option doc rule action (record p { role = role }) environment input_risk ≡ d
  unfolding decide
  decide_raised none p role mono h = refl
  decide_raised (some rule) p role mono h = ground (arith, mono rule.minimum)

  -- If a requester may run an action, or have it held for approval, then the same requester with a
  -- role at the same level or above gets the very same decision.
  pub local_decision_mono :
      (p : Principal) (role : String) (l l' : ℕ) (d : PolicyDecision)
      → lookup p.role role_level ≡ some l
      → lookup role role_level ≡ some l'
      → l ≤ l'
      → local_decision doc action p environment input_risk ≡ ok d
      → (d.allowed ≡ true) ⊎ (d.requires_approval ≡ true)
      → local_decision doc action (record p { role = role }) environment input_risk ≡ ok d
  unfolding local_decision
  local_decision_mono p role l l' d e e' le h open_to =
      let (rule, found, made) = bind-eq-ok (rule_of doc action) _ h in
      let was_open =
        subst (λ x. (x.allowed ≡ true) ⊎ (x.requires_approval ≡ true)) (sym (ok_injective made))
          open_to in
      rw found (
        rw (decide_raised rule p role (λ m. below_minimum_mono p.role role m l l' e e' le) was_open)
          made)
