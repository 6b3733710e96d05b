-- ===== src/Security/Levels.antt =====
-- The risk levels: how the classification follows from what the text spells, and how the guard
-- model can change it.
use aurelian_autonomous_ente.Prelude.{
  ◌≤◌, String, ◌≡◌, ◌≢◌, ◌↔◌, ◌⊎◌, inl, inr, refl, Bool, true, false, List, [], ◌∷◌, none, some,
  ◌==◌, eq_iff, arith, Text, All, select, Bool-cases, ltb, ltb→lt, not_ltb→le, take, Option-cases,
  some_injective, sym, ◌∙◌, if◌then◌else◌,
}
use aurelian_autonomous_ente.Result.{Result, ok, raised}
use aurelian_autonomous_ente.Security.Patterns.{Pattern, match_anywhere, injection_patterns}
use aurelian_autonomous_ente.Security.Classify.{
  InputRisk, normalize_untrusted_text, classify_untrusted_input, matched_patterns, risk_of_matches,
}
use aurelian_autonomous_ente.Security.Guard.{
  GuardSettings, rank_of, guard_reply, reply_level, classify_untrusted_input_async,
}
use aurelian_autonomous_ente.Security.Search.{SpellsWithin, match_anywhere_iff}

-- No item passes the test.
module _ {A : Type 0} (f : A → Bool) where
  select-nil : (xs : List A) → select f xs ≡ [] → All (λ x. f x ≡ false) xs
  select-nil [] h = tt
  select-nil (x ∷ xs) h = elim (Bool-cases (f x)) [
    | inl keep ↦ absurd (ground arith)
    | inr drop ↦ (drop, select-nil xs (rw drop at h))
  ]

  select_nil_of : (xs : List A) → All (λ x. f x ≡ false) xs → select f xs ≡ []
  select_nil_of [] h = refl
  select_nil_of (x ∷ xs) h = rw h.0 (select_nil_of xs h.1)

abbrev pub IsClean : Text → Type 0
IsClean t = All (λ (p : Pattern). ¬ SpellsWithin p.groups t) injection_patterns

All-map :
    {A : Type 0} {P Q : A → Type 0} (xs : List A) → ((x : A) → P x → Q x) → All P xs → All Q xs
All-map [] f h = tt
All-map (x ∷ xs) f h = (f x h.0, All-map xs f h.1)

not_true : {b : Bool} → ¬ (b ≡ true) → b ≡ false
not_true h = ground arith

module _ (nfkc : Text → Text) where
  low_iff_none : (ps : List Pattern) → (risk_of_matches nfkc ps ≡ "low") ↔ (ps ≡ [])
  low_iff_none [] = (λ h. refl, λ h. refl)
  low_iff_none (p ∷ []) = (ground (arith, eq_iff "medium" "low"), cc)
  low_iff_none (p ∷ q ∷ ps) = (λ h. absurd (ground (arith, eq_iff "high" "low")), cc)

  matched-nil_iff : (t : Text) → (matched_patterns nfkc t ≡ []) ↔ IsClean t
  unfolding matched_patterns
  matched-nil_iff t = (
    λ h.
        All-map {P = λ p. match_anywhere p.groups t ≡ false} {Q = λ p. ¬ SpellsWithin p.groups t}
          injection_patterns (λ p miss spells. cc (miss, (match_anywhere_iff p.groups t).1 spells))
          (select-nil (λ p. match_anywhere p.groups t) injection_patterns h),
    λ clean.
        select_nil_of (λ p. match_anywhere p.groups t) injection_patterns
          (All-map {P = λ p. ¬ SpellsWithin p.groups t} {Q = λ p. match_anywhere p.groups t ≡ false}
            injection_patterns
            (λ p no_spell. not_true (λ found. no_spell ((match_anywhere_iff p.groups t).0 found)))
            clean),
  )

  -- The deterministic classification calls a text's risk low exactly if its normalized form spells
  -- none of the injection patterns anywhere, in any letter case, and it allows a text exactly then.
  pub classify_low_iff :
      (t : Text)
      → (((classify_untrusted_input nfkc t).risk ≡ "low")
          ↔ IsClean (normalize_untrusted_text nfkc t))
        × (((classify_untrusted_input nfkc t).allowed ≡ true)
            ↔ IsClean (normalize_untrusted_text nfkc t))
  unfolding classify_untrusted_input
  classify_low_iff t =
      let n = normalize_untrusted_text nfkc t in
      let by_matches = low_iff_none (matched_patterns nfkc n) in
      let clean = matched-nil_iff n in
      let low = eq_iff (risk_of_matches nfkc (matched_patterns nfkc n)) "low" in
      (
        (λ h. clean.0 (by_matches.0 h), λ c. by_matches.1 (clean.1 c)),
        (λ h. clean.0 (by_matches.0 (low.0 h)), λ c. low.1 (by_matches.1 (clean.1 c))),
      )

  classify_risk-cases :
      (t : Text)
      → let r = (classify_untrusted_input nfkc t).risk in
        (r ≡ "low") ⊎ (r ≡ "medium") ⊎ (r ≡ "high")
  unfolding classify_untrusted_input
  classify_risk-cases t = ground arith

-- A text that names one of the three levels.
abbrev pub IsLevel : String → Type 0
IsLevel r = (r ≡ "low") ⊎ (r ≡ "medium") ⊎ (r ≡ "high")

module _ (guard : GuardSettings) where
  -- What the guard makes of a classification: a level no lower than before, and where the reply is
  -- missing or no level, high risk and no permission.
  abbrev pub IsRaised : InputRisk → Result String → InputRisk → Type 0
  IsRaised base reply result =
      IsLevel result.risk
      × (rank_of base.risk ≤ rank_of result.risk)
      × (reply_level guard reply ≡ none → (result.risk ≡ "high") × (result.allowed ≡ false))
      × ((level : String)
          → reply_level guard reply ≡ some level
          → rank_of level ≤ rank_of result.risk)

  reply-none :
      (base : InputRisk) (n : Text) (reply : Result String)
      → reply_level guard reply ≡ none
      → ((guard_reply guard base n reply).risk ≡ "high")
        × ((guard_reply guard base n reply).allowed ≡ false)
  reply-none base n (ok content) h = rw h (refl, refl)
  reply-none base n (raised e) h = (refl, refl)

  reply-some :
      (base : InputRisk) (n : Text) (reply : Result String) (level : String)
      → reply_level guard reply ≡ some level
      → (guard_reply guard base n reply).risk
        ≡ (if ltb (rank_of base.risk) (rank_of level) then level else base.risk)
  reply-some base n (ok content) level h = rw h
  reply-some base n (raised e) level h = cc

  reply_level-IsLevel :
      (reply : Result String) (level : String)
      → reply_level guard reply ≡ some level
      → IsLevel level
  reply_level-IsLevel (ok content) level h = ground arith
  reply_level-IsLevel (raised e) level h = cc

  IsLevel-rank : (r : String) → IsLevel r → rank_of r ≤ 2
  IsLevel-rank r h = ground arith

  IsLevel-max :
      (a b : String)
      → IsLevel a
      → IsLevel b
      → let m = if ltb (rank_of a) (rank_of b) then b else a in
        IsLevel m × (rank_of a ≤ rank_of m) × (rank_of b ≤ rank_of m)
  IsLevel-max a b ha hb = elim (Bool-cases (ltb (rank_of a) (rank_of b))) [
    | inl less ↦ rw less (hb, omega (arith, ltb→lt _ _ less), omega arith)
    | inr not_less ↦ rw not_less (ha, omega arith, omega (arith, not_ltb→le _ _ not_less))
  ]

  guard_reply-IsRaised :
      (base : InputRisk) (n : Text) (reply : Result String)
      → IsLevel base.risk
      → IsRaised base reply (guard_reply guard base n reply)
  guard_reply-IsRaised base n reply h = elim (Option-cases (reply_level guard reply)) [
    | inl gone ↦
        let (high, refused) = reply-none base n reply gone in
        (
          rw high (inr (inr refl)),
          rw high (IsLevel-rank base.risk h),
          (λ _. (high, refused)),
          (λ level e. cc (gone, e)),
        )
    | inr (level, e) ↦
        let (lv, up, over) = IsLevel-max base.risk level h (reply_level-IsLevel reply level e) in
        let risk = reply-some base n reply level e in
        (
          rw risk lv,
          rw risk up,
          (λ gone. cc (gone, e)),
          (λ other found. rw risk (rw (← some_injective (sym e ∙ found)) over)),
        )
  ]

  -- With a guard model configured, the risk of a text is a level, no lower than the deterministic
  -- classification of its normalized form and no lower than the level that the model replies; and
  -- where the call fails or its reply names no level, the risk is high and the text not allowed.
  pub classify_async-IsRaised :
      (t : Text)
      → guard.guard_model_url ≢ ""
      → let n = normalize_untrusted_text guard.nfkc t in
        IsRaised
          (classify_untrusted_input guard.nfkc n)
          (guard.ask (take 4000 n))
          (classify_untrusted_input_async guard t)
  unfolding classify_untrusted_input_async
  classify_async-IsRaised t url =
      let n = normalize_untrusted_text guard.nfkc t in
      let no_url : (guard.guard_model_url == "") ≡ false =
        ground (arith, eq_iff guard.guard_model_url "") in
      rw no_url (
        guard_reply-IsRaised (classify_untrusted_input guard.nfkc n) n (guard.ask (take 4000 n))
          (classify_risk-cases guard.nfkc n))
