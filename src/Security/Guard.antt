-- ===== src/Security/Guard.antt =====
-- `classify_untrusted_input_async` (app/security.py): the deterministic classification, raised by
-- a guard model if one is configured.
use aurelian_autonomous_ente.Prelude.{
  ℕ, String, true, false, List, [], ◌∷◌, ◌++◌, Option, none, some, ltb, lookup, get_or, take, ◌==◌,
  concat, Text, if◌then◌else◌,
}
use aurelian_autonomous_ente.Result.{Result, ok, raised, type_name}
use aurelian_autonomous_ente.Security.Classify.{
  InputRisk, normalize_untrusted_text, classify_untrusted_input,
}

pub record GuardSettings : Type 0 where
  pub guard_model_url : String
  -- Unicode's NFKC form
  pub nfkc : Text → Text
  -- The content of the model's reply to a text, or the exception of a call that failed.
  pub ask : Text → Result String
  -- `.strip().upper()`
  pub strip_upper : String → String

-- `rank`
abbrev pub rank : List (String × ℕ)
rank = ("low", 0) ∷ ("medium", 1) ∷ ("high", 2) ∷ []

abbrev pub rank_of : String → ℕ
rank_of risk = get_or (lookup risk rank) 0

-- `content.lower()` of a content in {"LOW","MEDIUM","HIGH"}, and none of any other.
abbrev pub model_risk_of : String → Option String
model_risk_of content =
    if content == "LOW"
    then some "low"
    else if content == "MEDIUM"
    then some "medium"
    else if content == "HIGH"
    then some "high"
    else none

module _ (guard : GuardSettings) where
  -- The level that a reply names, if it came and names one.
  abbrev pub reply_level : Result String → Option String
  reply_level (ok content) = model_risk_of (guard.strip_upper content)
  reply_level (raised e) = none

  abbrev pub guard_closed : InputRisk → Text → String → InputRisk
  guard_closed base normalized why = record {
    allowed = false;
    risk = "high";
    reasons = base.reasons ++ why ∷ [];
    sanitized = take 4000 normalized;
    guard_source = "guard-fail-closed";
  }

  abbrev pub guard_answer : InputRisk → Text → Option String → InputRisk
  guard_answer base normalized none = guard_closed base normalized "invalid_guard_response"
  guard_answer base normalized (some model_risk) = record {
    allowed = true;
    risk = if ltb (rank_of base.risk) (rank_of model_risk) then model_risk else base.risk;
    reasons = base.reasons;
    sanitized = take 4000 normalized;
    guard_source = "independent-guard-model";
  }

  abbrev pub guard_reply : InputRisk → Text → Result String → InputRisk
  guard_reply base normalized (ok content) =
      guard_answer base normalized (model_risk_of (guard.strip_upper content))
  guard_reply base normalized (raised e) =
      guard_closed base normalized (concat ("guard_unavailable:" ∷ type_name e ∷ []))

  unfoldable pub classify_untrusted_input_async : Text → InputRisk
  classify_untrusted_input_async text =
      let normalized = normalize_untrusted_text guard.nfkc text in
      let base = classify_untrusted_input guard.nfkc normalized in
      if guard.guard_model_url == ""
      then base
      else guard_reply base normalized (guard.ask (take 4000 normalized))
