-- ===== src/Planner/Tests.antt =====
-- Concrete requests, with the classes and functions of ASCII.
use aurelian_autonomous_ente.Prelude.{
  ◌+◌, ◌≡◌, refl, true, ◌&&◌, ◌||◌, map, some, arith, eq_iff, eqb, leb, codes, Text, if◌then◌else◌,
}
use aurelian_autonomous_ente.Json.{Value}
use aurelian_autonomous_ente.Result.{ok}
use aurelian_autonomous_ente.Security.Patterns.{fold_case, strip_literal}
use aurelian_autonomous_ente.Tools.Specs.{has_side_effect}
use aurelian_autonomous_ente.Planner.Extract.{
  Unicode, first_match, run_of, skip, exactly, user_here, order_here, amount_here, sku_here,
  customer_here,
}
use aurelian_autonomous_ente.Planner.Request.{mentions, plan_request, service_plan, engine_plan}
use aurelian_autonomous_ente.Planner.Args.{IsPlan}
use aurelian_autonomous_ente.Planner.Plans.{
  effect_words, plan_request-IsPlan, plan_effect-IsAskedFor, engine_plan-service,
}

abbrev ascii : Unicode
ascii = record {
  is_space = λ c. eqb c 32;
  is_word = λ c. leb 48 c && leb c 57 || (leb 65 c && leb c 90 || leb 97 c && leb c 122);
  is_digit = λ c. leb 48 c && leb c 57;
  lower = map (λ c. if leb 65 c && leb c 90 then c + 32 else c);
  upper = λ t. t;
  parse_float = λ t. 0;
  text = λ t. "";
}

abbrev refund : Text
refund = codes "Refund Ord 1002, $ 40.5!"

found :
    (first_match (order_here ascii) refund ≡ some (codes "1002"))
    × (first_match (amount_here ascii) refund ≡ some (codes "40.5"))
    × (first_match (sku_here ascii) (codes "set price of nova-101") ≡ some (codes "ova-101"))
    × (first_match (customer_here ascii) (codes "customer cust-002") ≡ some (codes "cust-002"))
    × (first_match (user_here ascii) (codes "user, Account a.b@c!") ≡ some (codes "a.b@c"))
unfolding first_match run_of skip exactly strip_literal fold_case
found = (refl, refl, refl, refl, refl)

plan_request-IsPlan_example : IsPlan (plan_request ascii refund)
plan_request-IsPlan_example = plan_request-IsPlan ascii refund

plan_effect-IsAskedFor_example : mentions effect_words (ascii.lower refund) ≡ true
unfolding plan_request has_side_effect mentions
plan_effect-IsAskedFor_example = plan_effect-IsAskedFor ascii refund refl

engine_plan-service_example :
    engine_plan ascii (λ (v : Value). "") "http://planner" (service_plan ascii) refund
    ≡ ok (plan_request ascii refund)
unfolding plan_request mentions first_match strip_literal fold_case run_of skip
engine_plan-service_example =
    engine_plan-service ascii refund (λ (v : Value). "") "http://planner"
      (λ e. ground (arith, eq_iff "http://planner" "")) (omega arith) (omega arith)
