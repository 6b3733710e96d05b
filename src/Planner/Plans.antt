-- ===== src/Planner/Plans.antt =====
-- What a plan of app/planning.py is, and that the planner service changes nothing.
use aurelian_autonomous_ente.Prelude.{
  ◌≤◌, String, ◌≡◌, ◌≢◌, ◌⊎◌, inl, inr, refl, Bool, true, false, List, [], ◌∷◌, ◌++◌, ◌==◌, eq_iff,
  arith, length, leb, occurs_in, codes, Text, Bool-cases, if◌then◌else◌,
}
use aurelian_autonomous_ente.Json.{Value, Fields, bool, str, dict, end, field}
use aurelian_autonomous_ente.Result.{ok, raised, http_exception}
use aurelian_autonomous_ente.Engine.Environment.{Plan}
use aurelian_autonomous_ente.Tools.Specs.{is_tool, has_side_effect}
use aurelian_autonomous_ente.Planner.Extract.{Unicode}
use aurelian_autonomous_ente.Planner.Request.{
  mentions, disable_words, refund_words, price_words, reorder_words, inventory_words, backlog_words,
  customer_words, restart_words, health_words, notice_words, planned, plan_disable, plan_refund,
  plan_price, plan_inventory, plan_customer, plan_service, plan_notice, plan_search, plan_request,
  service_plan, read_plan, engine_plan, are_finite,
}
use aurelian_autonomous_ente.Planner.Args.{
  IsPlan, disable-IsPlan, refund-IsPlan, price-IsPlan, inventory-IsPlan, customer-IsPlan,
}

module _ (P : Plan → Type 0) where
  either : (t : Bool) (p q : Plan) → P p → P q → P (if t then p else q)
  either true p q a b = a
  either false p q a b = b

  given : (t : Bool) (p q : Plan) → (t ≡ true → P p) → P q → P (if t then p else q)
  given true p q a b = a refl
  given false p q a b = b

-- The engine reads back the plan that a reply holds.
reread :
    (repr : Value → String) (tool : String) (args : Fields) (fallback : Bool)
    → read_plan repr
        (field "tool" (str tool) (field "args" (dict args) (field "fallback" (bool fallback) end)))
      ≡ ok (record { tool = tool; args = args; fallback = fallback })
unfolding read_plan
reread repr tool end fallback = refl
reread repr tool (field k v d) fallback = refl

-- The words that ask for an effect.
abbrev pub effect_words : List String
effect_words = disable_words ++ refund_words ++ price_words ++ restart_words ++ notice_words

mentions-more :
    (ks ls : List String) (r : Text)
    → (mentions ks r ≡ true) ⊎ (mentions ls r ≡ true)
    → mentions (ks ++ ls) r ≡ true
unfolding mentions
mentions-more [] ls r (inl h) = cc
mentions-more [] ls r (inr h) = h
mentions-more (k ∷ ks) ls r (inl h) = elim (Bool-cases (occurs_in (codes k) r)) [
  | inl here ↦ rw here refl
  | inr later ↦ rw later (mentions-more ks ls r (inl (rw later at h)))
]
mentions-more (k ∷ ks) ls r (inr h) = elim (Bool-cases (occurs_in (codes k) r)) [
  | inl here ↦ rw here refl
  | inr later ↦ rw later (mentions-more ks ls r (inr h))
]

module _ (u : Unicode) (request : Text) where
  -- Every request is planned: the tool is registered, it is given only arguments that it reads, an
  -- amount or a price as a number and anything else as a text, and the plan is marked as a fallback
  -- exactly if it is the search.
  pub plan_request-IsPlan : IsPlan (plan_request u request)
  unfolding plan_request is_tool
  plan_request-IsPlan =
      let r = u.lower request in
      either IsPlan (mentions disable_words r) (plan_disable u request) _ (disable-IsPlan u request)
        (either IsPlan (mentions refund_words r) (plan_refund u request) _ (refund-IsPlan u request)
          (either IsPlan (mentions price_words r) (plan_price u request) _ (price-IsPlan u request)
            (either IsPlan (mentions reorder_words r) (planned "recommend_reorders" end) _
              (refl, tt, refl)
              (either IsPlan (mentions inventory_words r) (plan_inventory u request) _
                (inventory-IsPlan u request)
                (either IsPlan (mentions backlog_words r) (planned "get_order_backlog" end) _
                  (refl, tt, refl)
                  (either IsPlan (mentions customer_words r) (plan_customer u request) _
                    (customer-IsPlan u request)
                    (either IsPlan (mentions restart_words r)
                      (plan_service u request "restart_service") _ (refl, (refl, refl, tt), refl)
                      (either IsPlan (mentions health_words r)
                        (plan_service u request "get_service_health") _
                        (refl, (refl, refl, tt), refl)
                        (either IsPlan (mentions notice_words r) (plan_notice u request)
                          (plan_search u request) (refl, (refl, refl, (refl, refl, tt)), refl)
                          (refl, (refl, refl, (refl, refl, tt)), refl))))))))))

  abbrev IsAskedFor : Plan → Type 0
  IsAskedFor p = has_side_effect p.tool ≡ true → mentions effect_words (u.lower request) ≡ true

  -- A request is planned for a tool with a side effect only if, in lower case, it has one of the
  -- words for such an effect.
  pub plan_effect-IsAskedFor :
      has_side_effect (plan_request u request).tool ≡ true
      → mentions effect_words (u.lower request) ≡ true
  unfolding plan_request has_side_effect
  plan_effect-IsAskedFor =
      let r = u.lower request in
      let right =
        mentions-more disable_words
          (refund_words ++ (price_words ++ (restart_words ++ notice_words))) r in
      let more = mentions-more refund_words (price_words ++ (restart_words ++ notice_words)) r in
      let later = mentions-more price_words (restart_words ++ notice_words) r in
      let last = mentions-more restart_words notice_words r in
      given IsAskedFor (mentions disable_words r) (plan_disable u request) _ (λ m e. right (inl m))
        (given IsAskedFor (mentions refund_words r) (plan_refund u request) _
          (λ m e. right (inr (more (inl m))))
          (given IsAskedFor (mentions price_words r) (plan_price u request) _
            (λ m e. right (inr (more (inr (later (inl m))))))
            (reads_or (mentions reorder_words r) (planned "recommend_reorders" end) _ refl (
              reads_or (mentions inventory_words r) (plan_inventory u request) _ refl (
                reads_or (mentions backlog_words r) (planned "get_order_backlog" end) _ refl (
                  reads_or (mentions customer_words r) (plan_customer u request) _ refl (
                    given IsAskedFor (mentions restart_words r)
                      (plan_service u request "restart_service") _
                      (λ m e. right (inr (more (inr (later (inr (last (inl m))))))))
                      (reads_or (mentions health_words r)
                        (plan_service u request "get_service_health") _ refl
                        (given IsAskedFor (mentions notice_words r) (plan_notice u request)
                          (plan_search u request)
                          (λ m e. right (inr (more (inr (later (inr (last (inr m))))))))
                          (λ e. cc))))))))))
    where
      reads_or :
          (t : Bool) (p q : Plan)
          → has_side_effect p.tool ≡ false
          → IsAskedFor q
          → IsAskedFor (if t then p else q)
      reads_or true p q no_effect b e = cc (no_effect, e)
      reads_or false p q no_effect b e = b e

  -- Asked for a request of 3 to 3000 characters, the planner service answers what the engine reads as
  -- the very plan that it would have made itself, if each number of that plan is finite; otherwise it
  -- fails with a 500.
  pub engine_plan-service :
      (repr : Value → String) (planner_url : String)
      → planner_url ≢ ""
      → 3 ≤ length request
      → length request ≤ 3000
      → engine_plan u repr planner_url (service_plan u) request ≡ (
          if are_finite (plan_request u request).args
          then ok (plan_request u request)
          else raised (http_exception 500 ""))
  unfolding engine_plan service_plan read_plan
  engine_plan-service repr planner_url remote long short =
      let url : (planner_url == "") ≡ false = ground (arith, eq_iff planner_url "") in
      let enough : leb 3 (length request) ≡ true = ground arith in
      let fits : leb (length request) 3000 ≡ true = ground arith in
      let p = plan_request u request in
      elim (Bool-cases (are_finite p.args)) [
        | inl finite ↦ rw (url, enough, fits, finite) (reread repr p.tool p.args p.fallback)
        | inr infinite ↦ rw (url, enough, fits, infinite) refl
      ]
