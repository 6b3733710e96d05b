-- ===== src/Planner/Args.antt =====
-- The arguments that the plans of app/planning.py give, beside those that the tools of app/tools.py and
-- app/sandbox_worker.py read.
use aurelian_autonomous_ente.Prelude.{
  String, ◌≡◌, refl, true, false, List, [], ◌∷◌, some, ◌==◌, lookup, get_or, contains, ℕ, Option,
  none, Text,
}
use aurelian_autonomous_ente.Json.{Value, Fields, nat, float, str, end, field}
use aurelian_autonomous_ente.Engine.Environment.{Plan}
use aurelian_autonomous_ente.Tools.Specs.{is_tool}
use aurelian_autonomous_ente.Tools.Arguments.{read_args}
use aurelian_autonomous_ente.Planner.Extract.{
  Unicode, first_match, user_here, order_here, amount_here, sku_here, customer_here,
}
use aurelian_autonomous_ente.Planner.Request.{
  plan_disable, plan_refund, plan_price, plan_inventory, plan_customer, found_or, float_or,
}

-- An amount or a price is a number, and any other argument a text.
abbrev IsTyped : String → Value → Type 0
IsTyped k (float w) = contains k ("amount" ∷ "new_price" ∷ []) ≡ true
IsTyped k (nat n) = contains k ("amount" ∷ "new_price" ∷ []) ≡ true
IsTyped k (str s) = contains k ("amount" ∷ "new_price" ∷ []) ≡ false
IsTyped k v = ⊥

-- Arguments that are among those that a tool reads, of the types that it can use.
abbrev pub AreArgs : List String → Fields → Type 0
AreArgs reads end = Unit
AreArgs reads (field k v d) = (contains k reads ≡ true) × IsTyped k v × AreArgs reads d

-- The tool is registered, it gets only arguments that it reads, each of its type, and only the search
-- is marked as a fallback.
abbrev pub IsPlan : Plan → Type 0
IsPlan p =
    (is_tool p.tool ≡ true)
    × AreArgs (get_or (lookup p.tool read_args) []) p.args
    × (p.fallback ≡ (p.tool == "search_knowledge"))

module _ (u : Unicode) (request : Text) where
  text_or-IsTyped :
      (k : String) (f : Text → String) (default : String) (found : Option Text)
      → contains k ("amount" ∷ "new_price" ∷ []) ≡ false
      → IsTyped k (found_or u request f default found)
  text_or-IsTyped k f default none h = h
  text_or-IsTyped k f default (some t) h = h

  amount_or-IsTyped :
      (k : String) (n : ℕ) (found : Option Text)
      → contains k ("amount" ∷ "new_price" ∷ []) ≡ true
      → IsTyped k (float_or u request (nat n) found)
        × IsTyped k (float_or u request (float n) found)
  amount_or-IsTyped k n none h = (h, h)
  amount_or-IsTyped k n (some t) h = (h, h)

  pub disable-IsPlan : IsPlan (plan_disable u request)
  unfolding is_tool
  disable-IsPlan =
      (refl, (refl, text_or-IsTyped "user" _ _ (first_match (user_here u) request) refl, tt), refl)

  pub refund-IsPlan : IsPlan (plan_refund u request)
  unfolding is_tool
  refund-IsPlan = (
    refl,
    (
      refl,
      text_or-IsTyped "order_code" _ _ (first_match (order_here u) request) refl,
      (refl, (amount_or-IsTyped "amount" 0 (first_match (amount_here u) request) refl).0, tt),
    ),
    refl,
  )

  pub price-IsPlan : IsPlan (plan_price u request)
  unfolding is_tool
  price-IsPlan = (
    refl,
    (
      refl,
      text_or-IsTyped "sku" _ _ (first_match (sku_here u) request) refl,
      (refl, (amount_or-IsTyped "new_price" _ (first_match (amount_here u) request) refl).1, tt),
    ),
    refl,
  )

  pub inventory-IsPlan : IsPlan (plan_inventory u request)
  unfolding is_tool
  inventory-IsPlan =
      (refl, (refl, text_or-IsTyped "sku" _ _ (first_match (sku_here u) request) refl, tt), refl)

  pub customer-IsPlan : IsPlan (plan_customer u request)
  unfolding is_tool
  customer-IsPlan = (
    refl,
    (refl, text_or-IsTyped "customer_code" _ _ (first_match (customer_here u) request) refl, tt),
    refl,
  )
