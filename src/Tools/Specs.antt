-- ===== src/Tools/Specs.antt =====
-- `TOOLS` (app/tools.py), without the descriptions.
use aurelian_autonomous_ente.Prelude.{String, Bool, true, false, List, [], ◌∷◌, none, some, lookup}

pub record ToolSpec : Type 0 where
  pub risk : String
  pub side_effect : Bool

abbrev spec : String → Bool → ToolSpec
spec risk side_effect = record { risk = risk; side_effect = side_effect }

abbrev pub tools : List (String × ToolSpec)
tools =
    ("search_knowledge", spec "low" false)
    ∷ ("get_service_health", spec "low" false)
    ∷ ("list_inventory", spec "low" false)
    ∷ ("recommend_reorders", spec "low" false)
    ∷ ("get_customer_profile", spec "low" false)
    ∷ ("get_order_backlog", spec "low" false)
    ∷ ("send_notice", spec "medium" true)
    ∷ ("restart_service", spec "medium" true)
    ∷ ("change_product_price", spec "high" true)
    ∷ ("issue_refund", spec "high" true)
    ∷ ("disable_user_account", spec "high" true)
    ∷ []

-- `TOOLS.get(tool) and TOOLS[tool].side_effect`
unfoldable pub has_side_effect : String → Bool
has_side_effect tool = elim (lookup tool tools) [ none ↦ false | some s ↦ s.side_effect ]

-- `tool in TOOLS`
unfoldable pub is_tool : String → Bool
is_tool tool = elim (lookup tool tools) [ none ↦ false | some s ↦ true ]
