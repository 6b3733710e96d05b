-- ===== src/Tools/Tests.antt =====
-- A small catalogue, with floats taken as whole numbers.
use aurelian_autonomous_ente.Prelude.{
  String, ◌≡◌, ◌≢◌, ◌==◌, refl, sym, subst, false, true, [], ◌∷◌, none, some, arith, leb, eq_iff,
  select, Bool-cases, inl, inr, contains,
}
use aurelian_autonomous_ente.Json.{Fields, nat, str, end, field, get}
use aurelian_autonomous_ente.Result.{ok, raised, error, Ensures}
use aurelian_autonomous_ente.Floats.{whole}
use aurelian_autonomous_ente.World.Effects.{done}
use aurelian_autonomous_ente.World.Rows.{ProductRow, OrderRow, Store}
use aurelian_autonomous_ente.Tools.Arguments.{reads_of, AgreeOn, execute_tool-reads}
use aurelian_autonomous_ente.Tools.Host.{ToolHost, to_float}
use aurelian_autonomous_ente.Tools.Execute.{
  compensation_fields, recommend, issue_refund, execute_tool,
}
use aurelian_autonomous_ente.Tools.Outputs.{IsAccepted, execute_tool-IsAccepted}
use aurelian_autonomous_ente.Tools.Prices.{compensation_restores}
use aurelian_autonomous_ente.Tools.Tenants.{KeepsOthers, execute_tool-KeepsOthers}
use aurelian_autonomous_ente.Tools.Amounts.{
  ReplenishAll, recommend-ReplenishAll, IsRefund, issue_refund-IsRefund,
}

abbrev host : ToolHost
host = record {
  floats = whole;
  upper = λ s. s;
  repr = λ v. "";
  parse_float = λ s. raised (error "ValueError");
  first_fault = λ n. done;
  second_fault = λ n. done;
  tool_runner_url = "";
  runner = λ n tool args. raised (error "ConnectError");
  trace_id = λ n. none;
  is_late = λ n. false;
  search_documents = λ n tenant q e s. raised (error "RuntimeError");
}

abbrev hub : String → ProductRow
hub tenant = record {
  tenant_id = tenant;
  sku = "AUR-101";
  name = "Hub";
  price = 1299;
  stock = 7;
  reorder_point = 10;
  demand_trend = "rising";
  others = end;
}

abbrev sale : OrderRow
sale = record {
  id = 1;
  tenant_id = "meridian";
  order_code = "ORD-1001";
  customer_code = "CUST-001";
  total = 500;
  status = "fulfilled";
  others = end;
}

abbrev catalogue : Store
catalogue = record {
  incidents = [];
  products = hub "northstar" ∷ hub "meridian" ∷ [];
  customers = [];
  orders = sale ∷ [];
}

abbrev price_tool : String
price_tool = "change_product_price"

abbrev new_price : Fields
new_price = field "sku" (str "AUR-101") (field "new_price" (nat 5) end)

execute_tool-IsAccepted_example :
    Ensures
      (IsAccepted "change_product_price")
      (execute_tool host 0 "meridian" "change_product_price" new_price catalogue).0
execute_tool-IsAccepted_example =
    execute_tool-IsAccepted host 0 "meridian" new_price catalogue "change_product_price" refl
      (λ e. ground (arith, eq_iff "change_product_price" "search_knowledge"))

compensation_restores_example :
    (out undone : Fields) × (back : Fields) × (changed : Store) × (execute_tool host 0 "meridian"
        "change_product_price" new_price catalogue
      ≡ (ok out, changed))
    × (get "compensation" out ≡ some (compensation_fields "change_product_price" back))
    × (execute_tool host 1 "meridian" "change_product_price" back changed ≡ (ok undone, catalogue))
unfolding to_float
compensation_restores_example =
    compensation_restores host "meridian" new_price catalogue 0 1 5 (hub "meridian") refl refl
      (omega arith) (λ t. refl) (λ k. (refl, refl))

execute_tool-KeepsOthers_example :
    KeepsOthers "meridian" catalogue
      (execute_tool host 0 "meridian" "change_product_price" new_price catalogue).1
    × (price_tool ≢ "change_product_price"
        → (execute_tool host 0 "meridian" "change_product_price" new_price catalogue).1 ≡ catalogue)
execute_tool-KeepsOthers_example =
    execute_tool-KeepsOthers host 0 "meridian" new_price catalogue "change_product_price"

recommend-ReplenishAll_example :
    ReplenishAll
      (select (λ (p : ProductRow). leb p.stock p.reorder_point) catalogue.products)
      (recommend catalogue.products)
recommend-ReplenishAll_example = recommend-ReplenishAll catalogue.products

issue_refund-IsRefund_example :
    Ensures
      (IsRefund host 0 "meridian" (field "amount" (nat 900) end) catalogue "ORD-1001")
      (issue_refund host 0 "meridian" (field "amount" (nat 900) end) catalogue)
issue_refund-IsRefund_example =
    issue_refund-IsRefund host 0 "meridian" (field "amount" (nat 900) end) catalogue
      (λ a b h. ground arith)

abbrev noted_price : Fields
noted_price = field "note" (str "spring") new_price

noted_price-AgreeOn : AgreeOn (reads_of "change_product_price") new_price noted_price
noted_price-AgreeOn k listed = elim (Bool-cases ("note" == k)) [
  | inr other ↦ rw other refl
  | inl same ↦
      let never : false ≡ true =
        subst (λ x. contains x (reads_of "change_product_price") ≡ true)
          (sym ((eq_iff "note" k).0 same)) listed in
      cc never
]

execute_tool-reads_example :
    execute_tool host 0 "meridian" "change_product_price" new_price catalogue
    ≡ execute_tool host 0 "meridian" "change_product_price" noted_price catalogue
execute_tool-reads_example =
    execute_tool-reads new_price noted_price "change_product_price" noted_price-AgreeOn host 0
      "meridian" catalogue refl
