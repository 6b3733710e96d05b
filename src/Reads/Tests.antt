-- ===== src/Reads/Tests.antt =====
-- A world of two tenants, and a demo token.
use aurelian_autonomous_ente.Prelude.{ℕ, String, ◌≡◌, refl, true, [], ◌∷◌}
use aurelian_autonomous_ente.Json.{end}
use aurelian_autonomous_ente.Result.{ok}
use aurelian_autonomous_ente.Floats.{whole}
use aurelian_autonomous_ente.Auth.Roles.{Principal}
use aurelian_autonomous_ente.Audit.Plain.{plain_json, plain_signing}
use aurelian_autonomous_ente.World.Rows.{ProductRow, World}
use aurelian_autonomous_ente.Reads.Listings.{overview, product_list, serve_read, products}
use aurelian_autonomous_ente.Reads.Own.{own_ledger, own_world, serve_read-own}
use aurelian_autonomous_ente.Tools.Host.{insert_by, order_by}

abbrev hub : String → ℕ → ProductRow
hub tenant stock = record {
  tenant_id = tenant;
  sku = "AUR-101";
  name = "Hub";
  price = 1299;
  stock = stock;
  reorder_point = 10;
  demand_trend = "rising";
  others = end;
}

abbrev two_tenants : World
two_tenants = record {
  tasks = [];
  checkpoints = [];
  approvals = [];
  executions = [];
  compensations = [];
  audit = [];
  store = record {
    incidents = [];
    products = hub "northstar" 3 ∷ hub "meridian" 9 ∷ hub "meridian" 2 ∷ [];
    customers = [];
    orders = [];
  };
  calls = [];
  tick = 0;
}

abbrev viewer : Principal
viewer = record { sub = "v"; tenant_id = "meridian"; role = "viewer"; scopes = []; mfa = true }

own_products_by_stock :
    serve_read whole plain_json plain_signing viewer [] two_tenants products
    ≡ ok (product_list (hub "meridian" 2 ∷ hub "meridian" 9 ∷ []))
unfolding serve_read order_by insert_by
own_products_by_stock = refl

serve_read-own_example :
    serve_read whole plain_json plain_signing viewer
      (own_ledger whole plain_json plain_signing viewer [] two_tenants)
      (own_world "meridian" two_tenants)
      overview
    ≡ serve_read whole plain_json plain_signing viewer [] two_tenants overview
serve_read-own_example =
    serve_read-own whole plain_json plain_signing viewer [] two_tenants overview
