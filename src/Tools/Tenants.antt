-- ===== src/Tools/Tenants.antt =====
-- What the tools of app/tools.py may write.
use aurelian_autonomous_ente.Prelude.{
  ℕ, String, ◌≡◌, ◌≢◌, inl, inr, refl, ap, Bool, true, false, List, [], ◌∷◌, map, Option, none,
  some, ◌==◌, eq_iff, arith, contains, update_where, select, find, Bool-cases, if◌then◌else◌,
}
use aurelian_autonomous_ente.Json.{Fields, nat}
use aurelian_autonomous_ente.Result.{Result, ok, raised, error}
use aurelian_autonomous_ente.World.Effects.{Fault, done, refused, reply_lost}
use aurelian_autonomous_ente.World.Rows.{ProductRow, Store}
use aurelian_autonomous_ente.Runner.Execute.{arg}
use aurelian_autonomous_ente.Tools.Host.{ToolHost, read, write, to_float}
use aurelian_autonomous_ente.Tools.Sandbox.{isolated}
use aurelian_autonomous_ente.Tools.Execute.{
  upper_arg, is_product, products_of, set_price, price_output, after_product, after_new_price,
  change_product_price, privileged_tool, execute_tool, issue_refund, disable_user_account,
  search_knowledge, list_inventory, recommend_reorders, get_customer_profile, get_order_backlog,
}

abbrev pub unpriced : ProductRow → ProductRow
unpriced p = record p { price = 0 }

-- Orders, customers and the products of other tenants are as before; of the tenant's own products at
-- most the prices differ.
abbrev pub KeepsOthers : String → Store → Store → Type 0
KeepsOthers tenant s after =
    (after.orders ≡ s.orders)
    × (after.customers ≡ s.customers)
    × (map unpriced after.products ≡ map unpriced s.products)
    × ((t : String) → t ≢ tenant → products_of t after ≡ products_of t s)

module _ (tenant sku : String) (w : ℕ) where
  abbrev repriced : List ProductRow → List ProductRow
  repriced = update_where (is_product tenant sku) (λ (p : ProductRow). record p { price = w })

  unpriced-repriced : (ps : List ProductRow) → map unpriced (repriced ps) ≡ map unpriced ps
  unpriced-repriced [] = refl
  unpriced-repriced (p ∷ ps) = elim (Bool-cases (is_product tenant sku p)) [
    | inl own ↦ rw own (ap (λ l. unpriced p ∷ l) (unpriced-repriced ps))
    | inr other ↦ rw other (ap (λ l. unpriced p ∷ l) (unpriced-repriced ps))
  ]

  others-repriced :
      (t : String) (ps : List ProductRow)
      → t ≢ tenant
      → select (λ (p : ProductRow). p.tenant_id == t) (repriced ps)
        ≡ select (λ (p : ProductRow). p.tenant_id == t) ps
  others-repriced t [] n = refl
  others-repriced t (p ∷ ps) n = elim (Bool-cases (is_product tenant sku p)) [
    | inl own ↦
        let foreign : (p.tenant_id == t) ≡ false =
          ground (arith, eq_iff p.tenant_id t, eq_iff p.tenant_id tenant) in
        rw (own, foreign) (others-repriced t ps n)
    | inr other ↦ rw other (elim (Bool-cases (p.tenant_id == t)) [
      | inl here ↦ rw here (ap (λ l. p ∷ l) (others-repriced t ps n))
      | inr there ↦ rw there (others-repriced t ps n)
    ])
  ]

module _ (h : ToolHost) (n : ℕ) (tenant : String) (args : Fields) (s : Store) where
  nothing_written : KeepsOthers tenant s s
  nothing_written = (refl, refl, refl, λ t n. refl)

  write-KeepsOthers :
      (f : Fault) (sku : String) (w : ℕ) (out : Fields)
      → KeepsOthers tenant s (write f (set_price h n tenant args s sku w) out s).1
  write-KeepsOthers (refused e) sku w out = nothing_written
  write-KeepsOthers done sku w out = (
    refl,
    refl,
    unpriced-repriced tenant sku w s.products,
    λ t n. others-repriced tenant sku w t s.products n,
  )
  write-KeepsOthers (reply_lost e) sku w out = (
    refl,
    refl,
    unpriced-repriced tenant sku w s.products,
    λ t n. others-repriced tenant sku w t s.products n,
  )

  after_product-KeepsOthers :
      (sku : String) (w : ℕ) (r : Result (Option ProductRow))
      → KeepsOthers tenant s (after_product h n tenant args s sku w r).1
  after_product-KeepsOthers sku w (raised e) = nothing_written
  after_product-KeepsOthers sku w (ok none) = nothing_written
  after_product-KeepsOthers sku w (ok (some p)) =
      write-KeepsOthers (h.second_fault n) sku w (price_output h n tenant args s sku p.price w)

  after_new_price-KeepsOthers :
      (sku : String) (r : Result ℕ)
      → KeepsOthers tenant s (after_new_price h n tenant args s sku r).1
  after_new_price-KeepsOthers sku (raised e) = nothing_written
  after_new_price-KeepsOthers sku (ok w) =
      after_product-KeepsOthers sku w
        (read (h.first_fault n) (find (is_product tenant sku) s.products))

  -- What a tool leaves: at most the tenant's own prices differ, and only if it is the change of a price.
  abbrev pub Leaves : String → Result Fields × Store → Type 0
  Leaves name r = KeepsOthers tenant s r.1 × (name ≢ "change_product_price" → r.1 ≡ s)

  reads : (name : String) (r : Result Fields) → Leaves name (r, s)
  reads name r = (nothing_written, λ other. refl)

  either :
      (name : String) (t : Bool) (r : Result Fields) (q : Result Fields × Store)
      → Leaves name q
      → Leaves name (if t then (r, s) else q)
  either name true r q b = reads name r
  either name false r q b = b

  privileged-Leaves : (name : String) → Leaves name (privileged_tool h n tenant name args s)
  unfolding change_product_price
  privileged-Leaves name = elim (Bool-cases (name == "change_product_price")) [
    | inl change ↦ rw change (
      after_new_price-KeepsOthers (upper_arg h n tenant args s "sku" "AUR-101")
          (to_float h (arg args "new_price" (nat 0))),
      λ other. absurd (other ((eq_iff name "change_product_price").0 change)),
    )
    | inr other ↦ rw other (
        either name (name == "issue_refund") (issue_refund h n tenant args s) _ (
          either name (name == "disable_user_account") (disable_user_account h n tenant args s) _
            (reads name (raised (error "ValueError")))))
  ]

  -- Whatever tool runs, with any arguments and whichever statement fails, orders, customers and the
  -- other tenants' products stay as they are, of the tenant's own products only prices can differ,
  -- and nothing at all differs after any tool but the change of a price.
  pub execute_tool-KeepsOthers :
      (name : String)
      → KeepsOthers tenant s (execute_tool h n tenant name args s).1
        × (name ≢ "change_product_price" → (execute_tool h n tenant name args s).1 ≡ s)
  unfolding execute_tool
  execute_tool-KeepsOthers name =
      either name (name == "search_knowledge") (search_knowledge h n tenant args s) _ (
        either name (name == "list_inventory") (list_inventory h n tenant args s) _ (
          either name (name == "recommend_reorders") (recommend_reorders h n tenant args s) _ (
            either name (name == "get_customer_profile") (get_customer_profile h n tenant args s) _
              (either name (name == "get_order_backlog") (get_order_backlog h n tenant args s) _ (
                either name (name == "get_service_health") (isolated h n name args) _ (
                  either name (contains name ("send_notice" ∷ "restart_service" ∷ []))
                    (isolated h n name args) _ (privileged-Leaves name)))))))
