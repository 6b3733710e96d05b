-- ===== src/Tools/Prices.antt =====
-- What a change of a price writes, and that its compensation takes it back (app/tools.py).
use aurelian_autonomous_ente.Prelude.{
  ℕ, ◌≤◌, String, ◌≡◌, inl, inr, refl, ap, Bool, List, [], ◌∷◌, some, arith, find, count_where,
  update_where, Bool-cases, some_injective,
}
use aurelian_autonomous_ente.Json.{Fields, nat, str, float, end, field, get}
use aurelian_autonomous_ente.Result.{ok}
use aurelian_autonomous_ente.World.Effects.{done}
use aurelian_autonomous_ente.World.Rows.{ProductRow, Store}
use aurelian_autonomous_ente.Runner.Execute.{arg}
use aurelian_autonomous_ente.Tools.Host.{ToolHost, to_float}
use aurelian_autonomous_ente.Tools.Execute.{
  upper_arg, is_product, set_price, price_output, compensation_fields, change_product_price,
  execute_tool,
}

abbrev price : ℕ → ProductRow → ProductRow
price w p = record p { price = w }

-- Updates of the rows that pass a test.
module _ {ℓ} {A : Type ℓ} (t : A → Bool) where
  find-update :
      (f : A → A) (xs : List A) (x : A)
      → ((y : A) → t (f y) ≡ t y)
      → find t xs ≡ some x
      → find t (update_where t f xs) ≡ some (f x)
  find-update f [] x same h = cc
  find-update f (y ∷ xs) x same h = elim (Bool-cases (t y)) [
    | inl passes ↦
        rw (passes, same y, passes) (ap (λ z. some (f z)) (some_injective (rw passes at h)))
    | inr fails ↦ rw (fails, fails) (find-update f xs x same (rw fails at h))
  ]

  update-none : (f : A → A) (xs : List A) → count_where t xs ≡ 0 → update_where t f xs ≡ xs
  update-none f [] h = refl
  update-none f (x ∷ xs) h = elim (Bool-cases (t x)) [
    | inl passes ↦ absurd (ground arith)
    | inr fails ↦ rw fails (ap (λ ys. x ∷ ys) (update-none f xs (ground arith)))
  ]

  update-undo :
      (f g : A → A) (xs : List A) (x : A)
      → ((y : A) → t (f y) ≡ t y)
      → count_where t xs ≤ 1
      → find t xs ≡ some x
      → g (f x) ≡ x
      → update_where t g (update_where t f xs) ≡ xs
  update-undo f g [] x same one h back = cc
  update-undo f g (y ∷ xs) x same one h back = elim (Bool-cases (t y)) [
    | inl passes ↦
        let it : y ≡ x = some_injective (rw passes at h) in
        let others : count_where t xs ≡ 0 = ground arith in
        rw (passes, same y, passes, update-none f xs others, update-none g xs others, it, back) refl
    | inr fails ↦
        rw (fails, fails)
          (ap (λ ys. y ∷ ys) (update-undo f g xs x same (ground arith) (rw fails at h) back))
  ]

module _ (h : ToolHost) (tenant : String) where
  abbrev price_args : String → ℕ → Fields
  price_args sku old = field "sku" (str sku) (field "new_price" (float old) end)

  -- A change back to the price that was there.
  change_back :
      (m : ℕ) (args : Fields) (s : Store) (sku : String) (new : ℕ) (p : ProductRow)
      → find (is_product tenant sku) s.products ≡ some p
      → count_where (is_product tenant sku) s.products ≤ 1
      → h.upper sku ≡ sku
      → (h.first_fault m ≡ done) × (h.second_fault m ≡ done)
      → let changed = set_price h m tenant args s sku new in
        let back = price_args sku p.price in
        change_product_price h m tenant back changed
        ≡ (ok (price_output h m tenant back changed sku new p.price), s)
  unfolding change_product_price to_float
  change_back m args s sku new p found one upper (first, second) =
      let t = is_product tenant sku in
      rw
        (
          upper,
          first,
          find-update t (price new) s.products p (λ y. refl) found,
          second,
          update-undo t (price new) (price p.price) s.products p (λ y. refl) one found refl,
        )
        refl

module _ (h : ToolHost) (tenant : String) (args : Fields) (s : Store) where
  -- A change of a price of a product that the tenant has, under a code that no other row of the tenant
  -- has, gives an output whose compensation, run by `execute_tool` in its turn, leaves the tables as
  -- they were before the change. The new price must be a number, no statement fails, and to put an
  -- upper-case code into upper case again changes nothing.
  pub compensation_restores :
      (n m new : ℕ) (p : ProductRow)
      → to_float h (arg args "new_price" (nat 0)) ≡ ok new
      → find (is_product tenant (upper_arg h n tenant args s "sku" "AUR-101")) s.products ≡ some p
      → count_where (is_product tenant (upper_arg h n tenant args s "sku" "AUR-101")) s.products ≤ 1
      → ((t : String) → h.upper (h.upper t) ≡ h.upper t)
      → ((k : ℕ) → (h.first_fault k ≡ done) × (h.second_fault k ≡ done))
      → (out undone : Fields) × (back : Fields) × (changed : Store) × (execute_tool h n tenant
            "change_product_price" args s
          ≡ (ok out, changed))
        × (get "compensation" out ≡ some (compensation_fields "change_product_price" back))
        × (execute_tool h m tenant "change_product_price" back changed ≡ (ok undone, s))
  unfolding execute_tool change_product_price
  compensation_restores n m new p number found one again fine =
      let sku = upper_arg h n tenant args s "sku" "AUR-101" in
      let back : Fields = field "sku" (str sku) (field "new_price" (float p.price) end) in
      (
        price_output h n tenant args s sku p.price new,
        price_output h m tenant back (set_price h n tenant args s sku new) sku new p.price,
        back,
        set_price h n tenant args s sku new,
        rw (number, (fine n).0, found, (fine n).1) refl,
        refl,
        change_back h tenant m args s sku new p found one (again _) (fine m),
      )
