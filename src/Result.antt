-- ===== src/Result.antt =====
-- Python's exceptions as values: an `HTTPException` with its status and detail, and any other
-- exception by the name of its type.
use aurelian_autonomous_ente.Prelude.{ℕ, String, ◌≡◌, refl, ap}

pub data Exception : Type 0 where
  http_exception : ℕ → String → Exception
  error : String → Exception

-- `type(e).__name__`
abbrev pub type_name : Exception → String
type_name (http_exception _ _) = "HTTPException"
type_name (error name) = name

pub data Result {ℓ} (A : Type ℓ) : Type ℓ where
  ok : A → Result A
  raised : Exception → Result A

-- A raised exception skips the rest of a block.
module _ {ℓ κ} {A : Type ℓ} {B : Type κ} where
  abbrev pub and_then : (A → Result B) → Result A → Result B
  and_then next (raised e) = raised e
  and_then next (ok a) = next a

  infixl 5 ◌>>=◌
  abbrev pub ◌>>=◌ : Result A → (A → Result B) → Result B
  r >>= next = and_then next r

-- What holds of every value that is returned.
abbrev pub Ensures {ℓ κ} : {A : Type ℓ} → (A → Type κ) → Result A → Type κ
Ensures P (ok a) = P a
Ensures P (raised e) = Unit

pub Ensures-bind {ℓ κ μ} :
    {A : Type ℓ} {B : Type κ} (P : B → Type μ) (m : Result A) (f : A → Result B)
    → ((a : A) → m ≡ ok a → Ensures P (f a))
    → Ensures P (m >>= f)
Ensures-bind P (ok a) f h = h a refl
Ensures-bind P (raised e) f h = tt

pub Ensures-ok {ℓ κ} :
    {A : Type ℓ} (P : A → Type κ) (m : Result A) {a : A} → Ensures P m → m ≡ ok a → P a
Ensures-ok P m h e = rw e at h

abbrev value_or {ℓ} : {A : Type ℓ} → A → Result A → A
value_or d (ok a) = a
value_or d (raised e) = d

pub ok_injective {ℓ} : {A : Type ℓ} {a b : A} → ok a ≡ ok b → a ≡ b
ok_injective {a = a} p = ap (value_or a) p

-- What a chain that returned has gone through.
module _ {ℓ κ} {A : Type ℓ} {B : Type κ} (next : A → Result B) where
  abbrev pub Passed : Result A → B → Type (ℓ ⊔ κ)
  Passed r b = (a : A) × (r ≡ ok a) × (next a ≡ ok b)

  and_then-Passed : (r : Result A) {b : B} → and_then next r ≡ ok b → Passed r b
  and_then-Passed (raised e) h = cc
  and_then-Passed (ok a) h = (a, refl, h)

module _ {ℓ κ} {A : Type ℓ} {B : Type κ} (r : Result A) (next : A → Result B) where
  pub bind-eq-ok : {b : B} → (r >>= next) ≡ ok b → Passed next r b
  bind-eq-ok h = and_then-Passed next r h
