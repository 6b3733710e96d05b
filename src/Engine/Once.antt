-- ===== src/Engine/Once.antt =====
-- The claim of an execution key, and the calls made under it (app/agent.py).
use aurelian_autonomous_ente.Prelude.{
  ℕ, ◌+◌, ◌≤◌, String, ◌≡◌, refl, subst, ◌∙◌, Bool, true, false, ◌&&◌, List, [], ◌∷◌, ◌++◌, inl,
  inr, ap, Bool-cases, any, select, count_where, ◌==◌, eq_iff, eq_refl, if◌then◌else◌, arith,
}
use aurelian_autonomous_ente.Json.{Fields}
use aurelian_autonomous_ente.Result.{Result, ok, raised, ok_injective}
use aurelian_autonomous_ente.Tools.Specs.{has_side_effect}
use aurelian_autonomous_ente.World.Rows.{World, Call}
use aurelian_autonomous_ente.World.Effects.{
  Effect, ◌>>=◌, go_on, Fault, done, refused, reply_lost, commit, statement, advance,
}
use aurelian_autonomous_ente.World.Statements.Executions.{has_key, claim_execution}
use aurelian_autonomous_ente.Engine.Environment.{Env, query_at, call_tool}
use aurelian_autonomous_ente.Engine.Frames.{Frame, Moves, has_row}
use aurelian_autonomous_ente.Engine.Statements.{IsMild-claim_execution}

-- The calls of tools with a side effect, and the number of them under a key.
abbrev pub side_calls : World → List Call
side_calls w = select (λ c. has_side_effect c.tool) w.calls

abbrev pub is_under : String → String → Call → Bool
is_under tenant key c = c.tenant_id == tenant && c.execution_key == key

abbrev pub uses : String → String → World → ℕ
uses tenant key w = count_where (is_under tenant key) (side_calls w)

-- Each key has at most one call with a side effect, and none before it is claimed.
abbrev pub IsOnce : World → Type 0
IsOnce w =
    (tenant key : String)
    → (uses tenant key w ≤ 1) × (has_row tenant key w ≡ false → uses tenant key w ≡ 0)

-- The key is claimed and not yet used.
abbrev pub IsClaimed : String → String → World → Type 0
IsClaimed tenant key w = (uses tenant key w ≡ 0) × (has_row tenant key w ≡ true)

pub IsOnce-near :
    (w v : World)
    → side_calls v ≡ side_calls w
    → ((tenant key : String) → has_row tenant key w ≡ true → has_row tenant key v ≡ true)
    → IsOnce w
    → IsOnce v
IsOnce-near w v e r h tenant key =
    let same : uses tenant key v ≡ uses tenant key w = ap (count_where (is_under tenant key)) e in
    let (le, unclaimed) = h tenant key in
    (
      omega (arith, same, le),
      λ gone. elim (Bool-cases (has_row tenant key w)) [
        | inl x ↦ cc (r tenant key x)
        | inr x ↦ same ∙ unclaimed x
      ],
    )

-- What keeps `IsOnce`.
abbrev pub once_frame : Frame
once_frame = record {
  relates = λ w v. IsOnce w → IsOnce v;
  near = λ w v n. IsOnce-near w v (ap (select (λ c. has_side_effect c.tool)) n.0) n.1;
  trans = λ u v w h k x. k (h x);
}

same_key : (tenant key t k : String) → (tenant == t && key == k) ≡ true → (tenant ≡ t) × (key ≡ k)
same_key tenant key t k h =
    (ground (arith, eq_iff tenant t, eq_iff key k), ground (arith, eq_iff tenant t, eq_iff key k))

-- A claimed key after the next call of a tool with a side effect.
claimed_then_used :
    (tenant key t k : String) (w : World)
    → IsOnce w
    → IsClaimed tenant key w
    → (b : Bool) → (tenant == t && key == k) ≡ b
    → ((if b then 1 else 0) + uses t k w ≤ 1)
      × (has_row t k w ≡ false → (if b then 1 else 0) + uses t k w ≡ 0)
claimed_then_used tenant key t k w h (unused, row) true e =
    let (et, ek) = same_key tenant key t k e in
    let zero_uses : uses t k w ≡ 0 =
      subst (λ x. uses x k w ≡ 0) et (subst (λ x. uses tenant x w ≡ 0) ek unused) in
    let claimed : has_row t k w ≡ true =
      subst (λ x. has_row x k w ≡ true) et (subst (λ x. has_row tenant x w ≡ true) ek row) in
    (omega (arith, zero_uses), λ gone. cc)
claimed_then_used tenant key t k w h c false e =
    let (le, unclaimed) = h t k in (omega (arith, le), λ gone. omega (arith, unclaimed gone))

-- A call under a claimed key keeps `IsOnce`, and so does any call of a tool that only reads.
pub call_tool-IsOnce :
    (env : Env) (tenant key tool : String) (args : Fields) (w : World)
    → IsOnce w
    → IsClaimed tenant key w
    → IsOnce (call_tool env tenant key tool args w).1
unfolding call_tool
call_tool-IsOnce env tenant key tool args w h c t k = elim (Bool-cases (has_side_effect tool)) [
  | inl s ↦ rw s (claimed_then_used tenant key t k w h c _ refl)
  | inr s ↦ rw s (h t k)
]

pub Moves-read_call :
    (env : Env) (tenant key tool : String) (args : Fields)
    → has_side_effect tool ≡ false
    → Moves once_frame (call_tool env tenant key tool args)
unfolding call_tool
Moves-read_call env tenant key tool args s = record { at = λ w h t k. rw s (h t k) }

-- What a returned value tells of the world after it.
abbrev pub Post : {A : Type 0} → (A → World → Type 0) → Result A × World → Type 0
Post {A} Q (r, v) = IsOnce v × ((a : A) → r ≡ ok a → Q a v)

module _ {A B : Type 0} {Q : A → World → Type 0} (R : B → World → Type 0) (f : A → Effect B) where
  go_on-Post :
      (r : Result A) (v : World)
      → Post Q (r, v)
      → ((a : A) (u : World) → IsOnce u → Q a u → Post R (f a u))
      → Post R (go_on r f v)
  go_on-Post (ok a) v (o, q) k = k a v o (q a refl)
  go_on-Post (raised e) v (o, q) k = (o, λ b h. cc)

  pub Post-bind :
      (m : Effect A) (w : World)
      → Post Q (m w)
      → ((a : A) (u : World) → IsOnce u → Q a u → Post R (f a u))
      → Post R ((m >>= f) w)
  unfolding ◌>>=◌
  Post-bind m w h k = go_on-Post (m w).0 (m w).1 h k

module _ (env : Env) (tenant : String) (task : ℕ) (phase tool key : String) where
  any-append_last :
      {A : Type 0} (q : A → Bool) (xs : List A) (x : A) → q x ≡ true → any q (xs ++ x ∷ []) ≡ true
  any-append_last q [] x h = rw h
  any-append_last q (y ∷ xs) x h = ground (arith, any-append_last q xs x h)

  claim-IsClaimed :
      (now : ℕ) (w : World)
      → IsOnce w
      → (claim_execution tenant task phase tool key now w).0 ≡ true
      → IsClaimed tenant key (claim_execution tenant task phase tool key now w).1
  unfolding claim_execution
  claim-IsClaimed now w h e = elim (Bool-cases (has_row tenant key w)) [
    | inl x ↦ cc (rw x at e)
    | inr x ↦ rw x (
      (h tenant key).1 x,
      any-append_last (has_key tenant key) w.executions _ (rw (eq_refl tenant, eq_refl key) refl),
    )
  ]

  claim-Near :
      (w : World)
      → IsOnce w
      → IsOnce (claim_execution tenant task phase tool key (env.clock w.tick) w).1
  claim-Near w h =
      once_frame.near w (claim_execution tenant task phase tool key (env.clock w.tick) w).1
        ((IsMild-claim_execution tenant task phase tool key (env.clock w.tick)).at w) h

  commit-IsClaimed :
      (fault : Fault) (w : World)
      → IsOnce w
      → Post
          (λ b v. b ≡ true → IsClaimed tenant key v)
          (commit fault (λ v. claim_execution tenant task phase tool key (env.clock v.tick) v) w)
  commit-IsClaimed done w h =
      (claim-Near w h, λ b e t. claim-IsClaimed (env.clock w.tick) w h (ok_injective e ∙ t))
  commit-IsClaimed (refused e) w h = (h, λ b x. cc)
  commit-IsClaimed (reply_lost e) w h = (claim-Near w h, λ b x. cc)

  -- A claim that is won leaves the key claimed and not yet used.
  pub claim-Post :
      (w : World)
      → IsOnce w
      → Post
          (λ b v. b ≡ true → IsClaimed tenant key v)
          (query_at env (claim_execution tenant task phase tool key) w)
  unfolding query_at statement
  claim-Post w h = commit-IsClaimed (env.fault w.tick) (advance w) h
