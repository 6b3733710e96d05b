-- ===== src/Engine/Frames.antt =====
-- Relations between the world before and after an effect (app/agent.py), one rule for each way to
-- build an effect.
use aurelian_autonomous_ente.Prelude.{
  ◌≡◌, refl, Bool, true, false, not, find, String, Option, none, some, any, ℕ, if◌then◌else◌,
}
use aurelian_autonomous_ente.Result.{Exception, Result, ok, raised}
use aurelian_autonomous_ente.World.Rows.{World, ApprovalRow}
use aurelian_autonomous_ente.World.Effects.{
  Effect, pure, raise, attempt, ◌>>=◌, go_on, Fault, done, refused, reply_lost, commit, statement,
  outside,
}
use aurelian_autonomous_ente.World.Statements.Approvals.{is_approval, is_pending}
use aurelian_autonomous_ente.World.Statements.Executions.{has_key}
use aurelian_autonomous_ente.Engine.Environment.{Env, query, query_at}

-- Whether there is an execution row with the key.
abbrev pub has_row : String → String → World → Bool
has_row tenant key w = any (has_key tenant key) w.executions

-- The approval is there and no longer pending.
abbrev pub is_decided : Option ApprovalRow → Bool
is_decided none = false
is_decided (some a) = not (is_pending a)

abbrev pub has_decided : String → ℕ → World → Bool
has_decided tenant id w = is_decided (find (is_approval tenant id) w.approvals)

-- No tool was called, no execution row has gone, and no approval is pending again.
abbrev pub Near : World → World → Type 0
Near w v =
    (v.calls ≡ w.calls)
    × ((tenant key : String) → has_row tenant key w ≡ true → has_row tenant key v ≡ true)
    × ((tenant : String) (id : ℕ) → has_decided tenant id w ≡ true → has_decided tenant id v ≡ true)

-- The same world, but for what no part of `Near` speaks of.
abbrev pub Near-refl : (w : World) → Near w w
Near-refl w = (refl, (λ t k h. h), λ t i h. h)

-- A relation that all such changes are in, closed under composition.
pub record Frame : Type 1 where
  pub relates : World → World → Type 0
  pub near : (w v : World) → Near w v → relates w v
  pub trans : (u v w : World) → relates u v → relates v w → relates u w

-- The change of every run of `m` is in the relation, whether it returns or raises.
pub record Moves (F : Frame) {A : Type 0} (m : Effect A) : Type 0 where
  pub at : (w : World) → F.relates w (m w).1

pub record IsMild {A : Type 0} (f : World → A × World) : Type 0 where
  pub at : (w : World) → Near w (f w).1

-- `m` can return `a`.
abbrev pub Returns : {A : Type 0} → Effect A → A → Type 0
Returns m a = (w : World) × ((m w).0 ≡ ok a)

module _ (F : Frame) {A : Type 0} where
  pub Moves-pure : (a : A) → Moves F (pure a)
  Moves-pure a = record { at = λ w. F.near w w (Near-refl w) }

  pub Moves-raise : (e : Exception) → Moves F (raise {A = A} e)
  Moves-raise e = record { at = λ w. F.near w w (Near-refl w) }

  pub Moves-attempt : (m : Effect A) → Moves F m → Moves F (attempt m)
  Moves-attempt m h = record { at = λ w. h.at w }

  pub Moves-if :
      (b : Bool) (m n : Effect A)
      → (b ≡ true → Moves F m)
      → (b ≡ false → Moves F n)
      → Moves F (if b then m else n)
  Moves-if true m n h k = h refl
  Moves-if false m n h k = k refl

  pub Moves-outside : (f : ℕ → Result A) → Moves F (outside f)
  unfolding outside
  Moves-outside f = record { at = λ w. F.near w _ (Near-refl w) }

  commit-relates :
      (fault : Fault) (f : World → A × World) (w v : World)
      → Near w v
      → Near w (f v).1
      → F.relates w (commit fault f v).1
  commit-relates done f w v h k = F.near w _ k
  commit-relates (refused e) f w v h k = F.near w v h
  commit-relates (reply_lost e) f w v h k = F.near w _ k

  pub Moves-statement :
      (fault : ℕ → Fault) (f : World → A × World) → IsMild f → Moves F (statement fault f)
  unfolding statement
  Moves-statement fault f h = record {
    at = λ w. commit-relates (fault w.tick) f w _ (Near-refl w) (h.at _);
  }

  pub Moves-query : (env : Env) (f : World → A × World) → IsMild f → Moves F (query env f)
  unfolding query
  Moves-query env f h = Moves-statement env.fault f h

  pub Moves-query_at :
      (env : Env) (f : ℕ → World → A × World)
      → ((now : ℕ) → IsMild (f now))
      → Moves F (query_at env f)
  unfolding query_at
  Moves-query_at env f h = Moves-statement env.fault _ (record { at = λ w. (h _).at w })

module _ (F : Frame) {A B : Type 0} where
  pub Moves-result :
      (r : Result A) (f : A → Effect B) (g : Exception → Effect B)
      → ((a : A) → Moves F (f a))
      → ((e : Exception) → Moves F (g e))
      → Moves F (elim r [ ok a ↦ f a | raised e ↦ g e ])
  Moves-result (ok a) f g h k = h a
  Moves-result (raised e) f g h k = k e

  pub Moves-option :
      (o : Option A) (f : A → Effect B) (m : Effect B)
      → ((a : A) → Moves F (f a))
      → Moves F m
      → Moves F (elim o [ some a ↦ f a | none ↦ m ])
  Moves-option none f m h k = k
  Moves-option (some a) f m h k = h a

module _ (F : Frame) {A B : Type 0} (m : Effect A) (f : A → Effect B) where
  -- The rest may use that it follows a value that `m` returned.
  go_on-relates :
      (w : World) (r : Result A) (v : World)
      → F.relates w v
      → ((a : A) → r ≡ ok a → Moves F (f a))
      → F.relates w (go_on r f v).1
  go_on-relates w (ok a) v h k = F.trans w v _ h ((k a refl).at v)
  go_on-relates w (raised e) v h k = h

  pub Moves-after : Moves F m → ((a : A) → Returns m a → Moves F (f a)) → Moves F (m >>= f)
  unfolding ◌>>=◌
  Moves-after h k = record {
    at = λ w. go_on-relates w (m w).0 (m w).1 (h.at w) (λ a e. k a (w, e));
  }

  pub Moves-bind : Moves F m → ((a : A) → Moves F (f a)) → Moves F (m >>= f)
  Moves-bind h k = Moves-after h (λ a _. k a)

pub ruleset moves_rules = (
  Moves-pure, Moves-raise, Moves-attempt, Moves-if, Moves-outside, Moves-query, Moves-query_at,
  Moves-bind,
)

-- What a sequence returns comes from what its first part returns.
module _ {A B : Type 0} (m : Effect A) (f : A → Effect B) where
  go_on-Returns :
      (b : B) (w v : World) (r : Result A)
      → (m w).0 ≡ r
      → (go_on r f v).0 ≡ ok b
      → (a : A) × Returns m a × Returns (f a) b
  go_on-Returns b w v (ok a) e h = (a, (w, e), (v, h))
  go_on-Returns b w v (raised x) e h = cc

  pub Returns-bind : (b : B) → Returns (m >>= f) b → (a : A) × Returns m a × Returns (f a) b
  unfolding ◌>>=◌
  Returns-bind b (w, h) = go_on-Returns b w (m w).1 (m w).0 refl h
