-- ===== src/Api/Runs.antt =====
-- Runs in which no statement fails: an action returns, and something holds of its value and of the
-- world it leaves.
use aurelian_autonomous_ente.Prelude.{ℕ, ◌+◌, ◌≡◌, refl, List, [], ◌∷◌}
use aurelian_autonomous_ente.Result.{ok}
use aurelian_autonomous_ente.World.Rows.{World}
use aurelian_autonomous_ente.World.Effects.{Effect, pure, ◌>>=◌, done, advance, statement}
use aurelian_autonomous_ente.Engine.Environment.{Env, query, query_at}
use aurelian_autonomous_ente.Api.Recovery.{each}

abbrev pub Runs : {A : Type 0} → Effect A → World → (A → World → Type 0) → Type 0
Runs {A} m w P = (a : A) × (after : World) × (m w ≡ (ok a, after)) × P a after

module _ {A B : Type 0} (m : Effect A) (f : A → Effect B) (P : B → World → Type 0) where
  pub Runs-bind : (w : World) → Runs m w (λ a after. Runs (f a) after P) → Runs (m >>= f) w P
  unfolding ◌>>=◌
  Runs-bind w (a, after, e, (b, last, e', h)) = (b, last, rw e e', h)

module _ {A : Type 0} (P : A → World → Type 0) where
  pub Runs-pure : (a : A) (w : World) → P a w → Runs (pure a) w P
  Runs-pure a w h = (a, w, refl, h)

  module _ (env : Env) (fine : (n : ℕ) → env.fault n ≡ done) where
    pub Runs-query :
        (f : World → A × World) (w : World)
        → P (f (advance w)).0 (f (advance w)).1
        → Runs (query env f) w P
    unfolding query statement
    Runs-query f w h = ((f (advance w)).0, (f (advance w)).1, rw (fine w.tick) refl, h)

    pub Runs-query_at :
        (f : ℕ → World → A × World) (w : World)
        → ((now : ℕ) → P (f now (advance w)).0 (f now (advance w)).1)
        → Runs (query_at env f) w P
    unfolding query_at statement
    Runs-query_at f w h =
        let now = env.clock (advance w).tick in
        ((f now (advance w)).0, (f now (advance w)).1, rw (fine w.tick) refl, h now)

-- A loop over rows whose body takes its row off what is left to do.
module _ {A : Type 0} (f : A → Effect ℕ) (Left : List A → World → Type 0) where
  pub Runs-each :
      ((a : A) (rows : List A) (w : World)
        → Left (a ∷ rows) w
        → Runs (f a) w (λ n after. Left rows after))
      → (rows : List A) (w : World) → Left rows w
      → Runs (each f rows) w (λ n after. Left [] after)
  Runs-each body [] w h = (0, w, refl, h)
  Runs-each body (a ∷ rows) w h =
      let (n, after, e, rest) = body a rows w h in
      let (k, last, e', end) = Runs-each body rows after rest in
      Runs-bind (f a) (λ n. each f rows >>= λ rest. pure (n + rest)) _ w
        (
          n,
          after,
          e,
          (Runs-bind (each f rows) (λ rest. pure (n + rest)) _ after
              (k, last, e', Runs-pure _ (n + k) last end)),
        )
