-- ===== src/Events/Places.antt =====
-- Streams by their number, after the steps of the bus.
use aurelian_autonomous_ente.Prelude.{
  ℕ, suc, zero, ◌≡◌, refl, ap, false, [], ◌∷◌, ◌++◌, map, some, eqb, arith, some_injective,
}
use aurelian_autonomous_ente.Events.Bus.{Stream, Bus, nth, update_nth}

pub nth-map :
    (f : Stream → Stream) (i : ℕ) (bus : Bus) (s : Stream)
    → nth i bus ≡ some s
    → nth i (map f bus) ≡ some (f s)
nth-map f i [] s h = cc
nth-map f zero (x ∷ bus) s h = ap (λ y. some (f y)) (some_injective h)
nth-map f (suc i) (x ∷ bus) s h = nth-map f i bus s h

pub nth-append :
    (x : Stream) (i : ℕ) (bus : Bus) (s : Stream)
    → nth i bus ≡ some s
    → nth i (bus ++ x ∷ []) ≡ some s
nth-append x i [] s h = cc
nth-append x zero (y ∷ bus) s h = h
nth-append x (suc i) (y ∷ bus) s h = nth-append x i bus s h

pub nth-update :
    (f : Stream → Stream) (i : ℕ) (bus : Bus) (s : Stream)
    → nth i bus ≡ some s
    → nth i (update_nth i f bus) ≡ some (f s)
nth-update f i [] s h = cc
nth-update f zero (x ∷ bus) s h = ap (λ y. some (f y)) (some_injective h)
nth-update f (suc i) (x ∷ bus) s h = nth-update f i bus s h

pub nth-update_other :
    (f : Stream → Stream) (j i : ℕ) (bus : Bus)
    → eqb j i ≡ false
    → nth i (update_nth j f bus) ≡ nth i bus
nth-update_other f j i [] h = refl
nth-update_other f zero zero (x ∷ bus) h = absurd (ground arith)
nth-update_other f zero (suc i) (x ∷ bus) h = refl
nth-update_other f (suc j) zero (x ∷ bus) h = refl
nth-update_other f (suc j) (suc i) (x ∷ bus) h = nth-update_other f j i bus (ground arith)
