-- ===== src/Database/Tenancy.antt =====
-- The tenant that each statement of a pooled connection runs under.
use aurelian_autonomous_ente.Prelude.{
  refl, ℕ, zero, suc, ◌+◌, ◌≤◌, ◌≡◌, ◌∙◌, ap, subst, some_injective, ◌==◌, List, [], ◌∷◌, ◌++◌,
  none, some, inl, inr, Bool, if◌then◌else◌, arith, All, ltb, length, Bool-cases, Option-cases,
}
use aurelian_autonomous_ente.Result.{Result}
use aurelian_autonomous_ente.Auth.Claims.{Context}
use aurelian_autonomous_ente.Database.Server.{Postgres, KeepsTenants}
use aurelian_autonomous_ente.Database.Methods.{
  Method, MethodReply, run_method, end_transaction, pg_prepare, pg_reset,
}
use aurelian_autonomous_ente.Database.Pool.{
  PoolCall, Pool, PoolAction, acquire, run, release, Happens, ran, returned, max_size, get_elem?,
  set_elem, remove_elem, acquire_from, answered, pool_step, run_pool,
}

-- The tenant that a task works for; an empty name is none.
abbrev pub tenant_of : Context → Context
tenant_of none = none
tenant_of (some t) = if t == "" then none else some t

-- A statement runs under the tenant of its own task, and under none if the task has none.
abbrev pub IsOwn : Happens → Type 0
IsOwn (ran context current) = current ≡ tenant_of context
IsOwn (returned r) = Unit

module _ {A : Type 0} (P : A → Type 0) where
  All-get_elem? : (xs : List A) (i : ℕ) (x : A) → All P xs → get_elem? xs i ≡ some x → P x
  All-get_elem? [] i x a e = cc e
  All-get_elem? (y ∷ xs) zero x (h, a) e = subst P (some_injective e) h
  All-get_elem? (y ∷ xs) (suc i) x (h, a) e = All-get_elem? xs i x a e

  All-append : (xs ys : List A) → All P xs → All P ys → All P (xs ++ ys)
  All-append [] ys a b = b
  All-append (x ∷ xs) ys (h, a) b = (h, All-append xs ys a b)

  All-set_elem : (xs : List A) (i : ℕ) (x : A) → P x → All P xs → All P (set_elem xs i x)
  All-set_elem [] i x h a = tt
  All-set_elem (y ∷ xs) zero x h (hy, a) = (h, a)
  All-set_elem (y ∷ xs) (suc i) x h (hy, a) = (hy, All-set_elem xs i x h a)

  All-remove_elem : (xs : List A) (i : ℕ) → All P xs → All P (remove_elem xs i)
  All-remove_elem [] i a = tt
  All-remove_elem (y ∷ xs) zero (hy, a) = a
  All-remove_elem (y ∷ xs) (suc i) (hy, a) = (hy, All-remove_elem xs i a)

module _ {A : Type 0} where
  length-set_elem : (xs : List A) (i : ℕ) (x : A) → length (set_elem xs i x) ≡ length xs
  length-set_elem [] i x = refl
  length-set_elem (y ∷ xs) zero x = refl
  length-set_elem (y ∷ xs) (suc i) x = ap suc (length-set_elem xs i x)

  length-remove_elem :
      (xs : List A) (i : ℕ) (x : A)
      → get_elem? xs i ≡ some x
      → suc (length (remove_elem xs i)) ≡ length xs
  length-remove_elem [] i x e = cc e
  length-remove_elem (y ∷ xs) zero x e = refl
  length-remove_elem (y ∷ xs) (suc i) x e = ap suc (length-remove_elem xs i x e)

module _ {Session Server : Type 0} (pg : Postgres Session Server) where
  abbrev pub IsUnset : Session → Type 0
  IsUnset s = pg.current_tenant s ≡ none

  -- Until its statement has run, a call's session names the tenant of its task.
  abbrev pub IsReady : PoolCall Session → Type 0
  IsReady c = c.reply ≡ none → pg.current_tenant c.session ≡ tenant_of c.context

  -- At most 10 connections, no idle one with a tenant set, and every call ready.
  pub record IsSound (p : Pool Session Server) : Type 0 where
    pub unset : All IsUnset p.idle
    pub ready : All IsReady p.busy
    pub within : length p.idle + length p.busy ≤ max_size

  module _ (is_alnum : ℕ → Bool) (keeps : KeepsTenants pg) where
    pg_prepare-begin :
        (context : Context) (s : Session)
        → IsUnset s
        → pg.current_tenant (pg_prepare pg context (pg.begin s)) ≡ tenant_of context
    unfolding pg_prepare
    pg_prepare-begin none s h = keeps.begin_same s ∙ h
    pg_prepare-begin (some t) s h = elim (Bool-cases (t == "")) [
      | inl empty ↦ rw empty (keeps.begin_same s ∙ h)
      | inr named ↦ rw named (keeps.set_tenant_sets t (pg.begin s))
    ]

    acquire-IsSound :
        (context : Context) (method : Method) (p : Pool Session Server)
        → IsSound p
        → IsSound (acquire_from pg context method p.idle p.busy p.server)
    unfolding acquire_from
    acquire-IsSound context method p h = from p.idle p.busy h.unset h.ready h.within
      where
        from :
            (idle : List Session) (busy : List (PoolCall Session))
            → All IsUnset idle
            → All IsReady busy
            → length idle + length busy ≤ max_size
            → IsSound (acquire_from pg context method idle busy p.server)
        from [] busy u r w = elim (Bool-cases (ltb (length busy) max_size)) [
          | inr full ↦ rw full record { unset = tt; ready = r; within = w }
          | inl room ↦ rw room record {
            unset = tt;
            ready = ((λ _. pg_prepare-begin context pg.opened keeps.opened_unset), r);
            within = ground arith;
          }
        ]
        from (s ∷ idle) busy (us, u) r w = record {
          unset = u;
          ready = ((λ _. pg_prepare-begin context s us), r);
          within = omega arith;
        }

    answered-IsSound :
        (i : ℕ) (c : PoolCall Session) (p : Pool Session Server)
        (t : Result MethodReply × Session × Server)
        → IsSound p
        → IsSound (answered pg i c p t)
    answered-IsSound i c p (r, s, w) h = record {
      unset = h.unset;
      ready =
          All-set_elem IsReady p.busy i (record c { session = s; reply = some r }) (λ e. cc e)
            h.ready;
      within =
          ground
            (arith, length-set_elem p.busy i (record c { session = s; reply = some r }), h.within);
    }

    run-IsSound :
        (i : ℕ) (p : Pool Session Server)
        → IsSound p
        → All IsOwn (pool_step is_alnum pg (run i) p).0
          × IsSound (pool_step is_alnum pg (run i) p).1
    unfolding pool_step
    run-IsSound i p h = elim (Option-cases (get_elem? p.busy i)) [
      | inl gone ↦ rw gone (tt, h)
      | inr (c, there) ↦ rw there (elim (Option-cases c.reply) [
        | inr (r, ended) ↦ rw ended (tt, h)
        | inl waits ↦ rw waits (
          (All-get_elem? IsReady p.busy i c h.ready there waits, tt),
          answered-IsSound i (record c { reply = none }) p
              (end_transaction pg (run_method is_alnum pg c.method c.session p.server)) h,
        )
      ])
    ]

    release-IsSound :
        (i : ℕ) (p : Pool Session Server)
        → IsSound p
        → All IsOwn (pool_step is_alnum pg (release i) p).0
          × IsSound (pool_step is_alnum pg (release i) p).1
    unfolding pool_step pg_reset
    release-IsSound i p h = elim (Option-cases (get_elem? p.busy i)) [
      | inl gone ↦ rw gone (tt, h)
      | inr (c, there) ↦ rw there (elim (Option-cases c.reply) [
        | inl waits ↦ rw waits (tt, h)
        | inr (r, ended) ↦ rw ended (
          (tt, tt),
          record {
            unset = (keeps.discard_all_unsets c.session, h.unset);
            ready = All-remove_elem IsReady p.busy i h.ready;
            within = ground (arith, length-remove_elem p.busy i c there, h.within);
          },
        )
      ])
    ]

    step-IsSound :
        (a : PoolAction) (p : Pool Session Server)
        → IsSound p
        → All IsOwn (pool_step is_alnum pg a p).0 × IsSound (pool_step is_alnum pg a p).1
    unfolding pool_step
    step-IsSound (acquire context method) p h = (tt, acquire-IsSound context method p h)
    step-IsSound (run i) p h = run-IsSound i p h
    step-IsSound (release i) p h = release-IsSound i p h

    -- Take a sound pool (`IsSound`) and a server with the laws of `KeepsTenants`. Whatever calls overlap,
    -- succeed or fail, each statement runs under the tenant of its own task, and under none if its task
    -- has none; and the pool stays sound.
    pub run_pool-IsOwn :
        (actions : List PoolAction) (p : Pool Session Server)
        → IsSound p
        → All IsOwn (run_pool is_alnum pg actions p).0 × IsSound (run_pool is_alnum pg actions p).1
    unfolding run_pool
    run_pool-IsOwn [] p h = (tt, h)
    run_pool-IsOwn (a ∷ actions) p h =
        let step = step-IsSound a p h in
        let rest = run_pool-IsOwn actions (pool_step is_alnum pg a p).1 step.1 in
        (All-append IsOwn (pool_step is_alnum pg a p).0 _ step.0 rest.0, rest.1)
