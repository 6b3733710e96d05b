-- ===== src/World/Effects.antt =====
-- A handler as a function of the world that returns or raises. What was written before a raise stays
-- written: each statement commits by itself (app/database.py).
use aurelian_autonomous_ente.Prelude.{ℕ, suc}
use aurelian_autonomous_ente.Result.{Exception, Result, ok, raised}
use aurelian_autonomous_ente.World.Rows.{World}

abbrev pub Effect : Type 0 → Type 0
Effect A = World → Result A × World

module _ {A : Type 0} where
  abbrev pub pure : A → Effect A
  pure a w = (ok a, w)

  abbrev pub raise : Exception → Effect A
  raise e w = (raised e, w)

  -- `try: ... except Exception as e: ...`: the outcome as a value
  abbrev pub attempt : Effect A → Effect (Result A)
  attempt m w = let (r, w') = m w in (ok r, w')

  abbrev pub lift : Result A → Effect A
  lift r w = (r, w)

module _ {A B : Type 0} where
  abbrev pub go_on : Result A → (A → Effect B) → Effect B
  go_on (ok a) f w = f a w
  go_on (raised e) f w = (raised e, w)

  infixl 5 ◌>>=◌ ◌>>◌
  unfoldable pub ◌>>=◌ : Effect A → (A → Effect B) → Effect B
  ◌>>=◌ m f w = let (r, w') = m w in go_on r f w'

  abbrev pub ◌>>◌ : Effect A → Effect B → Effect B
  m >> n = m >>= λ _. n

-- How a statement can end: it is done, it fails with no effect, or it takes effect and the reply
-- is lost.
pub data Fault : Type 0 where
  done : Fault
  refused reply_lost : Exception → Fault

abbrev pub advance : World → World
advance w = record w { tick = suc w.tick }

module _ {A : Type 0} where
  abbrev pub commit : Fault → (World → A × World) → Effect A
  commit done f w = let (a, w') = f w in (ok a, w')
  commit (refused e) f w = (raised e, w)
  commit (reply_lost e) f w = let (a, w') = f w in (raised e, w')

  -- One statement, run by itself in a transaction.
  unfoldable pub statement : (ℕ → Fault) → (World → A × World) → Effect A
  statement fault f w = commit (fault w.tick) f (advance w)

  -- A question to something outside, whose answer may differ each time.
  unfoldable pub outside : (ℕ → Result A) → Effect A
  outside answer w = (answer w.tick, advance w)
