-- ===== src/Engine/Keys.antt =====
-- `_execution_key` (app/agent.py), with Python's print of a number.
use aurelian_autonomous_ente.Prelude.{
  ℕ, zero, suc, ◌/◌, ◌%◌, String, [], ◌∷◌, ltb, concat, if◌then◌else◌,
}
use Prim.Native.String.{◌++◌}

unfoldable pub digit : ℕ → String
digit zero = "0"
digit (suc zero) = "1"
digit (suc (suc zero)) = "2"
digit (suc (suc (suc zero))) = "3"
digit (suc (suc (suc (suc zero)))) = "4"
digit (suc (suc (suc (suc (suc zero))))) = "5"
digit (suc (suc (suc (suc (suc (suc zero)))))) = "6"
digit (suc (suc (suc (suc (suc (suc (suc zero))))))) = "7"
digit (suc (suc (suc (suc (suc (suc (suc (suc zero)))))))) = "8"
digit (suc (suc (suc (suc (suc (suc (suc (suc (suc n))))))))) = "9"

-- The digits of `n` before those in `rest`; a number has fewer digits than itself and one more.
unfoldable pub decimal_from : ℕ → ℕ → String → String
decimal_from zero n rest = rest
decimal_from (suc fuel) n rest =
    let more = decimal_from fuel (n / 10) (digit (n % 10) ++ rest) in
    if ltb n 10 then digit n ++ rest else more

-- `str(n)`
unfoldable pub decimal : ℕ → String
unfolding decimal_from digit
decimal n = decimal_from (suc n) n ""

unfoldable pub execution_key : ℕ → String → String → String
execution_key task phase tool = concat (phase ∷ ":" ∷ decimal task ∷ ":" ∷ tool ∷ [])
