-- ===== src/Prelude/Decimal.antt =====
-- The decimal text of a number, as a template literal prints it.
use Prim.Native.Nat.{ℕ, zero, suc, ◌/◌, ◌%◌}
use Prim.Native.String.{String, ◌++◌}
use falda.Prelude.Tests.{ltb, if◌then◌else◌}

abbrev digit : ℕ → String
digit zero = "0"
digit (suc zero) = "1"
digit (suc (suc zero)) = "2"
digit (suc (suc (suc zero))) = "3"
digit (suc (suc (suc (suc zero)))) = "4"
digit (suc (suc (suc (suc (suc zero))))) = "5"
digit (suc (suc (suc (suc (suc (suc zero)))))) = "6"
digit (suc (suc (suc (suc (suc (suc (suc zero))))))) = "7"
digit (suc (suc (suc (suc (suc (suc (suc (suc zero)))))))) = "8"
digit _ = "9"

-- The fuel bounds the number of digits; `n` itself is enough, since each step divides by ten.
decimal_fuel : ℕ → ℕ → String
decimal_fuel zero n = digit (n % 10)
decimal_fuel (suc fuel) n =
    let rest = decimal_fuel fuel (n / 10) in if ltb n 10 then digit n else rest ++ digit (n % 10)

unfoldable pub decimal : ℕ → String
unfolding decimal_fuel
decimal n = decimal_fuel n n
