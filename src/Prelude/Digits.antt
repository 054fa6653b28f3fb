-- ===== src/Prelude/Digits.antt =====
-- Decimal text of a number, as `strconv.Itoa` and `%d` print it.
use Prim.Native.Nat.{ℕ, zero, suc, ◌+◌, ◌/◌, ◌%◌}
use mathlib.Core.Bool.{true, false}
use mathlib.Core.List.{[], ◌∷◌}
use router_billing.Prelude.Tests.{ltb}
use router_billing.Prelude.Lists.{Text}

-- The digits of `n` in front of `rest`. A number of k digits takes k rounds, so that the fuel
-- `n + 1` of `itoa` is enough.
unfoldable pub itoa_from : ℕ → ℕ → Text → Text
itoa_from zero n rest = rest
itoa_from (suc fuel) n rest = elim (ltb n 10) [
  | true ↦ (48 + n) ∷ rest
  | false ↦ itoa_from fuel (n / 10) ((48 + n % 10) ∷ rest)
]

unfoldable pub itoa : ℕ → Text
unfolding itoa_from
itoa n = itoa_from (n + 1) n []
