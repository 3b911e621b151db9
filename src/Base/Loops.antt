-- ===== src/Base/Loops.antt =====
-- `for (k = i; k < i + n; k++) s = body k s`, by recursion on the rounds that are left.
use Prim.Native.Nat.{ℕ, zero, suc, ◌+◌}

unfoldable pub for_range {ℓ} : {State : Type ℓ} → ℕ → ℕ → (ℕ → State → State) → State → State
for_range zero k step start = start
for_range (suc rounds) k step start = for_range rounds (k + 1) step (step k start)
