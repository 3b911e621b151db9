-- ===== src/Base/Words.antt =====
-- Machine words as native numbers, with their wrap-around written out.
use Prim.Native.Nat.{ℕ, ◌+◌, ◌-◌, ◌/◌, ◌%◌, ◌^◌}
use mathlib.Core.Bool.{Bool}
use vpipe.Base.Tests.{ltb, ◌==◌, if◌then◌else◌}
use vpipe.Base.Int.{ℤ, pos, negsuc}

abbrev pub u32 : ℕ → ℕ
u32 n = n % 2 ^ 32

abbrev pub u64 : ℕ → ℕ
u64 n = n % 2 ^ 64

abbrev pub u8 : ℕ → ℕ
u8 n = n % 256

-- (s32) of a u32.
unfoldable pub to_s32 : ℕ → ℤ
to_s32 w = if ltb w (2 ^ 31) then pos w else negsuc (2 ^ 32 - w - 1)

-- (u32) of an s32.
abbrev pub to_u32 : ℤ → ℕ
to_u32 (pos n) = n % 2 ^ 32
to_u32 (negsuc n) = 2 ^ 32 - 1 - n % 2 ^ 32

-- `flags & (1U << k)`, as a truth value.
abbrev pub has_bit : ℕ → ℕ → Bool
has_bit flags k = flags / 2 ^ k % 2 == 1

-- `flags | (1U << k)`: the one bit is added if it is not there.
abbrev pub set_bit : ℕ → ℕ → ℕ
set_bit flags k = if flags / 2 ^ k % 2 == 1 then flags else flags + 2 ^ k
