-- ===== src/Base/Memory.antt =====
-- The bytes of one buffer, by their offset. A frame is a window of such a memory; that nothing
-- beyond a frame is written is a theorem and no convention.
use Prim.Native.Nat.{ℕ, ◌+◌, ◌-◌}
use mathlib.Core.Bool.{◌&&◌}
use vpipe.Base.Tests.{ltb, leb, ◌==◌, if◌then◌else◌}

abbrev pub Bytes : Type 0
Bytes = ℕ → ℕ

-- `m[p] = v`
abbrev pub store : Bytes → ℕ → ℕ → Bytes
store m p v q = if p == q then v else m q

-- `memcpy(dst + d, src + s, n)` between two buffers
abbrev pub memcpy : Bytes → ℕ → Bytes → ℕ → ℕ → Bytes
memcpy dst d src s n q = if leb d q && ltb q (d + n) then src (s + (q - d)) else dst q
