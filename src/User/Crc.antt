-- ===== src/User/Crc.antt =====
-- user/vpipe-common.c: the checksum of a frame, by a table that is built at the first call.
pub mod Bitwise
use vpipe.Base.{
  ℕ, ◌+◌, ◌-◌, ◌/◌, ◌%◌, ◌^◌, ◌==◌, Bool, true, false, u8, Bytes, store, for_range, if◌then◌else◌,
  bit_xor,
}

-- The reversed polynomial of CRC-32.
abbrev pub crc32_poly : ℕ
crc32_poly = 0xedb88320

-- The body of the inner loop of `vpipe_crc32_init`.
abbrev pub crc32_bit : ℕ → ℕ → ℕ
crc32_bit bit c = if c % 2 == 1 then bit_xor crc32_poly (c / 2) else c / 2

-- `crc32_table` and `crc32_ready`
pub record CrcTable : Type 0 where
  pub table : Bytes
  pub ready : Bool

-- The inner loop.
unfoldable pub crc32_bits : ℕ → ℕ
unfolding for_range
crc32_bits c = for_range 8 0 crc32_bit c

-- The body of the outer loop: the entry of `i`.
abbrev pub crc32_entry : ℕ → Bytes → Bytes
crc32_entry i table = store table i (crc32_bits i)

-- `vpipe_crc32_init`
unfoldable pub vpipe_crc32_init : CrcTable → CrcTable
unfolding for_range crc32_bits
vpipe_crc32_init t =
    if t.ready then t else (record { table = for_range 256 0 crc32_entry t.table; ready = true })

-- The body of the loop of `vpipe_crc32`.
abbrev pub crc32_byte : Bytes → Bytes → ℕ → ℕ → ℕ
crc32_byte table p i crc = bit_xor (table (u8 (bit_xor crc (p i)))) (crc / 256)

-- `~crc` of a 32-bit word
abbrev pub not32 : ℕ → ℕ
not32 crc = 2 ^ 32 - 1 - crc % 2 ^ 32

-- `vpipe_crc32` over the `len` bytes at `p`: the table as the call leaves it, and the checksum.
unfoldable pub vpipe_crc32 : CrcTable → Bytes → ℕ → CrcTable × ℕ
unfolding for_range vpipe_crc32_init crc32_bits
vpipe_crc32 t p len =
    let ready = vpipe_crc32_init t in
    (ready, not32 (for_range len 0 (crc32_byte ready.table p) (2 ^ 32 - 1)))
