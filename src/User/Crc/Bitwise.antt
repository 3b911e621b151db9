-- ===== src/User/Crc/Bitwise.antt =====
-- user/vpipe-common.c: the table is a shortcut for eight steps on single bits.
use vpipe.Base.{
  ℕ, zero, suc, ◌+◌, ◌-◌, ◌*◌, ◌/◌, ◌%◌, ◌^◌, ◌<◌, ◌≤◌, ◌⊎◌, ◌≡◌, refl, sym, ap, ap₂, ◌∙◌, true,
  inl, inr, arith, Bytes, for_range, Bool-cases, bit_xor, bit_xor-half, bit_xor-mod, bit_xor_assoc,
  bit_xor-left_comm, bit_xor-cancel, bit_xor_fields, bit_xor-zero, mul-pow_suc,
}
use vpipe.User.Crc.{
  crc32_poly, crc32_bit, crc32_bits, CrcTable, crc32_entry, vpipe_crc32_init, crc32_byte, not32,
  vpipe_crc32,
}

crc32_bit-odd : (b x : ℕ) → x % 2 ≡ 1 → crc32_bit b x ≡ bit_xor crc32_poly (x / 2)
crc32_bit-odd b x h = ground arith

crc32_bit-even : (b x : ℕ) → x % 2 ≡ 0 → crc32_bit b x ≡ x / 2
crc32_bit-even b x h = ground arith

-- Both digits are set: the two polynomials cancel.
cancel_both : (c x y : ℕ) → bit_xor x y ≡ bit_xor (bit_xor c x) (bit_xor c y)
cancel_both c x y =
    sym (bit_xor-cancel c (bit_xor x y))
    ∙ ap (bit_xor c) (bit_xor-left_comm c x y)
    ∙ sym (bit_xor_assoc c x (bit_xor c y))

parity : (x : ℕ) → (x % 2 ≡ 1) ⊎ (x % 2 ≡ 0)
parity x = ground arith

-- A step on an exclusive or is the exclusive or of the steps.
crc32_bit-xor : (b x y : ℕ) → crc32_bit b (bit_xor x y) ≡ bit_xor (crc32_bit b x) (crc32_bit b y)
crc32_bit-xor b x y =
    let half = bit_xor-half x y in
    let lowest = bit_xor-mod x y in
    elim (parity x) [
      | inl odd ↦ elim (parity y) [
        | inl odd' ↦
            crc32_bit-even b (bit_xor x y) (omega arith)
            ∙ half
            ∙ cancel_both crc32_poly (x / 2) (y / 2)
            ∙ ap₂ bit_xor (sym (crc32_bit-odd b x odd)) (sym (crc32_bit-odd b y odd'))
        | inr even' ↦
            crc32_bit-odd b (bit_xor x y) (omega arith)
            ∙ ap (bit_xor crc32_poly) half
            ∙ sym (bit_xor_assoc crc32_poly (x / 2) (y / 2))
            ∙ ap₂ bit_xor (sym (crc32_bit-odd b x odd)) (sym (crc32_bit-even b y even'))
      ]
      | inr even ↦ elim (parity y) [
        | inl odd' ↦
            crc32_bit-odd b (bit_xor x y) (omega arith)
            ∙ ap (bit_xor crc32_poly) half
            ∙ bit_xor-left_comm crc32_poly (x / 2) (y / 2)
            ∙ ap₂ bit_xor (sym (crc32_bit-even b x even)) (sym (crc32_bit-odd b y odd'))
        | inr even' ↦
            crc32_bit-even b (bit_xor x y) (omega arith)
            ∙ half
            ∙ ap₂ bit_xor (sym (crc32_bit-even b x even)) (sym (crc32_bit-even b y even'))
      ]
    ]

bits-xor :
    (n b x y : ℕ)
    → for_range n b crc32_bit (bit_xor x y)
      ≡ bit_xor (for_range n b crc32_bit x) (for_range n b crc32_bit y)
unfolding for_range
bits-xor zero b x y = refl
bits-xor (suc n) b x y =
    ap (for_range n (b + 1) crc32_bit) (crc32_bit-xor b x y)
    ∙ bits-xor n (b + 1) (crc32_bit b x) (crc32_bit b y)

-- As many steps as there are zeros at the end move the number down.
bits-shift : (n b high : ℕ) → for_range n b crc32_bit (high * 2 ^ n) ≡ high
unfolding for_range
bits-shift zero b high = omega arith
bits-shift (suc n) b high =
    ap (for_range n (b + 1) crc32_bit)
      (crc32_bit-even b (high * 2 ^ suc n) (omega (arith, double)) ∙ omega (arith, double))
    ∙ bits-shift n (b + 1) high
  where
    double : high * 2 ^ suc n ≡ high * 2 ^ n * 2
    double = mul-pow_suc high n

-- The eight steps for a byte on a checksum: the low digits go through the table, the others move down.
crc32_bits-fields :
    (low high : ℕ) → low < 256 → crc32_bits (high * 256 + low) ≡ bit_xor (crc32_bits low) high
unfolding crc32_bits
crc32_bits-fields low high h =
    ap (for_range 8 0 crc32_bit) (sym (bit_xor_fields 8 low high h))
    ∙ bits-xor 8 0 low (high * 256)
    ∙ ap (bit_xor (for_range 8 0 crc32_bit low)) (bits-shift 8 0 high)

-- The table of the code is what `vpipe_crc32_init` makes of it, if it is said to be ready.
abbrev pub IsTable : CrcTable → Type 0
IsTable t = t.ready ≡ true → (i : ℕ) → i < 256 → t.table i ≡ crc32_bits i

fill_above : (n i j : ℕ) (table : Bytes) → j < i → for_range n i crc32_entry table j ≡ table j
unfolding for_range
fill_above zero i j table h = refl
fill_above (suc n) i j table h = ground (arith, fill_above n (i + 1) j (crc32_entry i table))

fill_entry :
    (n i j : ℕ) (table : Bytes)
    → i ≤ j
    → j < i + n
    → for_range n i crc32_entry table j ≡ crc32_bits j
unfolding for_range
fill_entry zero i j table h h' = absurd (omega arith)
fill_entry (suc n) i j table h h' = ground (
  arith,
  fill_entry n (i + 1) j (crc32_entry i table),
  fill_above n (i + 1) j (crc32_entry i table),
)

vpipe_crc32_init-entry :
    (t : CrcTable) (i : ℕ) → IsTable t → i < 256 → (vpipe_crc32_init t).table i ≡ crc32_bits i
unfolding vpipe_crc32_init
vpipe_crc32_init-entry t i h small = elim (Bool-cases t.ready) [
  | inl ready ↦ rw ready (h ready i small)
  | inr fresh ↦ rw fresh (fill_entry 256 0 i t.table (omega arith) small)
]

-- One byte, without the table: eight steps.
abbrev bitwise_byte : Bytes → ℕ → ℕ → ℕ
bitwise_byte p i crc = crc32_bits (bit_xor crc (p i))

-- CRC-32 without a table.
unfoldable pub crc32_bitwise : Bytes → ℕ → ℕ
unfolding for_range crc32_bits
crc32_bitwise p len = not32 (for_range len 0 (bitwise_byte p) (2 ^ 32 - 1))

four_halves : (x : ℕ) → x / 2 / 2 / 2 / 2 ≡ x / 16
four_halves x = omega arith

bit_xor-sixteenth : (x y : ℕ) → bit_xor x y / 16 ≡ bit_xor (x / 16) (y / 16)
bit_xor-sixteenth x y = omega (
  arith,
  bit_xor-half x y,
  bit_xor-half (x / 2) (y / 2),
  bit_xor-half (x / 2 / 2) (y / 2 / 2),
  bit_xor-half (x / 2 / 2 / 2) (y / 2 / 2 / 2),
  ap₂ bit_xor (four_halves x) (four_halves y),
)

-- A byte leaves the other digits as they are.
byte_quotient : (crc byte : ℕ) → byte < 256 → bit_xor crc byte / 256 ≡ crc / 256
byte_quotient crc byte h = omega (
  arith,
  bit_xor-sixteenth crc byte,
  bit_xor-sixteenth (crc / 16) (byte / 16),
  ap (bit_xor (crc / 16 / 16)) nothing,
  bit_xor-zero (crc / 16 / 16),
)
  where
    nothing : byte / 16 / 16 ≡ 0
    nothing = omega arith

crc32_byte-bitwise :
    (table p : Bytes) (i crc : ℕ)
    → ((k : ℕ) → k < 256 → table k ≡ crc32_bits k)
    → p i < 256
    → crc32_byte table p i crc ≡ bitwise_byte p i crc
crc32_byte-bitwise table p i crc entries small =
    ap₂ bit_xor (entries (x % 256) (omega arith)) (sym (byte_quotient crc (p i) small))
    ∙ sym (crc32_bits-fields (x % 256) (x / 256) (omega arith))
    ∙ ap crc32_bits (omega arith)
  where
    x : ℕ
    x = bit_xor crc (p i)

bytes-bitwise :
    (table p : Bytes) (n i crc : ℕ)
    → ((k : ℕ) → k < 256 → table k ≡ crc32_bits k)
    → ((k : ℕ) → p k < 256)
    → for_range n i (crc32_byte table p) crc ≡ for_range n i (bitwise_byte p) crc
unfolding for_range
bytes-bitwise table p zero i crc entries small = refl
bytes-bitwise table p (suc n) i crc entries small =
    bytes-bitwise table p n (i + 1) (crc32_byte table p i crc) entries small
    ∙ ap (for_range n (i + 1) (bitwise_byte p)) (crc32_byte-bitwise table p i crc entries (small i))

vpipe_crc32_init-IsTable : (t : CrcTable) → IsTable t → IsTable (vpipe_crc32_init t)
vpipe_crc32_init-IsTable t h _ i small = vpipe_crc32_init-entry t i h small

-- The checksum that the table gives is the one without a table, and the table is one for the next call too:
-- if the table is not yet built, or what building it gives.
pub vpipe_crc32-bitwise :
    (t : CrcTable) (p : Bytes) (len : ℕ)
    → IsTable t
    → ((k : ℕ) → p k < 256)
    → ((vpipe_crc32 t p len).1 ≡ crc32_bitwise p len) × IsTable (vpipe_crc32 t p len).0
unfolding vpipe_crc32 crc32_bitwise
vpipe_crc32-bitwise t p len h small = (
  ap not32 (
      bytes-bitwise (vpipe_crc32_init t).table p len 0 (2 ^ 32 - 1)
        (λ k. vpipe_crc32_init-entry t k h) small),
  vpipe_crc32_init-IsTable t h,
)
