-- ===== src/Base/Bits.antt =====
-- The exclusive or of words. The native operation stands for a recursion on binary digits; here are its
-- law for the lowest digit and what follows by induction on the digits.
use Prim.Native.Nat.{
  ℕ, zero, suc, ◌+◌, ◌*◌, ◌/◌, ◌%◌, ◌^◌, ◌≤◌, ◌<◌, digits, differ, bit_xor-bitwise,
}
pub use Prim.Native.Nat.{bit_xor}
use mathlib.Core.Path.{◌≡◌, refl, sym, ap, ◌∙◌}
use native.Mathlib.Omega.{arith}
use native.Mathlib.Nat.{pow-suc}

module _ (rest : ℕ → ℕ) (op : ℕ → ℕ → ℕ) where
  -- More fuel than the first number changes nothing.
  digits_fuel : (k l x y : ℕ) → x ≤ k → x ≤ l → digits rest op k x y ≡ digits rest op l x y
  digits_fuel zero zero x y small small' = refl
  digits_fuel zero (suc l) zero y small small' = refl
  digits_fuel zero (suc l) (suc x) y small small' = absurd (omega arith)
  digits_fuel (suc k) zero zero y small small' = refl
  digits_fuel (suc k) zero (suc x) y small small' = absurd (omega arith)
  digits_fuel (suc k) (suc l) zero y small small' = refl
  digits_fuel (suc k) (suc l) (suc x) y small small' =
      rw (digits_fuel k l (suc x / 2) (y / 2) (omega arith) (omega arith)) refl

-- The exclusive or of two digits is their sum without the carry.
differ_lem : (x y : ℕ) → x < 2 → y < 2 → differ x y ≡ (x + y) % 2
differ_lem zero zero h h' = refl
differ_lem zero (suc zero) h h' = refl
differ_lem (suc zero) zero h h' = refl
differ_lem (suc zero) (suc zero) h h' = refl
differ_lem (suc (suc x)) y h h' = absurd (omega arith)
differ_lem x (suc (suc y)) h h' = absurd (omega arith)

pub bit_xor_step : (x y : ℕ) → bit_xor x y ≡ bit_xor (x / 2) (y / 2) * 2 + (x % 2 + y % 2) % 2
bit_xor_step zero y = simp bit_xor-bitwise (omega arith)
bit_xor_step (suc x) y = simp bit_xor-bitwise (
    omega (
      arith,
      digits_fuel (λ b. b) differ x (suc x / 2) (suc x / 2) (y / 2) (omega arith) (omega arith),
      differ_lem (suc x % 2) (y % 2) (omega arith) (omega arith),
    ))

-- The lowest digit, and the others.
pub bit_xor-mod : (x y : ℕ) → bit_xor x y % 2 ≡ (x % 2 + y % 2) % 2
bit_xor-mod x y = omega (arith, bit_xor_step x y)

pub bit_xor-half : (x y : ℕ) → bit_xor x y / 2 ≡ bit_xor (x / 2) (y / 2)
bit_xor-half x y = omega (arith, bit_xor_step x y)

-- Two numbers are the same if their digits are: here by the half and the lowest one.
half_ext : (m n : ℕ) → m / 2 ≡ n / 2 → m % 2 ≡ n % 2 → m ≡ n
half_ext m n h l = omega arith

abbrev Associates : ℕ → ℕ → ℕ → Type 0
Associates x y z = bit_xor (bit_xor x y) z ≡ bit_xor x (bit_xor y z)

assoc_half :
    (x y z : ℕ)
    → Associates (x / 2) (y / 2) (z / 2)
    → bit_xor (bit_xor x y) z / 2 ≡ bit_xor x (bit_xor y z) / 2
assoc_half x y z ih =
    bit_xor-half (bit_xor x y) z
    ∙ ap (λ t. bit_xor t (z / 2)) (bit_xor-half x y)
    ∙ ih
    ∙ ap (bit_xor (x / 2)) (sym (bit_xor-half y z))
    ∙ sym (bit_xor-half x (bit_xor y z))

assoc_mod : (x y z : ℕ) → bit_xor (bit_xor x y) z % 2 ≡ bit_xor x (bit_xor y z) % 2
assoc_mod x y z = omega (
  arith,
  bit_xor-mod (bit_xor x y) z,
  bit_xor-mod x y,
  bit_xor-mod x (bit_xor y z),
  bit_xor-mod y z,
)

comm_below : (n x y : ℕ) → x ≤ n → y ≤ n → bit_xor x y ≡ bit_xor y x
comm_below zero zero zero h h' = refl
comm_below zero (suc x) y h h' = absurd (omega arith)
comm_below zero x (suc y) h h' = absurd (omega arith)
comm_below (suc n) x y h h' = omega (
  arith,
  bit_xor_step x y,
  bit_xor_step y x,
  comm_below n (x / 2) (y / 2) (omega arith) (omega arith),
)

assoc_below : (n x y z : ℕ) → x ≤ n → y ≤ n → z ≤ n → Associates x y z
assoc_below zero x y z h h' h'' = zeros x y z (omega arith) (omega arith) (omega arith)
  where
    zeros : (x y z : ℕ) → x ≡ 0 → y ≡ 0 → z ≡ 0 → Associates x y z
    zeros zero zero zero e e' e'' = refl
    zeros (suc x) y z e e' e'' = absurd (omega arith)
    zeros x (suc y) z e e' e'' = absurd (omega arith)
    zeros x y (suc z) e e' e'' = absurd (omega arith)
assoc_below (suc n) x y z h h' h'' =
    half_ext (bit_xor (bit_xor x y) z) (bit_xor x (bit_xor y z))
      (assoc_half x y z
        (assoc_below n (x / 2) (y / 2) (z / 2) (omega arith) (omega arith) (omega arith)))
      (assoc_mod x y z)

self_below : (n x : ℕ) → x ≤ n → bit_xor x x ≡ 0
self_below zero zero h = refl
self_below zero (suc x) h = absurd (omega arith)
self_below (suc n) x h = omega (arith, bit_xor_step x x, self_below n (x / 2) (omega arith))

pub bit_xor_comm : (x y : ℕ) → bit_xor x y ≡ bit_xor y x
bit_xor_comm x y = comm_below (x + y) x y (omega arith) (omega arith)

pub bit_xor_assoc : (x y z : ℕ) → bit_xor (bit_xor x y) z ≡ bit_xor x (bit_xor y z)
bit_xor_assoc x y z = assoc_below (x + y + z) x y z (omega arith) (omega arith) (omega arith)

pub bit_xor_self : (x : ℕ) → bit_xor x x ≡ 0
bit_xor_self x = self_below x x (omega arith)

pub zero-bit_xor : (x : ℕ) → bit_xor 0 x ≡ x
zero-bit_xor x = bit_xor-bitwise 0 x

pub bit_xor-zero : (x : ℕ) → bit_xor x 0 ≡ x
bit_xor-zero x = bit_xor_comm x 0 ∙ zero-bit_xor x

pub bit_xor-left_comm : (x y z : ℕ) → bit_xor x (bit_xor y z) ≡ bit_xor y (bit_xor x z)
bit_xor-left_comm x y z =
    sym (bit_xor_assoc x y z) ∙ ap (λ t. bit_xor t z) (bit_xor_comm x y) ∙ bit_xor_assoc y x z

pub bit_xor-cancel : (x y : ℕ) → bit_xor x (bit_xor x y) ≡ y
bit_xor-cancel x y =
    sym (bit_xor_assoc x x y) ∙ ap (λ t. bit_xor t y) (bit_xor_self x) ∙ zero-bit_xor y

pub mul-pow_suc : (n k : ℕ) → n * 2 ^ suc k ≡ n * 2 ^ k * 2
mul-pow_suc n k = omega (arith, ap (λ (t : ℕ). n * t) (pow-suc 2 k))

-- A number is its `k` low digits and the others.
pub bit_xor_fields :
    (k low high : ℕ) → low < 2 ^ k → bit_xor low (high * 2 ^ k) ≡ high * 2 ^ k + low
bit_xor_fields zero low high h = ground (arith, zero-bit_xor high)
bit_xor_fields (suc k) low high h = omega (
  arith,
  bit_xor_step low (high * 2 ^ suc k),
  ap (bit_xor (low / 2)) half,
  bit_xor_fields k (low / 2) high (omega (arith, pow-suc 2 k)),
  double,
)
  where
    double : high * 2 ^ suc k ≡ high * 2 ^ k * 2
    double = mul-pow_suc high k

    half : high * 2 ^ suc k / 2 ≡ high * 2 ^ k
    half = omega (arith, double)
