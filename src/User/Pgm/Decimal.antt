-- ===== src/User/Pgm/Decimal.antt =====
-- Numbers printed with %u are read back with %u.
use vpipe.Base.{
  ℕ, zero, suc, ◌+◌, ◌-◌, ◌*◌, ◌/◌, ◌%◌, ◌^◌, ◌≤◌, ◌<◌, ◌≡◌, refl, sym, ap, subst, ◌∙◌, true, false,
  some, List, ◌∷◌, arith, ltb, ◌==◌, Bool-cases, ltb→lt, inl, inr,
}
use vpipe.User.Pgm.{
  isspace, isdigit, print_digits, print_uint, scan_digits, drop_space, scan_uint, skip_space,
}

scan_digits-digit :
    (value c : ℕ) (cs : List ℕ)
    → isdigit c ≡ true
    → scan_digits value (c ∷ cs) ≡ scan_digits (value * 10 + (c - 48)) cs
unfolding scan_digits
scan_digits-digit value c cs h = rw (scan_digits, h) refl

digit-isdigit : (n : ℕ) → n < 10 → isdigit (48 + n) ≡ true
digit-isdigit n h = ground arith

print_digits-small :
    (fuel n : ℕ) (acc : List ℕ) → ltb n 10 ≡ true → print_digits (suc fuel) n acc ≡ (48 + n) ∷ acc
unfolding print_digits
print_digits-small fuel n acc h = rw (print_digits, h) refl

print_digits-large :
    (fuel n : ℕ) (acc : List ℕ)
    → ltb n 10 ≡ false
    → print_digits (suc fuel) n acc ≡ print_digits fuel (n / 10) ((48 + n % 10) ∷ acc)
unfolding print_digits
print_digits-large fuel n acc h = rw (print_digits, h) refl

scan_digits-one :
    (value n : ℕ) (acc : List ℕ)
    → n < 10
    → scan_digits value ((48 + n) ∷ acc) ≡ scan_digits (value * 10 + n) acc
scan_digits-one value n acc h =
    scan_digits-digit value (48 + n) acc (digit-isdigit n h)
    ∙ ap (λ k. scan_digits k acc) (omega arith)

-- Reading what has been printed gives the number, and goes on with what follows.
pub scan_digits-print_digits :
    (fuel n : ℕ) (acc : List ℕ)
    → n < 10 ^ fuel
    → scan_digits 0 (print_digits fuel n acc) ≡ scan_digits n acc
unfolding print_digits
scan_digits-print_digits zero n acc small = ap (λ k. scan_digits k acc) (omega arith)
scan_digits-print_digits (suc fuel) n acc small = elim (Bool-cases (ltb n 10)) [
  | inl e ↦
      ap (scan_digits 0) (print_digits-small fuel n acc e)
      ∙ scan_digits-one 0 n acc (ltb→lt n 10 e)
      ∙ ap (λ k. scan_digits k acc) (omega arith)
  | inr e ↦
      ap (scan_digits 0) (print_digits-large fuel n acc e)
      ∙ scan_digits-print_digits fuel (n / 10) ((48 + n % 10) ∷ acc) (grind arith)
      ∙ scan_digits-one (n / 10) (n % 10) acc (omega arith)
      ∙ ap (λ k. scan_digits k acc) (omega arith)
]

-- The list starts with a digit.
abbrev DigitFirst : List ℕ → Type 0
DigitFirst l = (c : ℕ) × (cs : List ℕ) × (l ≡ c ∷ cs) × (48 ≤ c) × (c ≤ 57)

-- What is printed starts with a digit.
print_digits-first : (fuel n : ℕ) (acc : List ℕ) → DigitFirst (print_digits (suc fuel) n acc)
unfolding print_digits
print_digits-first zero n acc = elim (Bool-cases (ltb n 10)) [
  | inl e ↦ (48 + n, acc, print_digits-small 0 n acc e, omega arith, omega (arith, ltb→lt n 10 e))
  | inr e ↦ (48 + n % 10, acc, print_digits-large 0 n acc e ∙ refl, omega arith, omega arith)
]
print_digits-first (suc fuel) n acc = elim (Bool-cases (ltb n 10)) [
  | inl e ↦ (
    48 + n,
    acc,
    print_digits-small (suc fuel) n acc e,
    omega arith,
    omega (arith, ltb→lt n 10 e),
  )
  | inr e ↦
      subst DigitFirst (sym (print_digits-large (suc fuel) n acc e))
        (print_digits-first fuel (n / 10) ((48 + n % 10) ∷ acc))
]

pub print_uint-first : (n : ℕ) (rest : List ℕ) → DigitFirst (print_uint n rest)
print_uint-first n rest = print_digits-first 9 n rest

skip_digit : (c : ℕ) (cs : List ℕ) → 48 ≤ c → c ≤ 57 → skip_space false (c ∷ cs) ≡ c ∷ cs
unfolding skip_space
skip_digit c cs lo hi =
    let hash : (c == 35) ≡ false = ground arith in
    let space : isspace c ≡ false = ground arith in rw (skip_space, hash, space) refl

scan_digit :
    (c : ℕ) (cs : List ℕ) → 48 ≤ c → c ≤ 57 → scan_uint (c ∷ cs) ≡ some (scan_digits 0 (c ∷ cs))
unfolding scan_uint drop_space
scan_digit c cs lo hi =
    let space : isspace c ≡ false = ground arith in
    let minus : (c == 45) ≡ false = ground arith in
    let plus : (c == 43) ≡ false = ground arith in
    let digit : isdigit c ≡ true = ground arith in
    rw (drop_space, space) (rw (minus, plus, digit) refl)

scan_digits-stop :
    (n c : ℕ) (cs : List ℕ) → isdigit c ≡ false → scan_digits n (c ∷ cs) ≡ (n, c ∷ cs)
unfolding scan_digits
scan_digits-stop n c cs h = rw (scan_digits, h) refl

pub skip_space-print_uint :
    (n : ℕ) (rest : List ℕ) → skip_space false (print_uint n rest) ≡ print_uint n rest
skip_space-print_uint n rest =
    let (c, cs, e, lo, hi) = print_uint-first n rest in
    subst (λ l. skip_space false l ≡ l) (sym e) (skip_digit c cs lo hi)

pub scan_uint-print_uint :
    (n c : ℕ) (rest : List ℕ)
    → n < 10 ^ 10
    → isdigit c ≡ false
    → scan_uint (print_uint n (c ∷ rest)) ≡ some (n, c ∷ rest)
scan_uint-print_uint n c rest small stop =
    let (d, ds, e, lo, hi) = print_uint-first n (c ∷ rest) in
    subst (λ l. scan_uint l ≡ some (scan_digits 0 l)) (sym e) (scan_digit d ds lo hi)
    ∙ ap some (scan_digits-print_digits 10 n (c ∷ rest) small ∙ scan_digits-stop n c rest stop)
