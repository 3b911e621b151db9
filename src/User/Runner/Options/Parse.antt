-- ===== src/User/Runner/Options/Parse.antt =====
-- user/vpipe-vcam-runner.c: which arguments `parse_uint` accepts.
use vpipe.Base.{ℕ, ◌^◌, ◌≤◌, ◌<◌, ◌≡◌, sym, subst, arith, true, false, some, List, [], ◌∷◌, ◌==◌}
use vpipe.User.Pgm.{isspace, isdigit, drop_space, scan_digits, print_uint}
use vpipe.User.Pgm.Decimal.{scan_digits-print_digits, print_uint-first}
use vpipe.User.Runner.Options.{
  Strtoul, strtoul_digits, strtoul_signed, strtoul, in_range, parse_uint,
}

in_range-bounds :
    (least most n : ℕ) (r : Strtoul)
    → most < 2 ^ 32
    → in_range least most r ≡ some n
    → (least ≤ n) × (n ≤ most)
in_range-bounds least most n (v, rest, erange) small e = ground arith

-- What is accepted is in the range that was asked for, if that is one of 32 bits.
pub parse_uint-bounds :
    (s : List ℕ) (least most n : ℕ)
    → most < 2 ^ 32
    → parse_uint s least most ≡ some n
    → (least ≤ n) × (n ≤ most)
unfolding parse_uint
parse_uint-bounds [] least most n small e = cc
parse_uint-bounds (c ∷ cs) least most n small e =
    in_range-bounds least most n (strtoul (c ∷ cs)) small (ground arith)

parse_digit :
    (c : ℕ) (cs : List ℕ) (least most n : ℕ)
    → 48 ≤ c
    → c ≤ 57
    → scan_digits 0 (c ∷ cs) ≡ (n, [])
    → least ≤ n
    → n ≤ most
    → most < 2 ^ 32
    → parse_uint (c ∷ cs) least most ≡ some n
unfolding parse_uint strtoul strtoul_signed strtoul_digits drop_space
parse_digit c cs least most n lo hi e h k small =
    let space : isspace c ≡ false = ground arith in
    let minus : (c == 45) ≡ false = ground arith in
    let plus : (c == 43) ≡ false = ground arith in
    let digit : isdigit c ≡ true = ground arith in
    rw (minus, drop_space, space) (rw (minus, plus, digit, e) (ground arith))

-- A number that is printed is read again, if it is in the range that is asked for: one of 32 bits.
parse_uint-print_uint :
    (n least most : ℕ)
    → least ≤ n
    → n ≤ most
    → most < 2 ^ 32
    → parse_uint (print_uint n []) least most ≡ some n
unfolding scan_digits
parse_uint-print_uint n least most h k small =
    let (c, cs, e, lo, hi) = print_uint-first n [] in
    let all : scan_digits 0 (print_uint n []) ≡ (n, []) =
      scan_digits-print_digits 10 n [] (omega arith) in
    subst (λ l. parse_uint l least most ≡ some n) (sym e)
      (parse_digit c cs least most n lo hi (subst (λ l. scan_digits 0 l ≡ (n, [])) e all) h k small)
