-- ===== src/User/Pgm.antt =====
-- The PGM files of user/vpipe-common.c. A file is the list of its bytes, and what the code uses of the
-- C library (fprintf and fscanf of %u, fgetc, ungetc, isspace, fread) is written out for such a list.
pub mod Decimal
pub mod Roundtrip
pub mod Diff
use vpipe.Base.{
  ℕ, zero, suc, ◌+◌, ◌-◌, ◌*◌, ◌/◌, ◌%◌, ◌^◌, ◌&&◌, ◌||◌, not, Bool, true, false, Option, none,
  some, List, [], ◌∷◌, ◌++◌, u8, u32, u64, ltb, leb, ◌==◌, if◌then◌else◌, for_range, Bytes, store,
  length, get_or,
}
use vpipe.User.Image.{PgmImage}

-- `isspace` of the C locale.
abbrev pub isspace : ℕ → Bool
isspace c = c == 32 || (leb 9 c && leb c 13)

abbrev pub isdigit : ℕ → Bool
isdigit c = leb 48 c && leb c 57

-- `%u` of `fprintf`, before what is already there; `fuel` digits are enough.
unfoldable pub print_digits : ℕ → ℕ → List ℕ → List ℕ
print_digits zero n acc = acc
print_digits (suc fuel) n acc = elim (ltb n 10) [
  | true ↦ (48 + n) ∷ acc
  | false ↦ print_digits fuel (n / 10) ((48 + n % 10) ∷ acc)
]

-- The digits of a number of 32 bits.
abbrev pub print_uint : ℕ → List ℕ → List ℕ
print_uint n rest = print_digits 10 n rest

-- The digits that `fscanf` reads, after those that gave `value`.
unfoldable pub scan_digits : ℕ → List ℕ → ℕ × List ℕ
scan_digits value [] = (value, [])
scan_digits value (c ∷ cs) = elim (isdigit c) [
  | true ↦ scan_digits (value * 10 + (c - 48)) cs
  | false ↦ (value, c ∷ cs)
]

abbrev scan_number : List ℕ → Option (ℕ × List ℕ)
scan_number [] = none
scan_number (c ∷ cs) = if isdigit c then some (scan_digits 0 (c ∷ cs)) else none

-- The space that `fscanf` skips.
unfoldable pub drop_space : List ℕ → List ℕ
drop_space [] = []
drop_space (c ∷ cs) = elim (isspace c) [ true ↦ drop_space cs | false ↦ c ∷ cs ]

abbrev pub negated : Option (ℕ × List ℕ) → Option (ℕ × List ℕ)
negated none = none
negated (some (n, cs)) = some (u32 (2 ^ 32 - u32 n), cs)

-- A number with its sign.
abbrev scan_signed : List ℕ → Option (ℕ × List ℕ)
scan_signed [] = none
scan_signed (c ∷ cs) =
    if c == 45
    then negated (scan_number cs)
    else if c == 43
    then scan_number cs
    else scan_number (c ∷ cs)

-- `%u` of `fscanf`.
unfoldable pub scan_uint : List ℕ → Option (ℕ × List ℕ)
unfolding scan_digits drop_space
scan_uint cs = scan_signed (drop_space cs)

-- `vpipe_skip_space` and the `ungetc` of its caller: what is left to read. The flag is whether a comment
-- is being skipped.
unfoldable pub skip_space : Bool → List ℕ → List ℕ
skip_space comment [] = []
skip_space true (c ∷ cs) = elim (c == 10) [
  | true ↦ skip_space false cs
  | false ↦ skip_space true cs
]
skip_space false (c ∷ cs) = elim (c == 35) [
  | true ↦ skip_space true cs
  | false ↦ elim (isspace c) [ true ↦ skip_space false cs | false ↦ c ∷ cs ]
]

abbrev pgm_max_dim : ℕ
pgm_max_dim = 4096

-- `fread` into memory that `malloc` gave, or not.
abbrev pub read_pixels : Bool → ℕ → ℕ → List ℕ → Option PgmImage
read_pixels allocated width height cs =
    let size = u64 (width * height) in
    if allocated && leb size (length cs)
    then some (record { width = width; height = height; pixels = λ i. get_or cs i 0; size = size })
    else none

abbrev rest_of : List ℕ → List ℕ
rest_of [] = []
rest_of (c ∷ cs) = cs

abbrev pub read_maxval : Bool → ℕ → ℕ → Option (ℕ × List ℕ) → Option PgmImage
read_maxval allocated width height none = none
read_maxval allocated width height (some (maxval, cs)) =
    if maxval == 255 then read_pixels allocated width height (rest_of cs) else none

abbrev pub bad_dims : ℕ → ℕ → Bool
bad_dims width height = width == 0 || height == 0 || ltb pgm_max_dim width || ltb pgm_max_dim height

abbrev pub read_height : Bool → ℕ → Option (ℕ × List ℕ) → Option PgmImage
read_height allocated width none = none
read_height allocated width (some (height, cs)) =
    if bad_dims width height
    then none
    else read_maxval allocated width height (scan_uint (skip_space false cs))

abbrev pub read_width : Bool → Option (ℕ × List ℕ) → Option PgmImage
read_width allocated none = none
read_width allocated (some (width, cs)) = read_height allocated width (scan_uint cs)

-- `vpipe_read_pgm` on the bytes of a file that could be opened.
unfoldable pub read_pgm : Bool → List ℕ → Option PgmImage
unfolding skip_space scan_uint
read_pgm allocated [] = none
read_pgm allocated (p ∷ []) = none
read_pgm allocated (p ∷ five ∷ cs) =
    if p == 80 && five == 53 then read_width allocated (scan_uint (skip_space false cs)) else none

-- The `n` bytes from the `i`-th on.
unfoldable pub bytes_from : Bytes → ℕ → ℕ → List ℕ
bytes_from data_ i zero = []
bytes_from data_ i (suc n) = data_ i ∷ bytes_from data_ (i + 1) n

-- `vpipe_write_pgm`: the bytes of the file, where it can be opened and written.
unfoldable pub write_pgm : Bytes → ℕ → ℕ → List ℕ
unfolding print_digits bytes_from
write_pgm data_ width height =
    let pixels = bytes_from data_ 0 (u64 (width * height)) in
    80 ∷ 53 ∷ 10 ∷ print_uint width (32 ∷ print_uint height (10 ∷ 50 ∷ 53 ∷ 53 ∷ 10 ∷ pixels))

-- The body of the loop of `vpipe_write_diff_pgm`.
unfoldable pub diff_pixel : PgmImage → PgmImage → ℕ → Bytes → Bytes
diff_pixel lhs rhs i m =
    let a = lhs.pixels i in
    let b = rhs.pixels i in store m i (u8 (if ltb a b then b - a else a - b))

-- The image that `vpipe_write_diff_pgm` writes: `fresh` is what `malloc` returned.
unfoldable pub diff_image : PgmImage → PgmImage → Option Bytes → Option PgmImage
unfolding diff_pixel for_range
diff_image lhs rhs none = none
diff_image lhs rhs (some garbage) =
    if not (lhs.width == rhs.width) || not (lhs.height == rhs.height)
    then none
    else some (record lhs { pixels = for_range lhs.size 0 (diff_pixel lhs rhs) garbage })
