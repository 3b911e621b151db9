-- ===== src/User/Runner/Options.antt =====
-- user/vpipe-vcam-runner.c: the options of the program and its exit code. A string is the list of its
-- characters; what the code uses of strtoul is written out for such a list.
pub mod Parse
pub mod Chosen
pub mod Main
use vpipe.Base.{
  ℕ, zero, suc, ◌+◌, ◌-◌, ◌%◌, ◌^◌, ◌&&◌, ◌||◌, not, Bool, true, false, Option, none, some, List,
  [], ◌∷◌, ◌++◌, ltb, ◌==◌, u32, take, if◌then◌else◌,
}
use vpipe.User.Pgm.{isdigit, drop_space, scan_digits}
use vpipe.User.Calls.{Kernel}
use vpipe.User.Crc.{CrcTable}
use vpipe.User.Runner.Run.{
  SourceKind, src_fixture, src_vcam, BufferKind, buf_mmap, buf_dmabuf, Config, Run, max_queue_depth,
}
use vpipe.User.Runner.Loop.{is_vcam, run_one}

-- What strtoul gives: the value, what is left of the string, and whether `errno` is ERANGE.
abbrev pub Strtoul : Type 0
Strtoul = ℕ × List ℕ × Bool

abbrev from_digits : Bool → ℕ × List ℕ → Strtoul
from_digits negative (n, rest) =
    let least = 2 ^ 64 - n % 2 ^ 64 in
    (if negative then least % 2 ^ 64 else n, rest, ltb (2 ^ 64 - 1) n)

-- Without a digit nothing is converted, and the whole string `s` is left.
unfoldable pub strtoul_digits : List ℕ → Bool → List ℕ → Strtoul
unfolding scan_digits
strtoul_digits s negative [] = (0, s, false)
strtoul_digits s negative (c ∷ cs) =
    if isdigit c then from_digits negative (scan_digits 0 (c ∷ cs)) else (0, s, false)

unfoldable pub strtoul_signed : List ℕ → List ℕ → Strtoul
unfolding strtoul_digits
strtoul_signed s [] = (0, s, false)
strtoul_signed s (c ∷ cs) =
    if c == 45
    then strtoul_digits s true cs
    else if c == 43
    then strtoul_digits s false cs
    else strtoul_digits s false (c ∷ cs)

unfoldable pub strtoul : List ℕ → Strtoul
unfolding drop_space strtoul_signed
strtoul s = strtoul_signed s (drop_space s)

abbrev pub is_empty : List ℕ → Bool
is_empty [] = true
is_empty (c ∷ cs) = false

abbrev pub in_range : ℕ → ℕ → Strtoul → Option ℕ
in_range least most (v, rest, erange) =
    if erange || not (is_empty rest) || ltb v least || ltb most v then none else some (u32 v)

-- `parse_uint`: none for a return of -1.
unfoldable pub parse_uint : List ℕ → ℕ → ℕ → Option ℕ
unfolding strtoul
parse_uint [] least most = none
parse_uint (c ∷ cs) least most = if c == 45 then none else in_range least most (strtoul (c ∷ cs))

-- An option that getopt_long returns, with its argument.
pub data Opt : Type 0 where
  opt_frames opt_fps opt_queue_depth opt_buffer opt_source opt_csv opt_device : List ℕ → Opt
  opt_compare opt_verify_pattern opt_help opt_unknown : Opt

-- The variables that the options set.
pub record Choice : Type 0 where
  pub cfg : Config
  pub buffer : BufferKind
  pub compare : Bool

-- An option leads on, or the program returns.
pub data Parsed : Type 0 where
  chosen : Choice → Parsed
  returns : ℕ → Parsed

-- `strcmp(a, b) == 0`
abbrev pub same_string : List ℕ → List ℕ → Bool
same_string [] [] = true
same_string (a ∷ as') (b ∷ bs) = let rest = same_string as' bs in a == b && rest
same_string l m = false

abbrev or_invalid : Option ℕ → (ℕ → Choice) → Parsed
or_invalid none set = returns 2
or_invalid (some n) set = chosen (set n)

abbrev pub mmap_word : List ℕ
mmap_word = 109 ∷ 109 ∷ 97 ∷ 112 ∷ []

abbrev pub dmabuf_word : List ℕ
dmabuf_word = 100 ∷ 109 ∷ 97 ∷ 98 ∷ 117 ∷ 102 ∷ []

abbrev pub fixture_word : List ℕ
fixture_word = 102 ∷ 105 ∷ 120 ∷ 116 ∷ 117 ∷ 114 ∷ 101 ∷ []

abbrev pub vcam_word : List ℕ
vcam_word = 118 ∷ 99 ∷ 97 ∷ 109 ∷ []

-- The cases of the switch.
unfoldable pub apply_option : Choice → Opt → Parsed
unfolding parse_uint
apply_option c (opt_frames s) =
    or_invalid (parse_uint s 1 (2 ^ 32 - 1)) (λ n. record c { cfg = record c.cfg { frames = n } })
apply_option c (opt_fps s) =
    or_invalid (parse_uint s 0 1000) (λ n. record c { cfg = record c.cfg { fps = n } })
apply_option c (opt_queue_depth s) =
    or_invalid (parse_uint s 2 max_queue_depth)
      (λ n. record c { cfg = record c.cfg { queue_depth = n } })
apply_option c (opt_buffer s) =
    if same_string s mmap_word
    then chosen (record c { buffer = buf_mmap })
    else if same_string s dmabuf_word
    then chosen (record c { buffer = buf_dmabuf })
    else returns 2
apply_option c (opt_source s) =
    if same_string s fixture_word
    then chosen (record c { cfg = record c.cfg { source = src_fixture } })
    else if same_string s vcam_word
    then chosen (record c { cfg = record c.cfg { source = src_vcam } })
    else returns 2
apply_option c (opt_csv s) = chosen (record c { cfg = record c.cfg { csv = s } })
apply_option c (opt_device s) = chosen (record c { cfg = record c.cfg { device = s } })
apply_option c opt_compare = chosen (record c { compare = true })
apply_option c opt_verify_pattern =
    chosen (record c { cfg = record c.cfg { verify_pattern = true } })
apply_option c opt_help = returns 0
apply_option c opt_unknown = returns 2

-- The loop over the options.
unfoldable pub parse_options : Choice → List Opt → Parsed
unfolding apply_option
parse_options c [] = chosen c
parse_options c (o ∷ os) = elim (apply_option c o) [
  | chosen c' ↦ parse_options c' os
  | returns code ↦ returns code
]

-- The variables at the start; the names of the device and of the file are arguments.
abbrev pub default_choice : List ℕ → List ℕ → Choice
default_choice device csv = record {
  cfg = record {
    frames = 300;
    fps = 0;
    queue_depth = 4;
    source = src_vcam;
    verify_pattern = false;
    device = device;
    csv = csv;
  };
  buffer = buf_mmap;
  compare = false;
}

abbrev pub is_dmabuf : BufferKind → Bool
is_dmabuf buf_mmap = false
is_dmabuf buf_dmabuf = true

-- The runs that were made, the first one first, and the exit code.
abbrev pub Exit : Type 0
Exit = List Run × ℕ

abbrev pub dot_mmap_csv : List ℕ
dot_mmap_csv = 46 ∷ 109 ∷ 109 ∷ 97 ∷ 112 ∷ 46 ∷ 99 ∷ 115 ∷ 118 ∷ []

abbrev pub dot_dmabuf_csv : List ℕ
dot_dmabuf_csv = 46 ∷ 100 ∷ 109 ∷ 97 ∷ 98 ∷ 117 ∷ 102 ∷ 46 ∷ 99 ∷ 115 ∷ 118 ∷ []

-- `snprintf` into an array of PATH_MAX characters.
abbrev pub path_of : List ℕ → List ℕ → List ℕ
path_of csv suffix = take (4096 - 1) (csv ++ suffix)

-- `--compare`: a run of each kind, one frame at a time. `first` and `second` answer the calls of each.
unfoldable pub run_both : Kernel → Kernel → Config → CrcTable → Exit
unfolding run_one
run_both first second cfg crc =
    let mmap_st = run_one first cfg buf_mmap (path_of cfg.csv dot_mmap_csv) 1 crc in
    let dmabuf_st = run_one second cfg buf_dmabuf (path_of cfg.csv dot_dmabuf_csv) 1 mmap_st.crc in
    (mmap_st ∷ dmabuf_st ∷ [], if mmap_st.st.ok && dmabuf_st.st.ok then 0 else 1)

unfoldable pub run_single : Kernel → Choice → CrcTable → Exit
unfolding run_one
run_single kernel c crc =
    let st = run_one kernel c.cfg c.buffer c.cfg.csv c.cfg.queue_depth crc in
    (st ∷ [], if st.st.ok then 0 else 1)

-- What is done once the options are read.
unfoldable pub run_choice : Kernel → Kernel → CrcTable → Choice → Exit
unfolding run_both run_single
run_choice first second crc c =
    if not (is_vcam c.cfg.source) && (is_dmabuf c.buffer || c.compare)
    then ([], 2)
    else if c.compare
    then run_both first second c.cfg crc
    else run_single first c crc

unfoldable pub run_parsed : Kernel → Kernel → CrcTable → Parsed → Exit
unfolding run_choice
run_parsed first second crc (returns code) = ([], code)
run_parsed first second crc (chosen c) = run_choice first second crc c

-- `main`
unfoldable pub runner_main : Kernel → Kernel → CrcTable → List ℕ → List ℕ → List Opt → Exit
unfolding parse_options run_parsed
runner_main first second crc device csv opts =
    run_parsed first second crc (parse_options (default_choice device csv) opts)
