-- ===== src/User/Runner/Options/Chosen.antt =====
-- user/vpipe-vcam-runner.c: the configuration that the options choose.
use vpipe.Base.{
  ℕ, ◌-◌, ◌^◌, ◌≤◌, ◌<◌, ◌≡◌, refl, sym, ap, ◌∙◌, ◌⊎◌, inl, inr, arith, Bool, true, Option, none,
  some, List, [], ◌∷◌, if◌then◌else◌, Bool-cases,
}
use vpipe.User.Runner.Run.{
  SourceKind, src_fixture, src_vcam, BufferKind, buf_mmap, buf_dmabuf, max_queue_depth,
}
use vpipe.User.Runner.Options.{
  Opt, opt_frames, opt_fps, opt_queue_depth, opt_buffer, opt_source, opt_csv, opt_device,
  opt_compare, opt_verify_pattern, opt_help, opt_unknown, Choice, Parsed, chosen, returns,
  or_invalid, parse_uint, apply_option, parse_options, same_string, mmap_word, dmabuf_word,
  fixture_word, vcam_word,
}
use vpipe.User.Runner.Options.Parse.{parse_uint-bounds}

-- The ranges of the usage text.
abbrev pub IsChoice : Choice → Type 0
IsChoice c =
    (1 ≤ c.cfg.frames)
    × (c.cfg.frames < 2 ^ 32)
    × (c.cfg.fps ≤ 1000)
    × (2 ≤ c.cfg.queue_depth)
    × (c.cfg.queue_depth ≤ max_queue_depth)

-- What an option gives to each of the settings, if it gives anything.
abbrev frames_arg : Opt → Option ℕ
frames_arg (opt_frames s) = parse_uint s 1 (2 ^ 32 - 1)
frames_arg o = none

abbrev fps_arg : Opt → Option ℕ
fps_arg (opt_fps s) = parse_uint s 0 1000
fps_arg o = none

abbrev queue_depth_arg : Opt → Option ℕ
queue_depth_arg (opt_queue_depth s) = parse_uint s 2 max_queue_depth
queue_depth_arg o = none

abbrev buffer_arg : Opt → Option BufferKind
buffer_arg (opt_buffer s) =
    if same_string s mmap_word
    then some buf_mmap
    else if same_string s dmabuf_word
    then some buf_dmabuf
    else none
buffer_arg o = none

abbrev source_arg : Opt → Option SourceKind
source_arg (opt_source s) =
    if same_string s fixture_word
    then some src_fixture
    else if same_string s vcam_word
    then some src_vcam
    else none
source_arg o = none

abbrev csv_arg : Opt → Option (List ℕ)
csv_arg (opt_csv s) = some s
csv_arg o = none

abbrev device_arg : Opt → Option (List ℕ)
device_arg (opt_device s) = some s
device_arg o = none

abbrev compare_arg : Opt → Option Bool
compare_arg opt_compare = some true
compare_arg o = none

abbrev verify_pattern_arg : Opt → Option Bool
verify_pattern_arg opt_verify_pattern = some true
verify_pattern_arg o = none

abbrev or_else : {A : Type 0} → Option A → A → A
or_else none a = a
or_else (some b) a = b

-- The value of the last option that gives one, or else `a`.
abbrev last_of : {A : Type 0} → (Opt → Option A) → A → List Opt → A
last_of arg a [] = a
last_of arg a (o ∷ os) = last_of arg (or_else (arg o) a) os

-- Each setting has the value of the last of its options, or else that of `c`.
abbrev pub choice_of : Choice → List Opt → Choice
choice_of c os = record {
  cfg = record {
    frames = last_of frames_arg c.cfg.frames os;
    fps = last_of fps_arg c.cfg.fps os;
    queue_depth = last_of queue_depth_arg c.cfg.queue_depth os;
    source = last_of source_arg c.cfg.source os;
    verify_pattern = last_of verify_pattern_arg c.cfg.verify_pattern os;
    device = last_of device_arg c.cfg.device os;
    csv = last_of csv_arg c.cfg.csv os;
  };
  buffer = last_of buffer_arg c.buffer os;
  compare = last_of compare_arg c.compare os;
}

-- `--help` is among the options.
abbrev pub HasHelp : List Opt → Type 0
HasHelp [] = ⊥
HasHelp (o ∷ os) = (o ≡ opt_help) ⊎ HasHelp os

-- What reading `os` from `c` on gives: the choice that they describe, a code 0 for `--help`, or a code 2.
abbrev pub Read : Choice → List Opt → Parsed → Type 0
Read c os (chosen c') = IsChoice c' × (c' ≡ choice_of c os)
Read c os (returns code) = ((code ≡ 0) × HasHelp os) ⊎ (code ≡ 2)

abbrev after_one : Choice → Opt → Choice
after_one c o = choice_of c (o ∷ [])

abbrev ReadOne : Choice → Opt → Parsed → Type 0
ReadOne c o p = Read c (o ∷ []) p

or_invalid-ReadOne :
    (c : Choice) (o : Opt) (r : Option ℕ) (set : ℕ → Choice)
    → ((n : ℕ) → r ≡ some n → IsChoice (set n) × (set n ≡ after_one c o))
    → ReadOne c o (or_invalid r set)
or_invalid-ReadOne c o none set h = inr refl
or_invalid-ReadOne c o (some n) set h = h n refl

apply_option-ReadOne : (c : Choice) (o : Opt) → IsChoice c → ReadOne c o (apply_option c o)
unfolding apply_option
apply_option-ReadOne c (opt_frames s) h =
    or_invalid-ReadOne c (opt_frames s) (parse_uint s 1 (2 ^ 32 - 1)) _ (λ n e.
      let (a, b) = parse_uint-bounds s 1 (2 ^ 32 - 1) n (omega arith) e in
      (
        ground arith,
        ap (λ r. record c { cfg = record c.cfg { frames = or_else r c.cfg.frames } }) (sym e),
      ))
apply_option-ReadOne c (opt_fps s) h =
    or_invalid-ReadOne c (opt_fps s) (parse_uint s 0 1000) _ (λ n e.
      let (a, b) = parse_uint-bounds s 0 1000 n (omega arith) e in
      (
        ground arith,
        ap (λ r. record c { cfg = record c.cfg { fps = or_else r c.cfg.fps } }) (sym e),
      ))
apply_option-ReadOne c (opt_queue_depth s) h =
    or_invalid-ReadOne c (opt_queue_depth s) (parse_uint s 2 max_queue_depth) _ (λ n e.
      let (a, b) = parse_uint-bounds s 2 max_queue_depth n (omega arith) e in
      (
        ground arith,
        ap (λ r. record c { cfg = record c.cfg { queue_depth = or_else r c.cfg.queue_depth } })
            (sym e),
      ))
apply_option-ReadOne c (opt_buffer s) h = elim (Bool-cases (same_string s mmap_word)) [
  | inl e ↦ simp e (h, refl)
  | inr e ↦ elim (Bool-cases (same_string s dmabuf_word)) [
    | inl e' ↦ simp (e, e') (h, refl)
    | inr e' ↦ simp (e, e') (inr refl)
  ]
]
apply_option-ReadOne c (opt_source s) h = elim (Bool-cases (same_string s fixture_word)) [
  | inl e ↦ simp e (h, refl)
  | inr e ↦ elim (Bool-cases (same_string s vcam_word)) [
    | inl e' ↦ simp (e, e') (h, refl)
    | inr e' ↦ simp (e, e') (inr refl)
  ]
]
apply_option-ReadOne c (opt_csv s) h = (h, refl)
apply_option-ReadOne c (opt_device s) h = (h, refl)
apply_option-ReadOne c opt_compare h = (h, refl)
apply_option-ReadOne c opt_verify_pattern h = (h, refl)
apply_option-ReadOne c opt_help h = inl (refl, inl refl)
apply_option-ReadOne c opt_unknown h = inr refl

-- Reading the options gives what they describe.
pub parse_options-Read : (c : Choice) (os : List Opt) → IsChoice c → Read c os (parse_options c os)
unfolding parse_options
parse_options-Read c [] h = (h, refl)
parse_options-Read c (o ∷ os) h =
    first (apply_option c o) (apply_option-ReadOne c o h) (λ c' h'. parse_options-Read c' os h')
  where
    later : (c' : Choice) (p : Parsed) → c' ≡ after_one c o → Read c' os p → Read c (o ∷ os) p
    later c' (chosen d) e (ranges, same) = (ranges, same ∙ ap (λ b. choice_of b os) e)
    later c' (returns code) e (inl (ends, help)) = inl (ends, inr help)
    later c' (returns code) e (inr two) = inr two

    first :
        (p : Parsed)
        → ReadOne c o p
        → ((c' : Choice) → IsChoice c' → Read c' os (parse_options c' os))
        → Read c (o ∷ os) (elim p [ chosen c' ↦ parse_options c' os | returns code ↦ returns code ])
    first (chosen c') (ranges, same) rest = later c' (parse_options c' os) same (rest c' ranges)
    first (returns code) (inl (ends, inl help)) rest = inl (ends, inl help)
    first (returns code) (inl (ends, inr none_left)) rest = absurd none_left
    first (returns code) (inr two) rest = inr two
