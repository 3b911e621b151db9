-- ===== src/User/CaptureM2m/Arguments.antt =====
-- user/vpipe-capture-m2m.c: its arguments. A string is the list of its characters.
use vpipe.Base.{
  ℕ, ◌^◌, ◌-◌, not, ◌||◌, Option, none, some, List, [], ◌∷◌, ltb, ◌==◌, if◌then◌else◌, get_or,
  length,
}
use vpipe.Uapi.{algo_none, algo_threshold}
use vpipe.User.Runner.Options.{Strtoul, strtoul, is_empty, same_string, mmap_word, dmabuf_word}

-- `enum transport_mode`
pub data Transport : Type 0 where
  transport_dmabuf transport_mmap : Transport

-- What `main` takes from its arguments.
pub record Settings : Type 0 where
  pub vivid : List ℕ
  pub vpipe : List ℕ
  pub csv : List ℕ
  pub frames : ℕ
  pub transport : Transport
  pub algo_id : ℕ
  pub threshold : ℕ

abbrev pub none_word : List ℕ
none_word = 110 ∷ 111 ∷ 110 ∷ 101 ∷ []

abbrev threshold_word : List ℕ
threshold_word = 116 ∷ 104 ∷ 114 ∷ 101 ∷ 115 ∷ 104 ∷ 111 ∷ 108 ∷ 100 ∷ []

-- `parse_transport`: none for a return of -1, here and below.
abbrev parse_transport : List ℕ → Option Transport
parse_transport value =
    if same_string value dmabuf_word
    then some transport_dmabuf
    else if same_string value mmap_word
    then some transport_mmap
    else none

abbrev parse_algo : List ℕ → Option ℕ
parse_algo value =
    if same_string value none_word
    then some algo_none
    else if same_string value threshold_word
    then some algo_threshold
    else none

abbrev range_reply : ℕ → ℕ → Strtoul → Option ℕ
range_reply least most (v, rest, erange) =
    if erange || not (is_empty rest) || ltb v least || ltb most v then none else some v

unfoldable parse_uint_range : List ℕ → ℕ → ℕ → Option ℕ
unfolding strtoul
parse_uint_range [] least most = none
parse_uint_range (c ∷ cs) least most =
    if c == 45 then none else range_reply least most (strtoul (c ∷ cs))

-- An argument that may be missing, `argv[i]` for the element `i - 1` of the list, and a number in it.
abbrev number_or : List (List ℕ) → ℕ → ℕ → ℕ → ℕ → Option ℕ
number_or argv i least most otherwise =
    if ltb i (length argv) then parse_uint_range (get_or argv i []) least most else some otherwise

infixl 5 ◌>>=◌
abbrev ◌>>=◌ {ℓ κ} : {A : Type ℓ} {B : Type κ} → Option A → (A → Option B) → Option B
none >>= step = none
some a >>= step = step a

-- The arguments; `s` has the values that are taken where one is missing.
unfoldable pub parse_settings : Settings → List (List ℕ) → Option Settings
unfolding parse_uint_range
parse_settings s argv = do
  transport ← parse_transport (get_or argv 4 dmabuf_word)
  algo_id ← parse_algo (get_or argv 5 none_word)
  frames ← number_or argv 3 1 (2 ^ 32 - 1) 600
  threshold ← number_or argv 6 0 255 127
  some (record {
    vivid = get_or argv 0 s.vivid;
    vpipe = get_or argv 1 s.vpipe;
    csv = get_or argv 2 s.csv;
    frames = frames;
    transport = transport;
    algo_id = algo_id;
    threshold = threshold;
  })
