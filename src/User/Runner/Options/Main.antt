-- ===== src/User/Runner/Options/Main.antt =====
-- user/vpipe-vcam-runner.c: what `main` hands to a run, and its exit code.
use vpipe.Base.{ℕ, ◌≤◌, ◌≡◌, ◌⊎◌, Bool, true, false, List, [], ◌∷◌}
use vpipe.User.Calls.{Kernel}
use vpipe.User.Crc.{CrcTable}
use vpipe.User.Runner.Run.{BufferKind, buf_mmap, buf_dmabuf, Run}
use vpipe.User.Runner.Run.Held.{GrantsAll}
use vpipe.User.Runner.Loop.{run_one}
use vpipe.User.Runner.Loop.Complete.{Measured}
use vpipe.User.Runner.Options.{
  Opt, Choice, default_choice, path_of, dot_mmap_csv, dot_dmabuf_csv, Exit,
}
use vpipe.User.Runner.Options.Chosen.{IsChoice, choice_of, HasHelp}

-- The frames that may be in flight: one if the kinds of buffers are compared or are DMA-BUFs, and else as
-- many as the queue is deep.
abbrev depth_in : Bool → BufferKind → ℕ → ℕ
depth_in true buffer queue_depth = 1
depth_in false buf_dmabuf queue_depth = 1
depth_in false buf_mmap queue_depth = queue_depth

-- A run that is good, and has measured the frames of the choice on the kernel.
abbrev IsFine : Kernel → Choice → Run → Type 0
IsFine kernel c r =
    (r.st.ok ≡ true) × Measured kernel c.cfg (depth_in c.compare c.buffer c.cfg.queue_depth) r

-- The runs of the choice: one with its buffers, or one of each kind.
abbrev RunsOf : Kernel → Kernel → CrcTable → Choice → List Run → Type 0
RunsOf first second crc c [] = ⊥
RunsOf first second crc c (r ∷ []) =
    (c.compare ≡ false) × (r ≡ run_one first c.cfg c.buffer c.cfg.csv c.cfg.queue_depth crc)
RunsOf first second crc c (r ∷ s ∷ []) =
    (c.compare ≡ true)
    × (r ≡ run_one first c.cfg buf_mmap (path_of c.cfg.csv dot_mmap_csv) 1 crc)
    × (s ≡ run_one second c.cfg buf_dmabuf (path_of c.cfg.csv dot_dmabuf_csv) 1 r.crc)
RunsOf first second crc c (r ∷ s ∷ t ∷ rs) = ⊥

-- The first run is fine on the first kernel, and the second one, if there is one, on the second.
abbrev AllFine : Kernel → Kernel → Choice → List Run → Type 0
AllFine first second c [] = Unit
AllFine first second c (r ∷ []) = IsFine first c r
AllFine first second c (r ∷ s ∷ rs) = IsFine first c r × IsFine second c s

abbrev AnyFailed : List Run → Type 0
AnyFailed [] = ⊥
AnyFailed (r ∷ rs) = (r.st.ok ≡ false) ⊎ AnyFailed rs

-- What the exit code says of the runs, for the choice that the options describe.
abbrev ChoiceTells : Kernel → Kernel → CrcTable → Choice → List Opt → Exit → Type 0
ChoiceTells first second crc c opts (runs, code) =
    (code ≡ 0
      → ((runs ≡ []) × HasHelp opts)
        ⊎ (IsChoice c × RunsOf first second crc c runs × AllFine first second c runs))
    × (code ≡ 1 → IsChoice c × RunsOf first second crc c runs × AnyFailed runs)
    × (code ≡ 2 → runs ≡ [])
    × (code ≤ 2)

abbrev pub Tells : Kernel → Kernel → CrcTable → List ℕ → List ℕ → List Opt → Exit → Type 0
Tells first second crc device csv opts exit =
    ChoiceTells first second crc (choice_of (default_choice device csv) opts) opts exit

module _ (first second : Kernel) (crc : CrcTable) (opts : List Opt)
    (first_grants : (count : ℕ) → 2 ≤ count → GrantsAll first count)
    (second_grants : (count : ℕ) → 2 ≤ count → GrantsAll second count) where
  abbrev ToldOf : Choice → Exit → Type 0
  ToldOf c exit = ChoiceTells first second crc c opts exit
