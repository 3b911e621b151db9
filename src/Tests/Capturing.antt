-- ===== src/Tests/Capturing.antt =====
-- Tests of vpipe-capture-m2m.c of user/.
use vpipe.Base.{ℕ, ◌≡◌, refl, arith, true, none, some, List, [], ◌∷◌, length}
use vpipe.User.Calls.{
  Kernel, Trace, Handle, descriptor, asked, copy_memory, memory_mmap, empty_buffer,
}
use vpipe.User.Calls.Balance.{taken, given_back}
use vpipe.User.Csv.{ensure_copied, make_parents}
use vpipe.User.Runner.Options.{mmap_word, dmabuf_word}
use vpipe.User.CaptureM2m.{capture_all, run_capture, capture_m2m_main}
use vpipe.User.CaptureM2m.Arguments.{Settings, transport_dmabuf, parse_settings, none_word}
use vpipe.User.CaptureM2m.Inside.{FeedsInside}
use vpipe.User.CaptureM2m.Balance.{capture_m2m_main-Balances}
use vpipe.User.CaptureM2m.Rows.{Told, capture_m2m_main-Told}
use vpipe.User.CaptureM2m.Copies.{capture_m2m_main-FeedsInside}

-- Every call succeeds, each number is 4, and a frame of 9 bytes comes in the buffer 2.
abbrev ready_kernel : Kernel
ready_kernel = record {
  succeeds = λ _. true;
  hands_out = λ trace. some (length trace);
  number = λ _. 4;
  dequeued = λ _. record (empty_buffer memory_mmap 2) { bytesused = 9 };
  entry = λ _. none;
  contents = λ _ _ _. 0;
}

abbrev defaults : Settings
defaults = record {
  vivid = [];
  vpipe = [];
  csv = [];
  frames = 600;
  transport = transport_dmabuf;
  algo_id = 0;
  threshold = 127;
}

-- Two frames by a copy; the names of the devices and of the file are empty.
abbrev two_copies : List (List ℕ)
two_copies = [] ∷ [] ∷ [] ∷ (50 ∷ []) ∷ mmap_word ∷ none_word ∷ []

abbrev two_exports : List (List ℕ)
two_exports = [] ∷ [] ∷ [] ∷ (50 ∷ []) ∷ dmabuf_word ∷ none_word ∷ []

-- The lengths of the copies, the last one first.
abbrev copied : Trace → List ℕ
copied [] = []
copied (asked (copy_memory to from n) ∷ trace) = n ∷ copied trace
copied (event ∷ trace) = copied trace

two_copied : copied (capture_m2m_main ready_kernel defaults two_copies).0.trace ≡ 4 ∷ 4 ∷ []
unfolding capture_m2m_main parse_settings run_capture capture_all ensure_copied make_parents
two_copied = refl

two_rows : length (capture_m2m_main ready_kernel defaults two_copies).0.rows ≡ 2
unfolding capture_m2m_main parse_settings run_capture capture_all ensure_copied make_parents
two_rows = refl

-- A weight that counts the descriptors.
abbrev each_descriptor : Handle → ℕ
each_descriptor (descriptor fd) = 1
each_descriptor handle = 0

capture_m2m_main-Balances_example :
    taken each_descriptor (capture_m2m_main ready_kernel defaults two_exports).0.trace
    ≡ given_back each_descriptor (capture_m2m_main ready_kernel defaults two_exports).0.trace
capture_m2m_main-Balances_example =
    capture_m2m_main-Balances each_descriptor ready_kernel defaults two_exports
      (λ fd type trace. omega arith)

capture_m2m_main-FeedsInside_example :
    FeedsInside (capture_m2m_main ready_kernel defaults two_copies).0.trace
capture_m2m_main-FeedsInside_example =
    capture_m2m_main-FeedsInside ready_kernel defaults two_copies (λ fd type trace. omega arith)

capture_m2m_main-Told_example :
    Told ready_kernel
      (parse_settings defaults two_copies)
      (capture_m2m_main ready_kernel defaults two_copies)
capture_m2m_main-Told_example = capture_m2m_main-Told ready_kernel defaults two_copies
