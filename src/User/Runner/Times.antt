-- ===== src/User/Runner/Times.antt =====
-- user/vpipe-vcam-runner.c: the submissions of a run, read off its calls.
use vpipe.Base.{ℕ, ◌+◌, ◌&&◌, ◌==◌, if◌then◌else◌, [], ◌∷◌}
use vpipe.User.Calls.{Kernel, Trace, asked, obtained, returned, read_clock}
use vpipe.User.Quiet.{feeds_output}

-- The QBUFs of the OUTPUT queue.
abbrev pub outputs : Trace → ℕ
outputs [] = 0
outputs (asked call ∷ trace) =
    let earlier = outputs trace in if feeds_output call then earlier + 1 else earlier
outputs (obtained handle ∷ trace) = outputs trace
outputs (returned handle ∷ trace) = outputs trace

-- The last time that was read.
abbrev pub last_clock : Kernel → Trace → ℕ
last_clock kernel [] = 0
last_clock kernel (asked read_clock ∷ trace) = kernel.number (asked read_clock ∷ trace)
last_clock kernel (event ∷ trace) = last_clock kernel trace

-- The time that was read last before the `i`-th QBUF of the OUTPUT queue.
abbrev pub sent_at : Kernel → Trace → ℕ → ℕ
sent_at kernel [] i = 0
sent_at kernel (asked call ∷ trace) i =
    let earlier = sent_at kernel trace i in
    if feeds_output call && (outputs trace == i) then last_clock kernel trace else earlier
sent_at kernel (obtained handle ∷ trace) i = sent_at kernel trace i
sent_at kernel (returned handle ∷ trace) i = sent_at kernel trace i
