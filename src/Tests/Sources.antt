-- ===== src/Tests/Sources.antt =====
-- Tests of kmod/vpipe-source.c with the built-in backends.
use vpipe.Base.{none, some, List, [], ◌∷◌, ◌==◌, if◌then◌else◌, arith}
use vpipe.Backend.Vcam.{own}
use vpipe.Source.{Source, synthetic, BackendOps}
use vpipe.Source.Backends.{fixture_ops, synthetic_ops, vcam_ops}
use vpipe.Source.Frames.{Call, Numbered, run_calls, run_calls-Numbered}
use vpipe.Tests.Framebuffers.{desc, empty_heap}

abbrev no_backends : BackendOps
no_backends id = none

abbrev one_backend : BackendOps
one_backend id = if 1 == id then some fixture_ops else none

abbrev pub three_backends : BackendOps
three_backends id =
    if 3 == id then some vcam_ops else if 2 == id then some synthetic_ops else one_backend id

-- A synthetic source in use, one frame before its sequence wraps.
abbrev running : Source
running = record {
  backend_id = 2;
  ops = synthetic_ops;
  priv = synthetic (record { pattern_offset = 0; frames_produced = 0; drop_every_n = 0 });
  seq = 4_294_967_295;
}

abbrev call : Call
call = record { now = 5; plane = some (own (λ _. 0)); desc = desc }

-- The second call has no plane, and fails.
abbrev calls : List Call
calls = call ∷ record call { plane = none } ∷ call ∷ []

run_calls-Numbered_example : Numbered 2 4_294_967_295 (run_calls empty_heap running calls)
run_calls-Numbered_example = run_calls-Numbered calls empty_heap running (omega arith)
