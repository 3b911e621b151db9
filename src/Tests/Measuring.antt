-- ===== src/Tests/Measuring.antt =====
-- Tests of the checksum and of the runner of user/.
use vpipe.Base.{
  ℕ, zero, suc, ◌+◌, ◌<◌, ◌≡◌, ◌≢◌, refl, true, false, none, some, List, [], ◌∷◌, length, arith,
  Bytes, get_or, for_range,
}
use vpipe.User.Calls.{
  Kernel, Trace, Handle, asked, read_clock, memory_mmap, empty_buffer, descriptor,
}
use vpipe.User.Calls.Balance.{taken, given_back}
use vpipe.User.Crc.{CrcTable, vpipe_crc32, crc32_bits}
use vpipe.User.Crc.Bitwise.{IsTable, crc32_bitwise, vpipe_crc32-bitwise}
use vpipe.User.Runner.Run.{
  src_vcam, buf_mmap, buf_dmabuf, Config, CsvRow, set_up, request_output, request_capture,
  open_rows,
}
use vpipe.User.Runner.Run.Held.{GrantsAll}
use vpipe.User.Runner.Loop.{
  run_one, run_allocated, measure, drain, one_frame, check_frame, resubmit, clean_up, give_outputs,
}
use vpipe.User.Runner.Submit.{prefill, submit_output, queue_output, fill_output}
use vpipe.User.Queues.{queue_all, vpipe_request_mmap_buffers, map_buffers, vpipe_unmap_buffers}
use vpipe.User.Csv.{
  vpipe_open_csv, vpipe_ensure_parent_dir, ensure_copied, make_parents, make_dirs, parent_of,
}
use vpipe.User.Runner.Loop.Balance.{run_one-Balances}
use vpipe.User.Runner.Loop.Goes.{Answers}
use vpipe.User.Runner.Loop.Complete.{run_one-Completes}
use vpipe.User.Runner.Options.{Opt, opt_frames, opt_compare}

-- The digits from 1 to 9, for which the checksum is known.
abbrev digits : Bytes
digits k = get_or (49 ∷ 50 ∷ 51 ∷ 52 ∷ 53 ∷ 54 ∷ 55 ∷ 56 ∷ 57 ∷ []) k 0

abbrev no_table : CrcTable
no_table = record { table = λ _. 0; ready = false }

digits_small : (k : ℕ) → digits k < 256
digits_small zero = omega arith
digits_small (suc zero) = omega arith
digits_small (suc (suc zero)) = omega arith
digits_small (suc (suc (suc zero))) = omega arith
digits_small (suc (suc (suc (suc zero)))) = omega arith
digits_small (suc (suc (suc (suc (suc zero))))) = omega arith
digits_small (suc (suc (suc (suc (suc (suc zero)))))) = omega arith
digits_small (suc (suc (suc (suc (suc (suc (suc zero))))))) = omega arith
digits_small (suc (suc (suc (suc (suc (suc (suc (suc zero)))))))) = omega arith
digits_small (suc (suc (suc (suc (suc (suc (suc (suc (suc k))))))))) = omega arith

known_sum : crc32_bitwise digits 9 ≡ 0xcbf43926
unfolding crc32_bitwise crc32_bits
known_sum = refl

vpipe_crc32-bitwise_example :
    ((vpipe_crc32 no_table digits 9).1 ≡ crc32_bitwise digits 9)
    × IsTable (vpipe_crc32 no_table digits 9).0
vpipe_crc32-bitwise_example = vpipe_crc32-bitwise no_table digits 9 (λ e. absurd (cc)) digits_small

-- A kernel on which every call succeeds: each number is 2, each time two more than the calls before it.
abbrev elapsed : Trace → ℕ
elapsed (asked read_clock ∷ trace) = length trace
elapsed trace = 0

abbrev number_at : Trace → ℕ
number_at trace = 2 + elapsed trace

abbrev good_kernel : Kernel
good_kernel = record {
  succeeds = λ _. true;
  hands_out = λ trace. some (length trace);
  number = number_at;
  dequeued = λ _. empty_buffer memory_mmap 1;
  entry = λ _. none;
  contents = λ _ _ _. 0;
}

abbrev three_frames : Config
three_frames = record {
  frames = 3;
  fps = 0;
  queue_depth = 2;
  source = src_vcam;
  verify_pattern = false;
  device = [];
  csv = [];
}

number_positive : (trace : Trace) → number_at trace ≢ 0
number_positive trace e = absurd (omega arith)

good_kernel-Answers : Answers good_kernel 2
good_kernel-Answers = record {
  succeeds = λ _. refl;
  hands_out = λ trace. (length trace, refl);
  sized = number_positive;
  indexed = λ _. omega arith;
}

good_kernel-Grants : GrantsAll good_kernel 2
good_kernel-Grants fd type trace = omega arith

-- The latencies of a run, the latest frame first.
abbrev latencies : List CsvRow → List ℕ
latencies [] = []
latencies (row ∷ rows) = row.us_latency_ns ∷ latencies rows

three_latencies :
    latencies (run_one good_kernel three_frames buf_mmap [] 2 no_table).rows ≡ 8 ∷ 10 ∷ 5 ∷ []
unfolding run_one run_allocated measure set_up prefill drain one_frame check_frame submit_output
    queue_output fill_output resubmit request_output request_capture open_rows vpipe_open_csv
    vpipe_ensure_parent_dir ensure_copied make_parents make_dirs parent_of queue_all
    vpipe_request_mmap_buffers map_buffers vpipe_unmap_buffers clean_up give_outputs for_range
three_latencies = refl

-- A weight that counts the descriptors.
abbrev one_each : Handle → ℕ
one_each (descriptor fd) = 1
one_each handle = 0

run_one-Completes_example :
    ((run_one good_kernel three_frames buf_mmap [] 2 no_table).st.ok ≡ true)
    × (length (run_one good_kernel three_frames buf_mmap [] 2 no_table).rows ≡ 3)
run_one-Completes_example =
    run_one-Completes good_kernel three_frames buf_mmap [] 2 no_table (omega arith) (omega arith)
      good_kernel-Grants good_kernel-Answers

run_one-Balances_example :
    taken one_each (run_one good_kernel three_frames buf_dmabuf [] 2 no_table).trace
    ≡ given_back one_each (run_one good_kernel three_frames buf_dmabuf [] 2 no_table).trace
run_one-Balances_example =
    run_one-Balances one_each good_kernel three_frames buf_dmabuf [] 2 no_table good_kernel-Grants

abbrev three_of_each : List Opt
three_of_each = opt_frames (53 ∷ []) ∷ opt_compare ∷ opt_frames (51 ∷ []) ∷ []
