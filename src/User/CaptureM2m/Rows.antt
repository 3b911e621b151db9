-- ===== src/User/CaptureM2m/Rows.antt =====
-- user/vpipe-capture-m2m.c: the exit code, and the rows that are printed.
use vpipe.Base.{
  ℕ, zero, suc, ◌+◌, ◌≡◌, refl, sym, subst, arith, ◌⊎◌, inl, inr, Option, none, some, List, [], ◌∷◌,
  length,
}
use vpipe.User.Calls.{
  Kernel, Outcome, next, cleanup, ◌then◌, at_cleanup, Ends, Ends-then, Ends-weaken,
}
use vpipe.User.CaptureM2m.{
  dequeue_vivid, set_controls, feed_output, dequeue_vpipe, reclaim_output, print_row, requeue,
  capture_frame, capture_frames, exit_code, capture_all, clean_up_capture, run_capture,
  run_parsed_settings, capture_m2m_main,
}
use vpipe.User.CaptureM2m.Arguments.{Settings, parse_settings}
use vpipe.User.CaptureM2m.Setup.{FrameRow, Capture, start_capturing, set_up_capture}
use vpipe.User.CaptureM2m.Prints.{Prints, set_up_capture-Prints, requeue-Prints, processed-Prints}

-- The rows have the numbers from 0 on, the latest first.
abbrev pub Numbered : List FrameRow → Type 0
Numbered [] = Unit
Numbered (row ∷ rows) = (row.frame ≡ length rows) × Numbered rows

abbrev Counted : ℕ → Capture → Type 0
Counted n r = (length r.rows ≡ n) × Numbered r.rows

abbrev Any : Capture → Type 0
Any r = Unit

Prints-Counted :
    (rows : List FrameRow) (n : ℕ) (o : Outcome Capture)
    → Prints rows o
    → (length rows ≡ n) × Numbered rows
    → Ends (Counted n) Any o
unfolding Prints
Prints-Counted rows n (next r) e counted =
    subst (λ rows. (length rows ≡ n) × Numbered rows) (sym e) counted
Prints-Counted rows n (cleanup r) e counted = tt

module _ (kernel : Kernel) where
  capture_frame-Counted :
      (s : Settings) (i : ℕ) (r : Capture)
      → Counted i r
      → Ends (Counted (i + 1)) Any (capture_frame kernel s i r)
  unfolding capture_frame
  capture_frame-Counted s i r counted =
      Ends-then (Counted (i + 1)) (Counted (i + 1)) Any (processed then print_row i)
        (requeue kernel)
        (Ends-then (Counted i) (Counted (i + 1)) Any processed (print_row i)
          (Prints-Counted r.rows i processed (processed-Prints r.rows kernel s r refl) counted)
          (λ r (e, numbered). (omega arith, (sym e, numbered))))
        (λ r counted.
          Prints-Counted r.rows (i + 1) (requeue kernel r) (requeue-Prints r.rows kernel r refl)
            counted)
    where
      processed : Outcome Capture
      processed =
          dequeue_vivid kernel r
          then set_controls kernel s
          then feed_output kernel s.transport
          then dequeue_vpipe kernel
          then reclaim_output kernel s.transport

  capture_frames-Counted :
      (s : Settings) (n i : ℕ) (r : Capture)
      → Counted i r
      → Ends (Counted (i + n)) Any (capture_frames kernel s n i r)
  unfolding capture_frames
  capture_frames-Counted s zero i r (e, numbered) = (omega arith, numbered)
  capture_frames-Counted s (suc n) i r counted =
      Ends-then (Counted (i + 1)) (Counted (i + suc n)) Any (capture_frame kernel s i r)
        (capture_frames kernel s n (i + 1)) (capture_frame-Counted s i r counted)
        (λ r counted.
          Ends-weaken (Counted (i + 1 + n)) (Counted (i + suc n)) Any
            (capture_frames kernel s n (i + 1) r) (λ r (e, numbered). (omega arith, numbered))
            (capture_frames-Counted s n (i + 1) r counted))

  capture_all-Counted : (s : Settings) → Ends (Counted s.frames) Any (capture_all kernel s)
  unfolding capture_all
  capture_all-Counted s =
      Ends-then (Counted 0) (Counted s.frames) Any (set_up_capture kernel s start_capturing)
        (capture_frames kernel s s.frames 0)
        (Prints-Counted [] 0 _ (set_up_capture-Prints [] kernel s start_capturing refl) (refl, tt))
        (λ r counted.
          Ends-weaken (Counted (0 + s.frames)) (Counted s.frames) Any
            (capture_frames kernel s s.frames 0 r) (λ r (e, numbered). (omega arith, numbered))
            (capture_frames-Counted s s.frames 0 r counted))

  -- All frames have their rows, or the exit code is 1.
  abbrev pub Told : Option Settings → Capture × ℕ → Type 0
  Told none (r, code) = (code ≡ 1) × (r.trace ≡ [])
  Told (some s) (r, code) = ((code ≡ 0) × Counted s.frames r) ⊎ (code ≡ 1)

  run_capture-Told : (s : Settings) → Told (some s) (run_capture kernel s)
  unfolding run_capture
  run_capture-Told s = told (capture_all kernel s) (capture_all-Counted s)
    where
      told :
          (o : Outcome Capture)
          → Ends (Counted s.frames) Any o
          → Told
              (some s)
              (record (at_cleanup o) { trace = clean_up_capture (at_cleanup o) }, exit_code o)
      told (next r) counted = inl (refl, counted)
      told (cleanup r) counted = inr refl

-- If the arguments are refused, the exit code is 1 and no call is made. Otherwise the exit code is 0, with
-- a row for each of the frames that were asked for, numbered from 0 on, or it is 1.
pub capture_m2m_main-Told :
    (kernel : Kernel) (s : Settings) (argv : List (List ℕ))
    → Told kernel (parse_settings s argv) (capture_m2m_main kernel s argv)
unfolding capture_m2m_main
capture_m2m_main-Told kernel s argv = parsed (parse_settings s argv)
  where
    parsed : (o : Option Settings) → Told kernel o (run_parsed_settings kernel o)
    parsed none = (refl, refl)
    parsed (some s') = run_capture-Told kernel s'
