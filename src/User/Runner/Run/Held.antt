-- ===== src/User/Runner/Run/Held.antt =====
-- user/vpipe-vcam-runner.c: the variables hold what is not given back, at every point of the set-up that
-- may lead to the label `cleanup`.
use vpipe.Base.{ℕ, List, Option}
use vpipe.M2m.{QueueType, output, capture}
use vpipe.User.Calls.{Kernel, Handle, Outcome, ◌then◌, Always, Always-then, open_device}
use vpipe.User.Queues.Mapped.{Grants}
use vpipe.User.Runner.Run.{
  BufferKind, Config, Run, open_node, request_output, request_capture, set_algo_none, export_dmabuf,
  set_up_device, set_up,
}
use vpipe.User.Runner.Run.Balance.{
  Owned, With, Unset1, Unset2, Unset3, Unset4, Unset5, Unset6, Unset7, Unset8, ask-Owned,
  device_reply-Owned, read_sizeimage-Owned, request_output-Owned, request_capture-Owned,
  open_rows-Owned, meta_reply-Owned, queue_all-Owned, start_capture-Owned, start_output-Owned,
  export_dmabuf-Owned,
}

-- The driver grants at most what is asked for, on each queue.
abbrev pub GrantsAll : Kernel → ℕ → Type 0
GrantsAll kernel count = (fd : Option ℕ) (type : QueueType) → Grants kernel fd type count

module _ (weight : Handle → ℕ) (cfg : Config) (buffer : BufferKind) (kernel : Kernel) where
  abbrev Has : (Run → Type 0) → Run → Type 0
  Has Facts = With weight cfg buffer Facts

  -- Two steps of which the second needs what the first leaves.
  and_then :
      (Facts Less : Run → Type 0) (o : Outcome Run) (step : Run → Outcome Run)
      → ((r : Run) → Facts r → Less r)
      → Always (Has Facts) o
      → ((r : Run) → Has Facts r → Always (Has Less) (step r))
      → Always (Has Less) (o then step)
  and_then Facts Less o step weaken all keep =
      Always-then (Has Facts) (Has Less) o step (λ r (owned, facts). (owned, weaken r facts)) all
        keep

  abbrev Free1 : Run → Type 0
  Free1 = Unset1 weight cfg buffer

  abbrev Free2 : Run → Type 0
  Free2 = Unset2 weight cfg buffer

  abbrev Free3 : Run → Type 0
  Free3 = Unset3 weight cfg buffer

  abbrev Free4 : Run → Type 0
  Free4 = Unset4 weight cfg buffer

  abbrev Free5 : Run → Type 0
  Free5 = Unset5 weight cfg buffer

  abbrev Free6 : Run → Type 0
  Free6 = Unset6 weight cfg buffer

  abbrev Free7 : Run → Type 0
  Free7 = Unset7 weight cfg buffer

  set_up_device-Owned : (r : Run) → Has Free7 r → Always (Has Free7) (set_up_device kernel cfg r)
  set_up_device-Owned r h =
      and_then Free7 Free7 _ _ (λ r u. u)
        (and_then Free7 Free7 _ _ (λ r u. u)
          (and_then Free7 Free7 _ _ (λ r u. u)
            (ask-Owned weight cfg buffer kernel Free7 _ r (λ r t u. u) h)
            (λ r h. ask-Owned weight cfg buffer kernel Free7 _ r (λ r t u. u) h))
          (λ r h. ask-Owned weight cfg buffer kernel Free7 _ r (λ r t u. u) h))
        (λ r h. read_sizeimage-Owned weight cfg buffer kernel Free7 r (λ r t n u. u) h)

  module _ (csv : List ℕ) (grants : GrantsAll kernel cfg.queue_depth) where
    queues-Owned :
        (r : Run)
        → Has (Unset8 weight cfg buffer) r
        → Always (Has Free5) (
            open_node kernel cfg r
            then set_up_device kernel cfg
            then request_output kernel cfg buffer
            then request_capture kernel cfg
            then set_algo_none kernel)
    queues-Owned r h =
        and_then Free5 Free5 _ _ (λ r u. u)
          (and_then Free6 Free5 _ _ (λ r u. u.0)
            (and_then Free7 Free6 _ _ (λ r u. u.0)
              (and_then Free7 Free7 _ _ (λ r u. u)
                (device_reply-Owned weight cfg buffer kernel r (open_device cfg.device) _ h)
                (λ r h. set_up_device-Owned r h))
              (λ r h. request_output-Owned weight cfg kernel buffer r (grants r.fd output) h))
            (λ r h. request_capture-Owned weight cfg buffer kernel r (grants r.fd capture) h))
          (λ r h. ask-Owned weight cfg buffer kernel Free5 _ r (λ r t u. u) h)

    -- `set_up` leads to the label, or on, with its variables holding what is not given back.
    pub set_up-Owned :
        (r : Run)
        → Has (Unset8 weight cfg buffer) r
        → Always (Owned weight cfg buffer) (set_up kernel cfg buffer csv r)
    unfolding set_up
    set_up-Owned r h =
        Always-then (Has Free1) (Owned weight cfg buffer) _ (export_dmabuf kernel buffer)
          (λ r h. h.0)
          (and_then Free2 Free1 _ _ (λ r u. u.0)
            (and_then Free3 Free2 _ _ (λ r u. u.0)
              (and_then Free3 Free3 _ _ (λ r u. u)
                (and_then Free4 Free3 _ _ (λ r u. u.0)
                  (and_then Free5 Free4 _ _ (λ r u. u.0) (queues-Owned r h)
                    (λ r h. open_rows-Owned weight cfg buffer kernel csv r h))
                  (λ r h. meta_reply-Owned weight cfg buffer kernel r _ h))
                (λ r h. queue_all-Owned weight cfg buffer kernel cfg.queue_depth 0 r h))
              (λ r h. start_capture-Owned weight cfg buffer kernel r h))
            (λ r h. start_output-Owned weight cfg buffer kernel r h))
          (λ r h. export_dmabuf-Owned weight cfg kernel buffer r h)
