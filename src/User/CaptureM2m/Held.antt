-- ===== src/User/CaptureM2m/Held.antt =====
-- user/vpipe-capture-m2m.c: what its variables hold, and which are not yet set.
use vpipe.Base.{ℕ, ◌+◌, ◌≤◌, ◌≡◌, ◌≢◌, refl, Bool, true, false, Option, none, some, ◌∷◌}
use vpipe.M2m.{QueueType, output, capture}
use vpipe.User.Calls.{
  Kernel, Trace, Handle, Call, asked, descriptor, file, stream, Ends, must_succeed-Ends,
}
use vpipe.User.Calls.Balance.{taken, given_back, held}
use vpipe.User.Queues.{Slots}
use vpipe.User.Queues.Mapped.{slots_held, buffer_held}
use vpipe.User.CaptureM2m.Setup.{buffer_count, Capture, ask_device}

module _ (weight : Handle → ℕ) where
  -- A stream of a device; nothing is done with it if the device is not open.
  abbrev pub running : Option ℕ → Bool → QueueType → ℕ
  running (some fd) true type = weight (stream (some fd) type)
  running fd streaming type = 0

  -- What the variables hold.
  unfoldable pub capture_held : Capture → ℕ
  capture_held r =
      held weight descriptor r.vivid_fd
      + held weight descriptor r.vpipe_fd
      + slots_held weight buffer_count r.vivid_bufs
      + slots_held weight buffer_count r.vpipe_bufs
      + slots_held weight buffer_count r.vpipe_out_bufs
      + held weight file r.fp
      + running r.vivid_fd r.vivid_streaming capture
      + running r.vpipe_fd r.vpipe_cap_streaming capture
      + running r.vpipe_fd r.vpipe_out_streaming output

  -- What is not given back is held by a variable.
  abbrev pub Kept : Capture → Type 0
  Kept r = taken weight r.trace ≡ given_back weight r.trace + capture_held r

  abbrev pub Free : Slots → Type 0
  Free buffers = (j : ℕ) → 0 ≤ j → buffer_held weight (buffers j) ≡ 0

  abbrev pub Opened : Capture → Type 0
  Opened r = (r.vivid_fd ≢ none) × (r.vpipe_fd ≢ none)

  -- The variables that are not yet set, from the last one on. The buffers from `i` on are not exported.
  abbrev pub Idle1 : Capture → Type 0
  Idle1 r = r.vpipe_out_streaming ≡ false

  abbrev pub Idle2 : Capture → Type 0
  Idle2 r = Idle1 r × (r.vpipe_cap_streaming ≡ false)

  abbrev pub Idle3 : Capture → Type 0
  Idle3 r = Idle2 r × (r.vivid_streaming ≡ false)

  abbrev pub Idle4 : ℕ → Capture → Type 0
  Idle4 i r = Idle3 r × ((j : ℕ) → i ≤ j → (r.vivid_bufs j).dmabuf_fd ≡ none)

  abbrev pub Idle5 : Capture → Type 0
  Idle5 r = Idle4 0 r × (r.fp ≡ none)

  abbrev pub Idle6 : Capture → Type 0
  Idle6 r = Idle5 r × Free r.vpipe_out_bufs

  abbrev pub Idle7 : Capture → Type 0
  Idle7 r = Idle6 r × Free r.vpipe_bufs

  abbrev pub Idle8 : Capture → Type 0
  Idle8 r = Idle7 r × Free r.vivid_bufs

  abbrev pub Idle9 : Capture → Type 0
  Idle9 r = Idle8 r × (r.vpipe_fd ≡ none)

  abbrev pub Idle10 : Capture → Type 0
  Idle10 r = Idle9 r × (r.vivid_fd ≡ none)

  -- Both devices are open.
  abbrev pub With : (Capture → Type 0) → Capture → Type 0
  With Facts r = Kept r × (Facts r × Opened r)

  pub running-open :
      (fd : Option ℕ) (type : QueueType)
      → fd ≢ none
      → running fd true type ≡ weight (stream fd type)
  running-open none type h = absurd (h refl)
  running-open (some fd) type h = refl

  pub running-off :
      (fd : Option ℕ) (streaming : Bool) (type : QueueType)
      → streaming ≡ false
      → running fd streaming type ≡ 0
  running-off none streaming type h = refl
  running-off (some fd) true type h = absurd (cc)
  running-off (some fd) false type h = refl

  pub is_some : (n : ℕ) → some n ≢ none
  is_some n e = absurd (cc)

  module _ (kernel : Kernel) where
    pub ask_device-With :
        (Facts : Capture → Type 0) (call : Call) (r : Capture)
        → ((t : Trace) → Facts r → Facts (record r { trace = t }))
        → With Facts r
        → Ends (With Facts) Kept (ask_device kernel call r)
    unfolding capture_held
    ask_device-With Facts call r stays (kept, (facts, opened)) =
        must_succeed-Ends (With Facts) Kept kernel call r.trace (λ t. record r { trace = t })
          (kept, (stays (asked call ∷ r.trace) facts, opened)) kept
