-- ===== src/M2m/Queues.antt =====
-- kmod/vpipe-m2m.c: what the driver tells V4L2 of itself, and how it sets up the two queues of a context.
use vpipe.Base.{ℕ, ◌+◌, ◌≡◌, refl, Bool, true, List, [], ◌∷◌, Result, ok, err, ok_inj, subst, ◌>>◌}
use vpipe.M2m.{QueueType, output, capture}

-- V4L2_CAP_VIDEO_M2M, V4L2_CAP_STREAMING and V4L2_CAP_DEVICE_CAPS of linux/videodev2.h, which have no
-- bit in common.
abbrev cap_video_m2m : ℕ
cap_video_m2m = 0x8000

abbrev cap_streaming : ℕ
cap_streaming = 0x0400_0000

abbrev cap_device_caps : ℕ
cap_device_caps = 0x8000_0000

-- The fields of `struct v4l2_capability` that are filled in; a string is a list of characters.
record Capability : Type 0 where
  pub driver : List ℕ
  pub card : List ℕ
  pub bus_info : List ℕ
  pub device_caps : ℕ
  pub capabilities : ℕ

abbrev vpipe_name : List ℕ
vpipe_name = 118 ∷ 112 ∷ 105 ∷ 112 ∷ 101 ∷ []

abbrev card_name : List ℕ
card_name = 118 ∷ 112 ∷ 105 ∷ 112 ∷ 101 ∷ 32 ∷ 109 ∷ 101 ∷ 109 ∷ 50 ∷ 109 ∷ 101 ∷ 109 ∷ []

abbrev bus_name : List ℕ
bus_name = 112 ∷ 108 ∷ 97 ∷ 116 ∷ 102 ∷ 111 ∷ 114 ∷ 109 ∷ 58 ∷ 118 ∷ 112 ∷ 105 ∷ 112 ∷ 101 ∷ []

-- `vpipe_querycap`
abbrev querycap : Result Capability
querycap =
    let device_caps = cap_video_m2m + cap_streaming in
    ok (record {
      driver = vpipe_name;
      card = card_name;
      bus_info = bus_name;
      device_caps = device_caps;
      capabilities = device_caps + cap_device_caps;
    })

-- The fields of `struct vb2_queue` that are no pointers: the type, the ways in which userspace may
-- hand over its buffers, and whether the timestamps are of the monotonic clock.
record Vb2Queue : Type 0 where
  pub type : QueueType
  pub io_mmap : Bool
  pub io_dmabuf : Bool
  pub timestamp_monotonic : Bool

abbrev vb2_queue : QueueType → Vb2Queue
vb2_queue type = record {
  type = type;
  io_mmap = true;
  io_dmabuf = true;
  timestamp_monotonic = true;
}

-- The queues, or the first failure of the two set-ups.
abbrev set_up_queues : Result (Unit {0}) → Result (Unit {0}) → Result (Vb2Queue × Vb2Queue)
set_up_queues first second = do first; second; ok (vb2_queue output, vb2_queue capture)

-- `vpipe_queue_init`; `vb2_queue_init` is what that function returns for a queue.
unfoldable vpipe_queue_init : (Vb2Queue → Result (Unit {0})) → Result (Vb2Queue × Vb2Queue)
vpipe_queue_init vb2_queue_init =
    set_up_queues (vb2_queue_init (vb2_queue output)) (vb2_queue_init (vb2_queue capture))

-- Where vb2 accepts both queues, the CAPTURE queue is the OUTPUT queue but for its type.
vpipe_queue_init-alike :
    (vb2_queue_init : Vb2Queue → Result (Unit {0})) (src_vq dst_vq : Vb2Queue)
    → vpipe_queue_init vb2_queue_init ≡ ok (src_vq, dst_vq)
    → (src_vq.type ≡ output) × (dst_vq ≡ record src_vq { type = capture })
unfolding vpipe_queue_init
vpipe_queue_init-alike vb2_queue_init src_vq dst_vq h =
    cases (vb2_queue_init (vb2_queue output)) (vb2_queue_init (vb2_queue capture)) h
  where
    cases :
        (first second : Result (Unit {0}))
        → set_up_queues first second ≡ ok (src_vq, dst_vq)
        → (src_vq.type ≡ output) × (dst_vq ≡ record src_vq { type = capture })
    cases (err e) second h = absurd (cc)
    cases (ok _) (err e) h = absurd (cc)
    cases (ok _) (ok _) h =
        subst (λ q. (q.0.type ≡ output) × (q.1 ≡ record q.0 { type = capture })) (ok_inj h)
          (refl, refl)
