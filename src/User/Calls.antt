-- ===== src/User/Calls.antt =====
-- user/: what the tools ask of the C library and the kernel. The answers are a parameter: each is a
-- function of the calls up to and with the one that it answers, the latest first.
pub mod Balance
use vpipe.Base.{
  ℕ, zero, suc, ◌+◌, ◌≡◌, refl, Bool, true, false, Option, none, some, List, [], ◌∷◌, Bytes,
  if◌then◌else◌,
}
use vpipe.Uapi.{MetaEntry}
use vpipe.M2m.{QueueType}

-- `enum v4l2_memory`
pub data V4l2Memory : Type 0 where
  memory_mmap memory_userptr memory_dmabuf : V4l2Memory

-- The fields of `struct v4l2_buffer` that the tools fill or read; `plane_fd` is `m.fd`. A descriptor is
-- `none` where it is negative, an address where it is NULL or MAP_FAILED.
pub record V4l2Buffer : Type 0 where
  pub index : ℕ
  pub memory : V4l2Memory
  pub plane_fd : Option ℕ
  pub userptr : Option ℕ
  pub bytesused : ℕ
  pub length : ℕ
  pub sequence : ℕ

-- `memset(&buf, 0, sizeof(buf))`, and the memory and the index that are set then.
abbrev pub empty_buffer : V4l2Memory → ℕ → V4l2Buffer
empty_buffer memory index = record {
  index = index;
  memory = memory;
  plane_fd = none;
  userptr = none;
  bytesused = 0;
  length = 0;
  sequence = 0;
}

-- `struct vpipe_mmap_buffer`
pub record MmapBuffer : Type 0 where
  pub addr : Option ℕ
  pub length : ℕ
  pub dmabuf_fd : Option ℕ

-- An entry of an array that is initialised to `{0}`, and whose `dmabuf_fd` is set to -1.
abbrev pub unused_buffer : MmapBuffer
unused_buffer = record { addr = none; length = 0; dmabuf_fd = none }

-- The calls. The first argument of those on a device is its descriptor.
pub data Call : Type 0 where
  open_device open_file copy_path make_dir : List ℕ → Call
  open_sideband read_clock : Call
  alloc : ℕ → Call
  write_memory : Option ℕ → Bytes → Call
  copy_memory : Option ℕ → Option ℕ → ℕ → Call
  set_backend : Option ℕ → ℕ → Call
  set_format : Option ℕ → QueueType → ℕ → ℕ → ℕ → Call
  get_format : Option ℕ → QueueType → Call
  request_buffers : Option ℕ → QueueType → V4l2Memory → ℕ → Call
  query_buffer : Option ℕ → QueueType → ℕ → Call
  map_memory : Option ℕ → ℕ → Call
  set_control : Option ℕ → ℕ → ℕ → Call
  stream_on : Option ℕ → QueueType → Call
  queue_buffer : Option ℕ → QueueType → V4l2Buffer → Call
  dequeue_buffer : Option ℕ → QueueType → V4l2Memory → Call
  export_source : Option ℕ → Call
  export_buffer : Option ℕ → QueueType → ℕ → Call
  read_entry : Option ℕ → Call
  sleep_until : ℕ → Call

-- What a tool has to give back.
pub data Handle : Type 0 where
  descriptor file heap : ℕ → Handle
  mapping : ℕ → ℕ → Handle
  stream : Option ℕ → QueueType → Handle

-- A call, and what it has handed out; `returned` is the call that gives a handle back: close, fclose,
-- free, munmap or VIDIOC_STREAMOFF.
pub data Event : Type 0 where
  asked : Call → Event
  obtained returned : Handle → Event

abbrev pub Trace : Type 0
Trace = List Event

-- The answers: whether an ioctl succeeds; the descriptor, the address or the file that is handed out;
-- the number that is filled in or read; the buffer of a DQBUF; the row of metadata; and the contents of
-- the memory at an address.
pub record Kernel : Type 0 where
  pub succeeds : Trace → Bool
  pub hands_out : Trace → Option ℕ
  pub number : Trace → ℕ
  pub dequeued : Trace → V4l2Buffer
  pub entry : Trace → Option MetaEntry
  pub contents : Trace → ℕ → Bytes

-- A step of a tool: it goes on, or it goes to the label `cleanup`.
pub data Outcome {ℓ} (State : Type ℓ) : Type ℓ where
  next cleanup : State → Outcome State

infixl 5 ◌then◌
abbrev pub ◌then◌ {ℓ} : {State : Type ℓ} → Outcome State → (State → Outcome State) → Outcome State
next s then step = step s
cleanup s then step = cleanup s

-- The state at the label.
abbrev pub at_cleanup {ℓ} : {State : Type ℓ} → Outcome State → State
at_cleanup (next s) = s
at_cleanup (cleanup s) = s

-- The state satisfies `P` however the steps end; or `P` if they go on, and `Q` at the label.
abbrev pub Always {ℓ κ} : {State : Type ℓ} → (State → Type κ) → Outcome State → Type κ
Always P (next s) = P s
Always P (cleanup s) = P s

abbrev pub Ends {ℓ κ} :
    {State : Type ℓ} → (State → Type κ) → (State → Type κ) → Outcome State → Type κ
Ends P Q (next s) = P s
Ends P Q (cleanup s) = Q s

-- The outcome of a helper, for the state of its caller.
abbrev pub lift {ℓ κ} : {A : Type ℓ} {State : Type κ} → (A → State) → Outcome A → Outcome State
lift put (next a) = next (put a)
lift put (cleanup a) = cleanup (put a)

pub Always-lift {ℓ κ ι ν} :
    {A : Type ℓ} {State : Type κ} (P : A → Type ι) (Q : State → Type ν) (put : A → State)
    (o : Outcome A)
    → ((a : A) → P a → Q (put a))
    → Always P o
    → Always Q (lift put o)
Always-lift P Q put (next a) weaken all = weaken a all
Always-lift P Q put (cleanup a) weaken all = weaken a all

-- Steps that keep `P`; what holds at the label may be weaker.
pub Always-then {ℓ κ ι} :
    {State : Type ℓ} (P : State → Type κ) (Q : State → Type ι) (o : Outcome State)
    (step : State → Outcome State)
    → ((s : State) → P s → Q s)
    → Always P o
    → ((s : State) → P s → Always Q (step s))
    → Always Q (o then step)
Always-then P Q (next s) step weaken all keep = keep s all
Always-then P Q (cleanup s) step weaken all keep = weaken s all

pub Always-both {ℓ κ ι} :
    {State : Type ℓ} (P : State → Type κ) (Q : State → Type ι) (o : Outcome State)
    → Always P o
    → Always Q o
    → Always (λ s. P s × Q s) o
Always-both P Q (next s) p q = (p, q)
Always-both P Q (cleanup s) p q = (p, q)

pub Always-if {ℓ κ} :
    {State : Type ℓ} (P : State → Type κ) (b : Bool) (x y : Outcome State)
    → (b ≡ true → Always P x)
    → (b ≡ false → Always P y)
    → Always P (if b then x else y)
Always-if P true x y f g = f refl
Always-if P false x y f g = g refl

pub Ends-then {ℓ κ} :
    {State : Type ℓ} (P P' Q : State → Type κ) (o : Outcome State) (step : State → Outcome State)
    → Ends P Q o
    → ((s : State) → P s → Ends P' Q (step s))
    → Ends P' Q (o then step)
Ends-then P P' Q (next s) step ends keep = keep s ends
Ends-then P P' Q (cleanup s) step ends keep = ends

pub Ends-lift {ℓ κ ι ν} :
    {A : Type ℓ} {State : Type κ} (P : A → Type ι) (Q R : State → Type ν) (put : A → State)
    (o : Outcome A)
    → ((a : A) → P a → Q (put a))
    → ((a : A) → P a → R (put a))
    → Always P o
    → Ends Q R (lift put o)
Ends-lift P Q R put (next a) weaken weaken' all = weaken a all
Ends-lift P Q R put (cleanup a) weaken weaken' all = weaken' a all

pub Ends-weaken {ℓ κ} :
    {State : Type ℓ} (P P' Q : State → Type κ) (o : Outcome State)
    → ((s : State) → P s → P' s)
    → Ends P Q o
    → Ends P' Q o
Ends-weaken P P' Q (next s) weaken ends = weaken s ends
Ends-weaken P P' Q (cleanup s) weaken ends = ends

pub Ends-if {ℓ κ} :
    {State : Type ℓ} (P Q : State → Type κ) (b : Bool) (x y : Outcome State)
    → (b ≡ true → Ends P Q x)
    → (b ≡ false → Ends P Q y)
    → Ends P Q (if b then x else y)
Ends-if P Q true x y f g = f refl
Ends-if P Q false x y f g = g refl

-- An ioctl whose refusal leads to `cleanup`; `put` is the state with the new trace.
abbrev pub must_succeed {ℓ} :
    {State : Type ℓ} → Kernel → Call → Trace → (Trace → State) → Outcome State
must_succeed kernel call trace put =
    if kernel.succeeds (asked call ∷ trace)
    then next (put (asked call ∷ trace))
    else cleanup (put (asked call ∷ trace))

pub must_succeed-Always {ℓ κ} :
    {State : Type ℓ} (P : State → Type κ) (kernel : Kernel) (call : Call) (trace : Trace)
    (put : Trace → State)
    → P (put (asked call ∷ trace))
    → Always P (must_succeed kernel call trace put)
must_succeed-Always P kernel call trace put p =
    Always-if P (kernel.succeeds (asked call ∷ trace)) (next (put (asked call ∷ trace)))
      (cleanup (put (asked call ∷ trace))) (λ _. p) (λ _. p)

pub must_succeed-Ends {ℓ κ} :
    {State : Type ℓ} (P Q : State → Type κ) (kernel : Kernel) (call : Call) (trace : Trace)
    (put : Trace → State)
    → P (put (asked call ∷ trace))
    → Q (put (asked call ∷ trace))
    → Ends P Q (must_succeed kernel call trace put)
must_succeed-Ends P Q kernel call trace put p q =
    Ends-if P Q (kernel.succeeds (asked call ∷ trace)) (next (put (asked call ∷ trace)))
      (cleanup (put (asked call ∷ trace))) (λ _. p) (λ _. q)
