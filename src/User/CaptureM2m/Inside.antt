-- ===== src/User/CaptureM2m/Inside.antt =====
-- user/vpipe-capture-m2m.c: what the program copies and queues is inside of its buffers.
use vpipe.Base.{
  ℕ, zero, suc, ◌+◌, ◌≤◌, ◌<◌, ◌≡◌, refl, sym, subst, arith, false, Option, none, some, [], ◌∷◌,
}
use mathlib.Core.List.{Memᴰ}
use native.Mathlib.Decide.{ℕ_discrete}
use vpipe.M2m.{QueueType, output}
use vpipe.User.Calls.{
  Kernel, MmapBuffer, Trace, Call, asked, obtained, returned, mapping, copy_memory, queue_buffer,
  query_buffer, map_memory, request_buffers, memory_mmap, Ends, Ends-then, Ends-if,
}
use vpipe.User.Queues.{
  Slots, put_slot, map_reply, map_buffer, map_buffers, vpipe_request_mmap_buffers,
}
use vpipe.User.Queues.Mapped.{put_slot_self, put_slot-other}
use vpipe.User.Quiet.{fills, IsQuiet}
use vpipe.User.CaptureM2m.Setup.{buffer_count}

-- The `n` bytes at an address are inside of a mapping that was obtained before.
abbrev Covers : Trace → Option ℕ → ℕ → Type 0
Covers trace none n = n ≡ 0
Covers trace (some a) n = (length : ℕ) × (n ≤ length) × Memᴰ (obtained (mapping a length)) trace

-- A copy is inside of both mappings, and a buffer that is asked about, after which its slot of an array is
-- filled, or is queued on an OUTPUT queue has a slot of the arrays.
abbrev CallInside : Call → Trace → Type 0
CallInside (copy_memory to from n) trace = Covers trace to n × Covers trace from n
CallInside (queue_buffer fd output b) trace = b.index < buffer_count
CallInside (query_buffer fd type i) trace = i < buffer_count
CallInside call trace = Unit

-- Every call was.
abbrev pub FeedsInside : Trace → Type 0
FeedsInside [] = Unit
FeedsInside (asked call ∷ trace) = CallInside call trace × FeedsInside trace
FeedsInside (obtained handle ∷ trace) = FeedsInside trace
FeedsInside (returned handle ∷ trace) = FeedsInside trace

pub Covers-cons :
    (event : _) (trace : Trace) (a : Option ℕ) (n : ℕ)
    → Covers trace a n
    → Covers (event ∷ trace) a n
Covers-cons event trace none n h = h
Covers-cons event trace (some a) n (length, le, m) = (length, le, Memᴰ.tail m)

pub Covers-less :
    (trace : Trace) (a : Option ℕ) (m n : ℕ) → m ≤ n → Covers trace a n → Covers trace a m
Covers-less trace none m n le h = omega arith
Covers-less trace (some a) m n le (length, le', mem) = (length, omega arith, mem)

other-inside : (call : Call) (trace : Trace) → fills call ≡ false → CallInside call trace
other-inside (copy_memory to from n) trace q = absurd (cc)
other-inside (queue_buffer fd output b) trace q = absurd (cc)
other-inside (query_buffer fd type i) trace q = absurd (cc)
other-inside call trace q = tt

pub FeedsInside-IsQuiet : IsQuiet FeedsInside
FeedsInside-IsQuiet = record {
  asks = λ call trace q h. (other-inside call trace q, h);
  gets = λ handle trace h. h;
  gives = λ handle trace h. h;
}

-- The bytes of a buffer are mapped, if it has an address; else it has none.
abbrev pub Backed : Trace → Slots → Type 0
Backed trace buffers = (j : ℕ) → Covers trace (buffers j).addr (buffers j).length

pub Backed-IsQuiet : (buffers : Slots) → IsQuiet (λ trace. Backed trace buffers)
Backed-IsQuiet buffers = record {
  asks = λ call trace q h j. Covers-cons (asked call) trace _ _ (h j);
  gets = λ handle trace h j. Covers-cons (obtained handle) trace _ _ (h j);
  gives = λ handle trace h j. Covers-cons (returned handle) trace _ _ (h j);
}

-- A request gives backed buffers.
module _ (kernel : Kernel) (fd : Option ℕ) (type : QueueType) where
  abbrev BothBacked : Trace × Slots → Type 0
  BothBacked (trace, buffers) = Backed trace buffers

  abbrev Anything : Trace × Slots → Type 0
  Anything s = Unit

  pub put-Backed :
      (trace : Trace) (buffers : Slots) (i : ℕ) (b : MmapBuffer)
      → Covers trace b.addr b.length
      → Backed trace buffers
      → Backed trace (put_slot buffers i b)
  put-Backed trace buffers i b covers backed j = elim (ℕ_discrete i j) [
    | yes same ↦
        subst (λ k. Covers trace k.addr k.length) (sym (put_slot_self buffers i j b same)) covers
    | no other ↦
        subst (λ k. Covers trace k.addr k.length) (sym (put_slot-other buffers i j b other))
          (backed j)
  ]

  map_reply-Backed :
      (trace : Trace) (buffers : Slots) (i length : ℕ) (a : Option ℕ)
      → Backed trace buffers
      → Ends BothBacked Anything (map_reply trace buffers i length a)
  map_reply-Backed trace buffers i length none backed = tt
  map_reply-Backed trace buffers i length (some a) backed =
      put-Backed (obtained (mapping a length) ∷ trace) buffers i
        (record { addr = some a; length = length; dmabuf_fd = none })
        (length, omega arith, Memᴰ.head refl)
        ((Backed-IsQuiet buffers).gets (mapping a length) trace backed)

  map_buffer-Backed :
      (i : ℕ) (s : Trace × Slots)
      → BothBacked s
      → Ends BothBacked Anything (map_buffer kernel fd type i s)
  map_buffer-Backed i (trace, buffers) backed =
      let after : Trace = asked (query_buffer fd type i) ∷ trace in
      let mapped : Trace = asked (map_memory fd (kernel.number after)) ∷ after in
      Ends-if BothBacked Anything (kernel.succeeds after) _ _
        (λ _. map_reply-Backed mapped buffers i (kernel.number after) (kernel.hands_out mapped) (
          (Backed-IsQuiet buffers).asks (map_memory fd (kernel.number after)) after refl
            (λ j. Covers-cons (asked (query_buffer fd type i)) trace _ _ (backed j))))
        (λ _. tt)

  map_buffers-Backed :
      (n i : ℕ) (s : Trace × Slots)
      → BothBacked s
      → Ends BothBacked Anything (map_buffers kernel fd type n i s)
  unfolding map_buffers
  map_buffers-Backed zero i s backed = backed
  map_buffers-Backed (suc n) i s backed =
      Ends-then BothBacked BothBacked Anything (map_buffer kernel fd type i s)
        (λ s'. map_buffers kernel fd type n (i + 1) s') (map_buffer-Backed i s backed)
        (λ s b. map_buffers-Backed n (i + 1) s b)

  pub vpipe_request_mmap_buffers-Backed :
      (count : ℕ) (s : Trace × Slots)
      → BothBacked s
      → Ends BothBacked Anything (vpipe_request_mmap_buffers kernel fd type count s)
  unfolding vpipe_request_mmap_buffers
  vpipe_request_mmap_buffers-Backed count (trace, buffers) backed =
      let call : Call = request_buffers fd type memory_mmap count in
      let after : Trace = asked call ∷ trace in
      Ends-if BothBacked Anything (kernel.succeeds after) _ _
        (λ _.
          map_buffers-Backed (kernel.number after) 0 (after, buffers)
            ((Backed-IsQuiet buffers).asks call trace refl backed))
        (λ _. tt)
