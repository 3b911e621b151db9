-- ===== src/User/Queues.antt =====
-- user/vpipe-common.c: the helpers on the queues of a device. A helper that fails has the outcome
-- `cleanup`, since every caller goes to that label then.
pub mod Mapped
use vpipe.Base.{ℕ, zero, suc, ◌+◌, Option, none, some, ◌∷◌, ◌==◌, if◌then◌else◌, for_range}
use vpipe.M2m.{QueueType}
use vpipe.User.Calls.{
  Kernel, Trace, Call, asked, obtained, returned, MmapBuffer, V4l2Memory, memory_mmap,
  memory_dmabuf, empty_buffer, set_format, get_format, request_buffers, query_buffer, map_memory,
  queue_buffer, descriptor, mapping, Outcome, next, cleanup, ◌then◌, must_succeed,
}

-- The array that a caller passes. It has as many entries as the caller asks for, or more (4 in
-- user/vpipe-capture-m2m.c, 32 in user/vpipe-vcam-runner.c), and only these are memory of the array: what a
-- grant of more buffers overwrites is not modelled, so what is stated of the buffers of a queue has it as a
-- condition that REQBUFS grants at most what is asked for.
abbrev pub Slots : Type 0
Slots = ℕ → MmapBuffer

-- `buffers[i] = b`
abbrev pub put_slot : Slots → ℕ → MmapBuffer → Slots
put_slot buffers i b k = if i == k then b else buffers k

-- `vpipe_set_format`: the call that it makes.
abbrev pub vpipe_set_format : Option ℕ → QueueType → ℕ → ℕ → ℕ → Call
vpipe_set_format fd type width height pixelformat = set_format fd type width height pixelformat

-- `vpipe_get_sizeimage`: 0 if the ioctl fails.
abbrev pub vpipe_get_sizeimage : Kernel → Option ℕ → QueueType → Trace → Trace × ℕ
vpipe_get_sizeimage kernel fd type trace =
    let after : Trace = asked (get_format fd type) ∷ trace in
    (after, if kernel.succeeds after then kernel.number after else 0)

-- The slot after `mmap`, which may have failed.
abbrev pub map_reply : Trace → Slots → ℕ → ℕ → Option ℕ → Outcome (Trace × Slots)
map_reply trace buffers i length none =
    cleanup (trace, put_slot buffers i (record { addr = none; length = length; dmabuf_fd = none }))
map_reply trace buffers i length (some a) = next (
  obtained (mapping a length) ∷ trace,
  put_slot buffers i (record { addr = some a; length = length; dmabuf_fd = none }),
)

-- The slot of `vpipe_request_mmap_buffers`, once the length of the buffer is known.
abbrev pub map_slot : Kernel → Option ℕ → ℕ → ℕ → Trace × Slots → Outcome (Trace × Slots)
map_slot kernel fd i length (trace, buffers) =
    let after : Trace = asked (map_memory fd length) ∷ trace in
    map_reply after buffers i length (kernel.hands_out after)

-- The body of its loop.
abbrev pub map_buffer : Kernel → Option ℕ → QueueType → ℕ → Trace × Slots → Outcome (Trace × Slots)
map_buffer kernel fd type i (trace, buffers) =
    let after : Trace = asked (query_buffer fd type i) ∷ trace in
    if kernel.succeeds after
    then map_slot kernel fd i (kernel.number after) (after, buffers)
    else cleanup (after, buffers)

unfoldable pub map_buffers :
    Kernel → Option ℕ → QueueType → ℕ → ℕ → Trace × Slots → Outcome (Trace × Slots)
map_buffers kernel fd type zero i s = next s
map_buffers kernel fd type (suc n) i s =
    map_buffer kernel fd type i s then (λ s'. map_buffers kernel fd type n (i + 1) s')

-- `vpipe_request_mmap_buffers`: as many buffers are mapped as the driver grants.
unfoldable pub vpipe_request_mmap_buffers :
    Kernel → Option ℕ → QueueType → ℕ → Trace × Slots → Outcome (Trace × Slots)
unfolding map_buffers
vpipe_request_mmap_buffers kernel fd type count (trace, buffers) =
    let after : Trace = asked (request_buffers fd type memory_mmap count) ∷ trace in
    if kernel.succeeds after
    then map_buffers kernel fd type (kernel.number after) 0 (after, buffers)
    else cleanup (after, buffers)

-- `vpipe_queue_mmap_buffer`: the call that it makes.
abbrev pub vpipe_queue_mmap_buffer : Option ℕ → QueueType → V4l2Memory → ℕ → Option ℕ → Call
vpipe_queue_mmap_buffer fd type memory_dmabuf index dmabuf_fd =
    queue_buffer fd type (record (empty_buffer memory_dmabuf index) { plane_fd = dmabuf_fd })
vpipe_queue_mmap_buffer fd type memory index dmabuf_fd =
    queue_buffer fd type (empty_buffer memory index)

-- `vpipe_queue_mmap_buffer` of the buffers `i`, `i + 1`, … of a queue, as callers do it before STREAMON.
unfoldable pub queue_all {ℓ} :
    {State : Type ℓ} → (ℕ → State → Outcome State) → ℕ → ℕ → State → Outcome State
queue_all step zero i s = next s
queue_all step (suc n) i s = step i s then (λ s'. queue_all step n (i + 1) s')

-- `munmap`, if the buffer is mapped.
abbrev pub give_mapping : Option ℕ → ℕ → Trace → Trace
give_mapping none length trace = trace
give_mapping (some a) length trace = returned (mapping a length) ∷ trace

-- `close`, if the descriptor is not negative.
abbrev pub give_descriptor : Option ℕ → Trace → Trace
give_descriptor none trace = trace
give_descriptor (some fd) trace = returned (descriptor fd) ∷ trace

-- The body of the loop of `vpipe_unmap_buffers`.
abbrev pub unmap_buffer : Slots → ℕ → Trace → Trace
unmap_buffer buffers i trace =
    give_descriptor (buffers i).dmabuf_fd (give_mapping (buffers i).addr (buffers i).length trace)

-- `vpipe_unmap_buffers`
unfoldable pub vpipe_unmap_buffers : Slots → ℕ → Trace → Trace
unfolding for_range
vpipe_unmap_buffers buffers count trace = for_range count 0 (unmap_buffer buffers) trace
