-- ===== src/User/Queues/Mapped.antt =====
-- user/vpipe-common.c: what the buffers of a queue hold, from `vpipe_request_mmap_buffers` to
-- `vpipe_unmap_buffers`.
use vpipe.Base.{
  ℕ, zero, suc, ◌+◌, ◌≤◌, ◌<◌, ◌≡◌, ◌≢◌, refl, ap, ◌∙◌, Option, none, some, ◌∷◌, arith, for_range,
}
use native.Mathlib.Decide.{ℕ_discrete}
use vpipe.M2m.{QueueType}
use vpipe.User.Calls.{
  Kernel, Trace, Handle, unused_buffer, asked, obtained, MmapBuffer, descriptor, mapping,
  request_buffers, memory_mmap, Always, Always-if, Always-then, map_memory, query_buffer,
}
use vpipe.User.Calls.Balance.{taken, given_back, held}
use vpipe.User.Queues.{
  Slots, put_slot, map_reply, map_slot, map_buffer, give_mapping, give_descriptor, map_buffers,
  vpipe_request_mmap_buffers, unmap_buffer, vpipe_unmap_buffers,
}

pub put_slot_self :
    (buffers : Slots) (k i : ℕ) (b : MmapBuffer) → k ≡ i → put_slot buffers k b i ≡ b
put_slot_self buffers k i b h = ground arith

pub put_slot-other :
    (buffers : Slots) (k i : ℕ) (b : MmapBuffer) → k ≢ i → put_slot buffers k b i ≡ buffers i
put_slot-other buffers k i b h = ground arith

module _ (cost : MmapBuffer → ℕ) where
  -- What the `n` buffers from `i` on cost together.
  unfoldable pub slots_cost : ℕ → ℕ → Slots → ℕ
  slots_cost zero i buffers = 0
  slots_cost (suc n) i buffers = cost (buffers i) + slots_cost n (i + 1) buffers

  slots_cost-below :
      (n i k : ℕ) (buffers : Slots) (b : MmapBuffer)
      → k < i
      → slots_cost n i (put_slot buffers k b) ≡ slots_cost n i buffers
  unfolding slots_cost
  slots_cost-below zero i k buffers b h = refl
  slots_cost-below (suc n) i k buffers b h = ground (arith, slots_cost-below n (i + 1) k buffers b)

  pub slots_cost-put :
      (n i k : ℕ) (buffers : Slots) (b : MmapBuffer)
      → i ≤ k
      → k < i + n
      → slots_cost n i (put_slot buffers k b) + cost (buffers k) ≡ slots_cost n i buffers + cost b
  unfolding slots_cost
  slots_cost-put zero i k buffers b h h' = absurd (omega arith)
  slots_cost-put (suc n) i k buffers b h h' = elim (ℕ_discrete k i) [
    | yes same ↦ omega (
      arith,
      ap cost (put_slot_self buffers k i b same),
      ap (λ m. cost (buffers m)) same,
      slots_cost-below n (i + 1) k buffers b (omega arith),
    )
    | no other ↦ ground (arith, slots_cost-put n (i + 1) k buffers b)
  ]

-- The driver grants at most what is asked for.
abbrev pub Grants : Kernel → Option ℕ → QueueType → ℕ → Type 0
Grants kernel fd type count =
    (trace : Trace)
    → kernel.number (asked (request_buffers fd type memory_mmap count) ∷ trace) ≤ count

module _ (weight : Handle → ℕ) where
  -- What a buffer holds.
  unfoldable pub buffer_held : MmapBuffer → ℕ
  buffer_held b = held weight (λ a. mapping a b.length) b.addr + held weight descriptor b.dmabuf_fd

  abbrev pub slots_held : ℕ → Slots → ℕ
  slots_held n buffers = slots_cost buffer_held n 0 buffers

  -- The calls account for `rest` and for the buffers, and those from `i` on hold nothing.
  abbrev pub Accounts : ℕ → ℕ → ℕ → Trace × Slots → Type 0
  Accounts count rest i (trace, buffers) =
      (taken weight trace ≡ given_back weight trace + (rest + slots_held count buffers))
      × ((j : ℕ) → i ≤ j → buffer_held (buffers j) ≡ 0)

  module _ (kernel : Kernel) (fd : Option ℕ) (type : QueueType) (count rest : ℕ) where
    put-Accounts :
        (i : ℕ) (trace trace' : Trace) (buffers : Slots) (b : MmapBuffer)
        → i < count
        → Accounts count rest i (trace, buffers)
        → taken weight trace' ≡ buffer_held b + taken weight trace
        → given_back weight trace' ≡ given_back weight trace
        → Accounts count rest (i + 1) (trace', put_slot buffers i b)
    put-Accounts i trace trace' buffers b h (account, free) e e' = (
      omega (arith, slots_cost-put buffer_held count 0 i buffers b, free i),
      λ j k. ap buffer_held (put_slot-other buffers i j b (omega arith)) ∙ free j (omega arith),
    )

    map_reply-Accounts :
        (i length : ℕ) (trace : Trace) (buffers : Slots) (reply : Option ℕ)
        → i < count
        → Accounts count rest i (trace, buffers)
        → Always (Accounts count rest (i + 1)) (map_reply trace buffers i length reply)
    unfolding buffer_held
    map_reply-Accounts i length trace buffers none h a =
        put-Accounts i trace trace buffers _ h a (omega arith) refl
    map_reply-Accounts i length trace buffers (some at) h a =
        put-Accounts i trace (obtained (mapping at length) ∷ trace) buffers _ h a (omega arith) refl

    map_buffer-Accounts :
        (i : ℕ) (s : Trace × Slots)
        → i < count
        → Accounts count rest i s
        → Always (Accounts count rest (i + 1)) (map_buffer kernel fd type i s)
    map_buffer-Accounts i (trace, buffers) h (account, free) =
        let after : Trace = asked (query_buffer fd type i) ∷ trace in
        let mapped : Always (Accounts count rest (i + 1))
            (map_slot kernel fd i (kernel.number after) (after, buffers)) =
          map_reply-Accounts i (kernel.number after)
            (asked (map_memory fd (kernel.number after)) ∷ after) buffers _ h (account, free) in
        ground arith

    map_buffers-Accounts :
        (n i : ℕ) (s : Trace × Slots)
        → i + n ≤ count
        → Accounts count rest i s
        → Always (Accounts count rest count) (map_buffers kernel fd type n i s)
    unfolding map_buffers
    map_buffers-Accounts zero i (trace, buffers) h (account, free) =
        (account, λ j k. free j (omega arith))
    map_buffers-Accounts (suc n) i s h a =
        Always-then (Accounts count rest (i + 1)) (Accounts count rest count)
          (map_buffer kernel fd type i s) (λ s'. map_buffers kernel fd type n (i + 1) s')
          (λ (t, b) (account, free). (account, λ j k. free j (omega arith)))
          (map_buffer-Accounts i s (omega arith) a)
          (λ s' a'. map_buffers-Accounts n (i + 1) s' (omega arith) a')

    pub vpipe_request_mmap_buffers-Accounts :
        (s : Trace × Slots)
        → Grants kernel fd type count
        → Accounts count rest 0 s
        → Always (Accounts count rest count) (vpipe_request_mmap_buffers kernel fd type count s)
    unfolding vpipe_request_mmap_buffers
    vpipe_request_mmap_buffers-Accounts (trace, buffers) grants (account, free) =
        let after : Trace = asked (request_buffers fd type memory_mmap count) ∷ trace in
        let mapped : Always (Accounts count rest count)
            (map_buffers kernel fd type (kernel.number after) 0 (after, buffers)) =
          map_buffers-Accounts (kernel.number after) 0 (after, buffers)
            (omega (arith, grants trace)) (account, free) in
        let failed : Accounts count rest count (after, buffers) =
          (account, λ j k. free j (omega arith)) in
        ground arith

  -- Nothing is obtained, and `n` more is given back.
  abbrev pub Gives : Trace → Trace → ℕ → Type 0
  Gives trace trace' n =
      (taken weight trace' ≡ taken weight trace)
      × (given_back weight trace' ≡ given_back weight trace + n)

  give_mapping-Gives :
      (a : Option ℕ) (length : ℕ) (trace : Trace)
      → Gives trace (give_mapping a length trace) (held weight (λ a. mapping a length) a)
  give_mapping-Gives none length trace = (refl, omega arith)
  give_mapping-Gives (some a) length trace = (refl, omega arith)

  pub give_descriptor-Gives :
      (fd : Option ℕ) (trace : Trace)
      → Gives trace (give_descriptor fd trace) (held weight descriptor fd)
  give_descriptor-Gives none trace = (refl, omega arith)
  give_descriptor-Gives (some fd) trace = (refl, omega arith)

  unmap_buffer-Gives :
      (buffers : Slots) (i : ℕ) (trace : Trace)
      → Gives trace (unmap_buffer buffers i trace) (buffer_held (buffers i))
  unfolding buffer_held
  unmap_buffer-Gives buffers i trace =
      let after : Trace = give_mapping (buffers i).addr (buffers i).length trace in
      let (e, e') = give_mapping-Gives (buffers i).addr (buffers i).length trace in
      let (d, d') = give_descriptor-Gives (buffers i).dmabuf_fd after in (d ∙ e, omega arith)

  unmap_buffers-Gives :
      (n i : ℕ) (buffers : Slots) (trace : Trace)
      → Gives trace
          (for_range n i (unmap_buffer buffers) trace)
          (slots_cost buffer_held n i buffers)
  unfolding for_range slots_cost
  unmap_buffers-Gives zero i buffers trace = (refl, omega arith)
  unmap_buffers-Gives (suc n) i buffers trace =
      let (e, e') = unmap_buffer-Gives buffers i trace in
      let (d, d') = unmap_buffers-Gives n (i + 1) buffers (unmap_buffer buffers i trace) in
      (d ∙ e, omega arith)

  pub vpipe_unmap_buffers-Gives :
      (buffers : Slots) (n : ℕ) (trace : Trace)
      → Gives trace (vpipe_unmap_buffers buffers n trace) (slots_held n buffers)
  unfolding vpipe_unmap_buffers
  vpipe_unmap_buffers-Gives buffers n trace = unmap_buffers-Gives n 0 buffers trace

-- An array of unused buffers holds nothing.
pub unused-held :
    (weight : Handle → ℕ) (n i : ℕ) → slots_cost (buffer_held weight) n i (λ _. unused_buffer) ≡ 0
unfolding slots_cost buffer_held
unused-held weight zero i = refl
unused-held weight (suc n) i = omega (arith, unused-held weight n (i + 1))

-- The array after the request has no exported buffer, if it had none before.
module _ (kernel : Kernel) (fd : Option ℕ) (type : QueueType) where
  abbrev pub Unexported : Trace × Slots → Type 0
  Unexported (trace, buffers) = (j : ℕ) → (buffers j).dmabuf_fd ≡ none

  put-Unexported :
      (trace trace' : Trace) (buffers : Slots) (i : ℕ) (b : MmapBuffer)
      → b.dmabuf_fd ≡ none
      → Unexported (trace, buffers)
      → Unexported (trace', put_slot buffers i b)
  put-Unexported trace trace' buffers i b e u j = elim (ℕ_discrete i j) [
    | yes same ↦ ap (λ b'. b'.dmabuf_fd) (put_slot_self buffers i j b same) ∙ e
    | no other ↦ ap (λ b'. b'.dmabuf_fd) (put_slot-other buffers i j b other) ∙ u j
  ]

  map_buffer-Unexported :
      (i : ℕ) (s : Trace × Slots) → Unexported s → Always Unexported (map_buffer kernel fd type i s)
  map_buffer-Unexported i (trace, buffers) u =
      let after : Trace = asked (query_buffer fd type i) ∷ trace in
      Always-if Unexported (kernel.succeeds after) _ _
        (λ _.
          reply (asked (map_memory fd (kernel.number after)) ∷ after) (kernel.number after)
            (kernel.hands_out (asked (map_memory fd (kernel.number after)) ∷ after)))
        (λ _. u)
    where
      reply :
          (t : Trace) (length : ℕ) (a : Option ℕ)
          → Always Unexported (map_reply t buffers i length a)
      reply t length none = put-Unexported t t buffers i _ refl u
      reply t length (some a) = put-Unexported t t buffers i _ refl u

  map_buffers-Unexported :
      (n i : ℕ) (s : Trace × Slots)
      → Unexported s
      → Always Unexported (map_buffers kernel fd type n i s)
  unfolding map_buffers
  map_buffers-Unexported zero i s u = u
  map_buffers-Unexported (suc n) i s u =
      Always-then Unexported Unexported (map_buffer kernel fd type i s)
        (λ s'. map_buffers kernel fd type n (i + 1) s') (λ s u. u) (map_buffer-Unexported i s u)
        (λ s u. map_buffers-Unexported n (i + 1) s u)

  pub vpipe_request_mmap_buffers-Unexported :
      (count : ℕ) (s : Trace × Slots)
      → Unexported s
      → Always Unexported (vpipe_request_mmap_buffers kernel fd type count s)
  unfolding vpipe_request_mmap_buffers
  vpipe_request_mmap_buffers-Unexported count (trace, buffers) u =
      let after : Trace = asked (request_buffers fd type memory_mmap count) ∷ trace in
      Always-if Unexported (kernel.succeeds after) _ _
        (λ _. map_buffers-Unexported (kernel.number after) 0 (after, buffers) u) (λ _. u)
