-- ===== src/User/Quiet.antt =====
-- user/vpipe-common.c: the helpers copy no frame and queue nothing on an OUTPUT queue, and what does not look at other
-- calls is kept by them.
use vpipe.Base.{
  ℕ, zero, suc, ◌+◌, ◌<◌, ◌≡◌, refl, arith, Bool, true, false, Option, none, some, List, [], ◌∷◌,
  ◌++◌, ◌==◌, if◌then◌else◌, for_range,
}
use vpipe.M2m.{QueueType, output}
use vpipe.User.Calls.{
  Kernel, Trace, Handle, Call, asked, obtained, returned, queue_buffer, query_buffer, map_memory,
  request_buffers, copy_memory, memory_mmap, mapping, descriptor, heap, file, copy_path, open_file,
  Outcome, next, cleanup, ◌then◌, Always, Always-then, Always-if, must_succeed-Always, make_dir,
}
use vpipe.User.Queues.{
  Slots, map_reply, map_buffer, map_buffers, vpipe_request_mmap_buffers, give_mapping,
  give_descriptor, unmap_buffer, vpipe_unmap_buffers,
}
use vpipe.User.Csv.{
  parent_of, slash, make_one, make_dirs, make_parents, free_copy, ensure_copied,
  vpipe_ensure_parent_dir, opened, open_after, vpipe_open_csv,
}

abbrev pub feeds_output : Call → Bool
feeds_output (queue_buffer fd output b) = true
feeds_output (copy_memory to from n) = true
feeds_output call = false

-- What feeds an OUTPUT queue, and a QUERYBUF, after which a slot of an array is filled.
abbrev pub fills : Call → Bool
fills (query_buffer fd type i) = true
fills call = feeds_output call

pub fills-feeds_output : (call : Call) → fills call ≡ false → feeds_output call ≡ false
fills-feeds_output (query_buffer fd type i) h = refl
fills-feeds_output call h = h

-- A fact on the calls that only a QBUF of an OUTPUT queue, a copy of a frame, or a QUERYBUF can change.
pub record IsQuiet {ℓ} (P : Trace → Type ℓ) : Type ℓ where
  pub asks : (call : Call) (trace : Trace) → fills call ≡ false → P trace → P (asked call ∷ trace)
  pub gets : (handle : Handle) (trace : Trace) → P trace → P (obtained handle ∷ trace)
  pub gives : (handle : Handle) (trace : Trace) → P trace → P (returned handle ∷ trace)

module _ {ℓ} (P : Trace → Type ℓ) (quiet : IsQuiet P) (kernel : Kernel) where
  open quiet use {asks, gets, gives}

  abbrev First : Trace × Slots → Type ℓ
  First (trace, buffers) = P trace

  map_reply-keeps :
      (trace : Trace) (buffers : Slots) (i length : ℕ) (reply : Option ℕ)
      → P trace
      → Always First (map_reply trace buffers i length reply)
  map_reply-keeps trace buffers i length none p = p
  map_reply-keeps trace buffers i length (some a) p = gets (mapping a length) trace p

  map_buffer-keeps :
      (fd : Option ℕ) (type : QueueType) (i : ℕ) (s : Trace × Slots)
      → ((t : Trace) → P t → P (asked (query_buffer fd type i) ∷ t))
      → First s
      → Always First (map_buffer kernel fd type i s)
  map_buffer-keeps fd type i (trace, buffers) queried p =
      let after : Trace = asked (query_buffer fd type i) ∷ trace in
      let p' : P after = queried trace p in
      Always-if First (kernel.succeeds after) _ _
        (λ _.
          map_reply-keeps (asked (map_memory fd (kernel.number after)) ∷ after) buffers i
            (kernel.number after) _ (asks (map_memory fd (kernel.number after)) after refl p'))
        (λ _. p')

  map_buffers-keeps :
      (fd : Option ℕ) (type : QueueType) (n i : ℕ) (s : Trace × Slots)
      → ((k : ℕ) (t : Trace) → k < i + n → P t → P (asked (query_buffer fd type k) ∷ t))
      → First s
      → Always First (map_buffers kernel fd type n i s)
  unfolding map_buffers
  map_buffers-keeps fd type zero i s queried p = p
  map_buffers-keeps fd type (suc n) i s queried p =
      Always-then First First (map_buffer kernel fd type i s)
        (λ s'. map_buffers kernel fd type n (i + 1) s') (λ s p. p)
        (map_buffer-keeps fd type i s (λ t. queried i t (omega arith)) p)
        (λ s p. map_buffers-keeps fd type n (i + 1) s (λ k t h. queried k t (omega arith)) p)

  pub vpipe_request_mmap_buffers-keeps :
      (fd : Option ℕ) (type : QueueType) (count : ℕ) (s : Trace × Slots)
      → ((before : Trace) (k : ℕ) (t : Trace)
          → k < kernel.number (asked (request_buffers fd type memory_mmap count) ∷ before)
          → P t
          → P (asked (query_buffer fd type k) ∷ t))
      → First s
      → Always First (vpipe_request_mmap_buffers kernel fd type count s)
  unfolding vpipe_request_mmap_buffers
  vpipe_request_mmap_buffers-keeps fd type count (trace, buffers) queried p =
      let after : Trace = asked (request_buffers fd type memory_mmap count) ∷ trace in
      let p' : P after = asks (request_buffers fd type memory_mmap count) trace refl p in
      Always-if First (kernel.succeeds after) _ _
        (λ _.
          map_buffers-keeps fd type (kernel.number after) 0 (after, buffers)
            (λ k t h. queried trace k t (omega arith)) p')
        (λ _. p')

  make_one-keeps : (path : List ℕ) (trace : Trace) → P trace → Always P (make_one kernel path trace)
  make_one-keeps path trace p =
      must_succeed-Always P kernel (make_dir path) trace (λ t. t)
        (asks (make_dir path) trace refl p)

  make_dirs-keeps :
      (front path : List ℕ) (trace : Trace) → P trace → Always P (make_dirs kernel front path trace)
  unfolding make_dirs
  make_dirs-keeps front [] trace p = make_one-keeps front trace p
  make_dirs-keeps front (c ∷ path) trace p =
      Always-then P P (if c == slash then make_one kernel front trace else next trace)
        (λ t. make_dirs kernel (front ++ (c ∷ [])) path t) (λ t p. p)
        (Always-if P (c == slash) (make_one kernel front trace) (next trace)
          (λ _. make_one-keeps front trace p) (λ _. p))
        (λ t p. make_dirs-keeps (front ++ (c ∷ [])) path t p)

  make_parents-keeps :
      (above : Option (List ℕ)) (trace : Trace)
      → P trace
      → Always P (make_parents kernel above trace)
  unfolding make_parents
  make_parents-keeps none trace p = p
  make_parents-keeps (some []) trace p = p
  make_parents-keeps (some (c ∷ path)) trace p = make_dirs-keeps (c ∷ []) path trace p

  free_copy-keeps : (copy : ℕ) (o : Outcome Trace) → Always P o → Always P (free_copy copy o)
  free_copy-keeps copy (next trace) p = gives (heap copy) trace p
  free_copy-keeps copy (cleanup trace) p = gives (heap copy) trace p

  ensure_copied-keeps :
      (path : List ℕ) (trace : Trace) (copy : Option ℕ)
      → P trace
      → Always P (ensure_copied kernel path trace copy)
  unfolding ensure_copied
  ensure_copied-keeps path trace none p = p
  ensure_copied-keeps path trace (some copy) p = free_copy-keeps copy _ (
      make_parents-keeps (parent_of path) (obtained (heap copy) ∷ trace) (gets (heap copy) trace p))

  opened-keeps : (trace : Trace) (fp : Option ℕ) → P trace → P (opened trace fp).0
  opened-keeps trace none p = p
  opened-keeps trace (some fp) p = gets (file fp) trace p

  pub vpipe_open_csv-keeps :
      (path : List ℕ) (trace : Trace) → P trace → P (vpipe_open_csv kernel path trace).0
  unfolding vpipe_open_csv vpipe_ensure_parent_dir
  vpipe_open_csv-keeps path trace p = after (vpipe_ensure_parent_dir kernel path trace) (
      ensure_copied-keeps path (asked (copy_path path) ∷ trace) _
        (asks (copy_path path) trace refl p))
    where
      after : (o : Outcome Trace) → Always P o → P (open_after kernel path o).0
      after (next t) p =
          opened-keeps (asked (open_file path) ∷ t) _ (asks (open_file path) t refl p)
      after (cleanup t) p = p

  give_mapping-keeps :
      (a : Option ℕ) (length : ℕ) (trace : Trace) → P trace → P (give_mapping a length trace)
  give_mapping-keeps none length trace p = p
  give_mapping-keeps (some a) length trace p = gives (mapping a length) trace p

  pub give_descriptor-keeps :
      (fd : Option ℕ) (trace : Trace) → P trace → P (give_descriptor fd trace)
  give_descriptor-keeps none trace p = p
  give_descriptor-keeps (some fd) trace p = gives (descriptor fd) trace p

  unmap_buffers-keeps :
      (buffers : Slots) (n i : ℕ) (trace : Trace)
      → P trace
      → P (for_range n i (unmap_buffer buffers) trace)
  unfolding for_range
  unmap_buffers-keeps buffers zero i trace p = p
  unmap_buffers-keeps buffers (suc n) i trace p = unmap_buffers-keeps buffers n (i + 1) _ (
      give_descriptor-keeps (buffers i).dmabuf_fd _
        (give_mapping-keeps (buffers i).addr (buffers i).length trace p))

  pub vpipe_unmap_buffers-keeps :
      (buffers : Slots) (n : ℕ) (trace : Trace) → P trace → P (vpipe_unmap_buffers buffers n trace)
  unfolding vpipe_unmap_buffers
  vpipe_unmap_buffers-keeps buffers n trace p = unmap_buffers-keeps buffers n 0 trace p
