-- ===== src/User/Runner/Loop/Goes.antt =====
-- user/vpipe-vcam-runner.c: the calls of a run that succeed, in the helpers.
use vpipe.Base.{
  ℕ, zero, suc, ◌+◌, ◌<◌, ◌≡◌, ◌≢◌, refl, arith, true, false, Option, none, some, List, [], ◌∷◌,
  ◌++◌, leb, ◌==◌, if◌then◌else◌,
}
use vpipe.M2m.{QueueType}
use vpipe.User.Calls.{
  Kernel, Trace, Call, asked, query_buffer, map_memory, request_buffers, memory_mmap, copy_path,
  make_dir, open_file, Outcome, next, cleanup, ◌then◌, Ends, Ends-then, Ends-if, must_succeed,
}
use vpipe.User.Queues.{Slots, map_buffer, map_buffers, vpipe_request_mmap_buffers}
use vpipe.User.Csv.{
  parent_of, slash, make_one, make_dirs, make_parents, free_copy, ensure_copied,
  vpipe_ensure_parent_dir, open_after, vpipe_open_csv,
}

-- Every call succeeds: the ioctls return 0, what is opened is opened, the size of an image is not 0, and
-- the buffers are those of the queue.
pub record Answers (kernel : Kernel) (count : ℕ) : Type 0 where
  pub succeeds : (trace : Trace) → kernel.succeeds trace ≡ true
  pub hands_out : (trace : Trace) → (n : ℕ) × (kernel.hands_out trace ≡ some n)
  pub sized : (trace : Trace) → kernel.number trace ≢ 0
  pub indexed : (trace : Trace) → (kernel.dequeued trace).index < count

pub gt→leb : (a b : ℕ) → b < a → leb a b ≡ false
gt→leb a b h = ground arith

-- The step does not lead to the label.
abbrev pub Goes : {State : Type 0} → Outcome State → Type 0
Goes o = Ends (λ _. Unit) (λ _. ⊥) o

pub Goes-then :
    {State : Type 0} (o : Outcome State) (step : State → Outcome State)
    → Goes o
    → ((s : State) → Goes (step s))
    → Goes (o then step)
Goes-then o step goes on = Ends-then (λ _. Unit) (λ _. Unit) (λ _. ⊥) o step goes (λ s _. on s)

module _ (kernel : Kernel) (count : ℕ) (answers : Answers kernel count) where
  pub must_succeed-Goes :
      {State : Type 0} (call : Call) (trace : Trace) (put : Trace → State)
      → Goes (must_succeed kernel call trace put)
  must_succeed-Goes call trace put = rw (answers.succeeds (asked call ∷ trace)) tt

  map_buffer-Goes :
      (fd : Option ℕ) (type : QueueType) (i : ℕ) (s : Trace × Slots)
      → Goes (map_buffer kernel fd type i s)
  map_buffer-Goes fd type i (trace, buffers) =
      let after : Trace = asked (query_buffer fd type i) ∷ trace in
      let (a, mapped) = answers.hands_out (asked (map_memory fd (kernel.number after)) ∷ after) in
      rw (answers.succeeds after, mapped) tt

  map_buffers-Goes :
      (fd : Option ℕ) (type : QueueType) (n i : ℕ) (s : Trace × Slots)
      → Goes (map_buffers kernel fd type n i s)
  unfolding map_buffers
  map_buffers-Goes fd type zero i s = tt
  map_buffers-Goes fd type (suc n) i s =
      Goes-then (map_buffer kernel fd type i s) (λ s'. map_buffers kernel fd type n (i + 1) s')
        (map_buffer-Goes fd type i s) (λ s. map_buffers-Goes fd type n (i + 1) s)

  pub vpipe_request_mmap_buffers-Goes :
      (fd : Option ℕ) (type : QueueType) (n : ℕ) (s : Trace × Slots)
      → Goes (vpipe_request_mmap_buffers kernel fd type n s)
  unfolding vpipe_request_mmap_buffers
  vpipe_request_mmap_buffers-Goes fd type n (trace, buffers) =
      let after : Trace = asked (request_buffers fd type memory_mmap n) ∷ trace in
      rw (answers.succeeds after)
        (map_buffers-Goes fd type (kernel.number after) 0 (after, buffers))

  make_dirs-Goes : (front path : List ℕ) (trace : Trace) → Goes (make_dirs kernel front path trace)
  unfolding make_dirs
  make_dirs-Goes front [] trace = must_succeed-Goes (make_dir front) trace (λ t. t)
  make_dirs-Goes front (c ∷ path) trace =
      Goes-then (if c == slash then make_one kernel front trace else next trace)
        (λ t. make_dirs kernel (front ++ (c ∷ [])) path t)
        (Ends-if (λ _. Unit) (λ _. ⊥) (c == slash) (make_one kernel front trace) (next trace)
          (λ _. must_succeed-Goes (make_dir front) trace (λ t. t)) (λ _. tt))
        (λ t. make_dirs-Goes (front ++ (c ∷ [])) path t)

  make_parents-Goes :
      (above : Option (List ℕ)) (trace : Trace) → Goes (make_parents kernel above trace)
  unfolding make_parents
  make_parents-Goes none trace = tt
  make_parents-Goes (some []) trace = tt
  make_parents-Goes (some (c ∷ path)) trace = make_dirs-Goes (c ∷ []) path trace

  free_copy-Goes : (copy : ℕ) (o : Outcome Trace) → Goes o → Goes (free_copy copy o)
  free_copy-Goes copy (next trace) goes = tt
  free_copy-Goes copy (cleanup trace) goes = goes

  vpipe_ensure_parent_dir-Goes :
      (path : List ℕ) (trace : Trace) → Goes (vpipe_ensure_parent_dir kernel path trace)
  unfolding vpipe_ensure_parent_dir ensure_copied
  vpipe_ensure_parent_dir-Goes path trace =
      let (a, copied) = answers.hands_out (asked (copy_path path) ∷ trace) in
      rw copied (free_copy-Goes a _ (make_parents-Goes (parent_of path) _))

  pub vpipe_open_csv-opens :
      (path : List ℕ) (trace : Trace) → (n : ℕ) × ((vpipe_open_csv kernel path trace).1 ≡ some n)
  unfolding vpipe_open_csv
  vpipe_open_csv-opens path trace =
      after (vpipe_ensure_parent_dir kernel path trace) (vpipe_ensure_parent_dir-Goes path trace)
    where
      after : (o : Outcome Trace) → Goes o → (n : ℕ) × ((open_after kernel path o).1 ≡ some n)
      after (next t) goes =
          let (n, e) = answers.hands_out (asked (open_file path) ∷ t) in (n, rw e refl)
      after (cleanup t) goes = absurd goes
