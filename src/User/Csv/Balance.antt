-- ===== src/User/Csv/Balance.antt =====
-- user/vpipe-common.c: what `vpipe_open_csv` obtains and gives back.
use vpipe.Base.{ℕ, ◌≡◌, ◌+◌, Option, none, some, List, [], ◌∷◌, ◌++◌, ◌==◌, if◌then◌else◌, arith}
use vpipe.User.Calls.{
  Kernel, Trace, Handle, asked, obtained, copy_path, open_file, heap, file, Outcome, next, cleanup,
  ◌then◌, Always, Always-then,
}
use vpipe.User.Calls.Balance.{taken, given_back, held}
use vpipe.User.Csv.{
  parent_of, slash, make_one, make_dirs, make_parents, free_copy, ensure_copied,
  vpipe_ensure_parent_dir, opened, open_after, vpipe_open_csv,
}

module _ (weight : Handle → ℕ) (rest : ℕ) where
  -- What is not given back comes to `rest`.
  abbrev pub Holds : Trace → Type 0
  Holds trace = taken weight trace ≡ given_back weight trace + rest

  make_one-Holds :
      (kernel : Kernel) (path : List ℕ) (trace : Trace)
      → Holds trace
      → Always Holds (make_one kernel path trace)
  make_one-Holds kernel path trace h = ground arith

  make_dirs-Holds :
      (kernel : Kernel) (front path : List ℕ) (trace : Trace)
      → Holds trace
      → Always Holds (make_dirs kernel front path trace)
  unfolding make_dirs
  make_dirs-Holds kernel front [] trace h = make_one-Holds kernel front trace h
  make_dirs-Holds kernel front (c ∷ path) trace h =
      Always-then Holds Holds (if c == slash then make_one kernel front trace else next trace)
        (λ t. make_dirs kernel (front ++ (c ∷ [])) path t) (λ t all. all)
        (ground (arith, make_one-Holds kernel front trace))
        (λ t all. make_dirs-Holds kernel (front ++ (c ∷ [])) path t all)

  make_parents-Holds :
      (kernel : Kernel) (above : Option (List ℕ)) (trace : Trace)
      → Holds trace
      → Always Holds (make_parents kernel above trace)
  unfolding make_parents
  make_parents-Holds kernel none trace h = h
  make_parents-Holds kernel (some []) trace h = h
  make_parents-Holds kernel (some (c ∷ path)) trace h = make_dirs-Holds kernel (c ∷ []) path trace h

  opened-Holds :
      (trace : Trace) (fp : Option ℕ)
      → Holds trace
      → taken weight (opened trace fp).0
        ≡ given_back weight (opened trace fp).0 + (rest + held weight file (opened trace fp).1)
  opened-Holds trace none h = omega arith
  opened-Holds trace (some fp) h = omega arith

module _ (weight : Handle → ℕ) (rest : ℕ) (kernel : Kernel) (path : List ℕ) where
  free_copy-Holds :
      (copy : ℕ) (o : Outcome Trace)
      → Always (Holds weight (rest + weight (heap copy))) o
      → Always (Holds weight rest) (free_copy copy o)
  free_copy-Holds copy (next trace) h = omega arith
  free_copy-Holds copy (cleanup trace) h = omega arith

  ensure_copied-Holds :
      (trace : Trace) (copy : Option ℕ)
      → Holds weight rest trace
      → Always (Holds weight rest) (ensure_copied kernel path trace copy)
  unfolding ensure_copied
  ensure_copied-Holds trace none h = h
  ensure_copied-Holds trace (some copy) h =
      free_copy-Holds copy (make_parents kernel (parent_of path) (obtained (heap copy) ∷ trace)) (
        make_parents-Holds weight (rest + weight (heap copy)) kernel (parent_of path)
          (obtained (heap copy) ∷ trace) (omega arith))

  vpipe_ensure_parent_dir-Holds :
      (trace : Trace)
      → Holds weight rest trace
      → Always (Holds weight rest) (vpipe_ensure_parent_dir kernel path trace)
  unfolding vpipe_ensure_parent_dir
  vpipe_ensure_parent_dir-Holds trace h = ensure_copied-Holds (asked (copy_path path) ∷ trace) _ h

  -- The file is all that `vpipe_open_csv` leaves open.
  pub vpipe_open_csv-Holds :
      (trace : Trace)
      → Holds weight rest trace
      → Holds weight
          (rest + held weight file (vpipe_open_csv kernel path trace).1)
          (vpipe_open_csv kernel path trace).0
  unfolding vpipe_open_csv
  vpipe_open_csv-Holds trace h =
      after (vpipe_ensure_parent_dir kernel path trace) (vpipe_ensure_parent_dir-Holds trace h)
    where
      after :
          (o : Outcome Trace)
          → Always (Holds weight rest) o
          → Holds weight
              (rest + held weight file (open_after kernel path o).1)
              (open_after kernel path o).0
      after (next t) all = opened-Holds weight rest (asked (open_file path) ∷ t) _ all
      after (cleanup t) all = omega arith
