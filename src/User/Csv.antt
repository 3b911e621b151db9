-- ===== src/User/Csv.antt =====
-- user/vpipe-common.c: the file that a tool writes its rows to, and the directories above it. A path is a
-- list of characters.
pub mod Balance
use vpipe.Base.{
  ℕ, ◌≡◌, refl, ◌∙◌, ◌+◌, Option, none, some, List, [], ◌∷◌, ◌++◌, ◌==◌, if◌then◌else◌, arith,
}
use vpipe.User.Calls.{
  Kernel, Trace, Handle, asked, obtained, returned, copy_path, make_dir, open_file, heap, file,
  Outcome, next, cleanup, ◌then◌, must_succeed, lift, Always, Always-then, at_cleanup,
}
use vpipe.User.Calls.Balance.{taken, given_back, held}

-- '/'
abbrev pub slash : ℕ
slash = 47

-- What is before the last slash: `strrchr`.
abbrev before_slash : ℕ → Option (List ℕ) → Option (List ℕ)
before_slash c (some front) = some (c ∷ front)
before_slash c none = if c == slash then some [] else none

unfoldable pub parent_of : List ℕ → Option (List ℕ)
parent_of [] = none
parent_of (c ∷ path) = let above = parent_of path in before_slash c above

-- `mkdir(copy, 0777)`: that the directory is there already is no failure.
abbrev pub make_one : Kernel → List ℕ → Trace → Outcome Trace
make_one kernel path trace = must_succeed kernel (make_dir path) trace (λ t. t)

-- The loop of `vpipe_ensure_parent_dir` behind the characters `front`, and the call after it.
unfoldable pub make_dirs : Kernel → List ℕ → List ℕ → Trace → Outcome Trace
make_dirs kernel front [] trace = make_one kernel front trace
make_dirs kernel front (c ∷ path) trace =
    (if c == slash then make_one kernel front trace else next trace)
    then (λ t. make_dirs kernel (front ++ (c ∷ [])) path t)

-- The directories of `copy`, whose first character the loop skips.
unfoldable pub make_parents : Kernel → Option (List ℕ) → Trace → Outcome Trace
unfolding make_dirs
make_parents kernel none trace = next trace
make_parents kernel (some []) trace = next trace
make_parents kernel (some (c ∷ path)) trace = make_dirs kernel (c ∷ []) path trace

-- `free(copy)` before each return.
abbrev pub free_copy : ℕ → Outcome Trace → Outcome Trace
free_copy copy (next trace) = next (returned (heap copy) ∷ trace)
free_copy copy (cleanup trace) = cleanup (returned (heap copy) ∷ trace)

unfoldable pub ensure_copied : Kernel → List ℕ → Trace → Option ℕ → Outcome Trace
unfolding parent_of make_dirs
ensure_copied kernel path trace none = cleanup trace
ensure_copied kernel path trace (some copy) =
    free_copy copy (make_parents kernel (parent_of path) (obtained (heap copy) ∷ trace))

-- `vpipe_ensure_parent_dir`; `cleanup` is a return of -1.
unfoldable pub vpipe_ensure_parent_dir : Kernel → List ℕ → Trace → Outcome Trace
unfolding parent_of make_dirs
vpipe_ensure_parent_dir kernel path trace =
    let after : Trace = asked (copy_path path) ∷ trace in
    ensure_copied kernel path after (kernel.hands_out after)

abbrev pub opened : Trace → Option ℕ → Trace × Option ℕ
opened trace none = (trace, none)
opened trace (some fp) = (obtained (file fp) ∷ trace, some fp)

abbrev pub open_after : Kernel → List ℕ → Outcome Trace → Trace × Option ℕ
open_after kernel path (cleanup trace) = (trace, none)
open_after kernel path (next trace) =
    let after : Trace = asked (open_file path) ∷ trace in opened after (kernel.hands_out after)

-- `vpipe_open_csv`: the file, or `none` for NULL.
unfoldable pub vpipe_open_csv : Kernel → List ℕ → Trace → Trace × Option ℕ
unfolding vpipe_ensure_parent_dir
vpipe_open_csv kernel path trace =
    open_after kernel path (vpipe_ensure_parent_dir kernel path trace)
