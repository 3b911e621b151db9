-- ===== src/Meta/Poll.antt =====
-- `vpipe_meta_poll` against a non-blocking read, the end of the device, and what an overrun leaves of a
-- read whose copy failed.
use vpipe.Base.{
  ℕ, ◌+◌, ◌-◌, ◌^◌, ◌<◌, ◌≡◌, ◌∙◌, ap, refl, Bool, true, false, some, arith, length, get_elem?, ltb,
  ◌==◌, lt→ltb, has_bit, set_bit, if◌then◌else◌, Result, ok, err, eagain, efault,
}
use vpipe.Uapi.{MetaEntry, meta_f_overrun}
use vpipe.Meta.{
  MetaDev, MetaFile, Got, end_of_file, entry, ring_size, entry_bytes, mark_overrun, caught_up,
  fetched, answer, read_locked, read, PollMask, hang_up, readable, nothing, poll, meta_exit,
}
use vpipe.Meta.Log.{Log, log_read}
use vpipe.Meta.Ring.{Holds}
use vpipe.Meta.Read.{read-log_read, to_file}

-- What a non-blocking read with a good buffer returns, by what poll has said.
abbrev pub Answers : PollMask → Result Got → Type 0
Answers hang_up got = got ≡ ok end_of_file
Answers readable got = (e : MetaEntry) × (got ≡ ok (entry e))
Answers nothing got = got ≡ err eagain

Answers-answer :
    (dying drained : Bool) (file : MetaFile) (next : ℕ) (e : MetaEntry)
    → Answers
        (if dying then hang_up else if drained then nothing else readable)
        (answer dying drained true file next e).0
Answers-answer true drained file next e = refl
Answers-answer false true file next e = refl
Answers-answer false false file next e = (e, refl)

==_comm : (a b : ℕ) → (a == b) ≡ (b == a)
==_comm a b = ground arith

-- Poll reports a hang-up exactly where a non-blocking read returns 0, readable where it returns an
-- entry, and nothing where it fails with EAGAIN.
pub poll-Answers :
    (dev : MetaDev) (file : MetaFile)
    → Answers (poll dev file) (read dev file entry_bytes true false true).0
unfolding poll read read_locked
poll-Answers dev file = rw (==_comm dev.head file.tail) (
    Answers-answer dev.dying (file.tail == dev.head) file (caught_up file.tail dev.head)
      (fetched dev.ring file.tail dev.head))

-- After `vpipe_meta_exit` every reader that reaches the lock gets the end of the file and keeps its
-- cursor, whatever it has not read.
read-meta_exit :
    (dev : MetaDev) (file : MetaFile) (copied : Bool)
    → (poll (meta_exit dev) file ≡ hang_up)
      × (read_locked (meta_exit dev) file copied ≡ (ok end_of_file, file))
unfolding meta_exit poll read_locked
read-meta_exit dev file copied = (refl, refl)

overrun-has_bit : (flags : ℕ) → has_bit (set_bit flags meta_f_overrun) meta_f_overrun ≡ true
overrun-has_bit flags = ground arith

ltb_irrefl : (n : ℕ) → ltb n n ≡ false
ltb_irrefl n = ground arith

module _ (dev : MetaDev) (log : Log) (tail : ℕ) (small : length log < 2 ^ 64) (v : Holds dev log)
    (open_ : dev.dying ≡ false) (behind : tail + ring_size < length log) (e : MetaEntry)
    (kept : get_elem? log (length log - ring_size) ≡ some e) where
  log_read-behind :
      (copied : Bool)
      → log_read log tail copied ≡ (
          if copied
          then (ok (entry (mark_overrun e)), length log - ring_size + 1)
          else (err efault, length log - ring_size))
  unfolding log_read
  log_read-behind true =
      rw (lt→ltb tail (length log - ring_size) (omega arith), kept)
        (rw (lt→ltb tail (length log - ring_size) (omega arith)))
  log_read-behind false =
      rw (lt→ltb tail (length log - ring_size) (omega arith), kept)
        (rw (lt→ltb tail (length log - ring_size) (omega arith)))

  log_read-level :
      log_read log (length log - ring_size) true ≡ (ok (entry e), length log - ring_size + 1)
  unfolding log_read
  log_read-level =
      rw (ltb_irrefl (length log - ring_size), kept) (rw (ltb_irrefl (length log - ring_size)))

  -- A reader that the ring has overrun is told so: the next entry that it gets has the flag, and is else the
  -- oldest entry `e` that the ring holds, which was published without the flag. But if the copy of that
  -- entry fails, the retry gives `e` without the flag, so that the reader never learns that entries were
  -- lost.
  pub read-overrun_lost :
      has_bit e.flags meta_f_overrun ≡ false
      → let first = read dev (record { tail = tail }) entry_bytes true false in
        ((marked : MetaEntry) × ((first true).0 ≡ ok (entry marked))
          × (has_bit marked.flags meta_f_overrun ≡ true)
          × (marked ≡ record e { flags = marked.flags }))
        × ((first false).0 ≡ err efault)
        × ((again : MetaEntry) × ((read dev (first false).1 entry_bytes true false true).0
              ≡ ok (entry again))
            × (has_bit again.flags meta_f_overrun ≡ false)
            × (again ≡ e))
  read-overrun_lost plain =
      let first = λ (copied : Bool).
        read-log_read dev log tail entry_bytes true false copied small v open_ (omega arith) refl
        ∙ ap to_file (log_read-behind copied) in
      let retry =
        read-log_read dev log (length log - ring_size) entry_bytes true false true small v open_
          (omega arith) refl
        ∙ ap to_file log_read-level in
      (
        (mark_overrun e, ap (λ r. r.0) (first true), overrun-has_bit e.flags, refl),
        ap (λ r. r.0) (first false),
        (
          e,
          ap (λ (r : Result Got × MetaFile). (read dev r.1 entry_bytes true false true).0)
                (first false)
              ∙ ap (λ r. r.0) retry,
          plain,
          refl,
        ),
      )
