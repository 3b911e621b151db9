-- ===== src/Meta/Read.antt =====
-- `vpipe_meta_read` against the log.
use vpipe.Base.{
  ℕ, ◌+◌, ◌-◌, ◌%◌, ◌^◌, ◌≤◌, ◌<◌, ◌≡◌, ◌∙◌, ap, refl, ◌&&◌, not, Bool, true, false, some, arith,
  length, get_elem?, get_elem?-some, u64, ltb, ◌==◌, ==_iff, ltb→lt, Bool-cases, ne→==,
  if◌then◌else◌, Result, Errno, ok, err, ◌⊎◌, inl, inr, eagain, efault, einval, erestartsys,
}
use native.Mathlib.Decide.{ℕ_discrete}
use vpipe.Uapi.{MetaEntry}
use vpipe.Meta.{
  MetaDev, MetaFile, Got, entry, ring_size, entry_bytes, oldest, caught_up, answer, fetched,
  read_locked, read,
}
use vpipe.Meta.Log.{Log, catch_up, seen, after_get, log_read, get_elem?-none}
use vpipe.Meta.Ring.{Holds}

abbrev pub to_file : Result Got × ℕ → Result Got × MetaFile
to_file (got, cursor) = (got, record { tail = cursor })

-- The slot that a reader with the cursor looks at.
slot-seen :
    (dev : MetaDev) (log : Log) (tail : ℕ)
    → Holds dev log
    → tail < length log
    → get_elem? log (catch_up log tail) ≡ some (dev.ring (catch_up log tail % ring_size))
slot-seen dev log tail v h = v.slots (catch_up log tail) (ground arith) (ground arith)

oldest-eq : (n : ℕ) → oldest n ≡ n - ring_size
oldest-eq n = ground arith

-- With the ring in hand, the cursor and the copy are those of the log.
read_locked-some :
    (dev : MetaDev) (log : Log) (tail : ℕ) (copied : Bool)
    → Holds dev log
    → dev.dying ≡ false
    → tail < length log
    → read_locked dev (record { tail = tail }) copied ≡ (
        if copied
        then (
          ok (entry (seen log tail (dev.ring (catch_up log tail % ring_size)))),
          record { tail = u64 (catch_up log tail + 1) },
        )
        else (err efault, record { tail = catch_up log tail }))
unfolding read_locked
read_locked-some dev log tail copied v open_ h =
    rw (open_, v.counted, oldest-eq (length log), ne→== tail (length log) (omega arith))

read_locked-drained :
    (dev : MetaDev) (log : Log) (copied : Bool)
    → Holds dev log
    → dev.dying ≡ false
    → read_locked dev (record { tail = length log }) copied
      ≡ (err eagain, record { tail = length log })
unfolding read_locked
read_locked-drained dev log copied v open_ = rw (open_, v.counted, (==_iff (length log) _).1 refl)

catch_up-drained : (log : Log) → catch_up log (length log) ≡ length log
catch_up-drained log = ground arith

log_read-drained :
    (log : Log) (copied : Bool) → log_read log (length log) copied ≡ (err eagain, length log)
unfolding log_read
log_read-drained log true = rw (catch_up-drained log, get_elem?-none log)
log_read-drained log false = rw (catch_up-drained log, get_elem?-none log)

log_read-some :
    (dev : MetaDev) (log : Log) (tail : ℕ) (copied : Bool)
    → Holds dev log
    → tail < length log
    → log_read log tail copied
      ≡ after_get log tail copied (some (dev.ring (catch_up log tail % ring_size)))
unfolding log_read
log_read-some dev log tail copied v h = ap (after_get log tail copied) (slot-seen dev log tail v h)

catch_up-lt : (log : Log) (tail : ℕ) → tail < length log → catch_up log tail < length log
catch_up-lt log tail h = ground arith

read_locked-at :
    (dev : MetaDev) (log : Log) (tail : ℕ) (copied : Bool)
    → length log < 2 ^ 64
    → Holds dev log
    → dev.dying ≡ false
    → tail < length log
    → read_locked dev (record { tail = tail }) copied ≡ to_file (log_read log tail copied)
read_locked-at dev log tail true small v open_ h =
    let fits : u64 (catch_up log tail + 1) ≡ catch_up log tail + 1 =
      omega (arith, catch_up-lt log tail h) in
    rw (read_locked-some dev log tail true v open_ h, log_read-some dev log tail true v h, fits)
read_locked-at dev log tail false small v open_ h =
    rw (read_locked-some dev log tail false v open_ h, log_read-some dev log tail false v h)

read_locked-log_read :
    (dev : MetaDev) (log : Log) (tail : ℕ) (copied : Bool)
    → length log < 2 ^ 64
    → Holds dev log
    → dev.dying ≡ false
    → tail ≤ length log
    → read_locked dev (record { tail = tail }) copied ≡ to_file (log_read log tail copied)
read_locked-log_read dev log tail copied small v open_ h = elim (ℕ_discrete tail (length log)) [
  | yes drained ↦
      rw (drained, read_locked-drained dev log copied v open_, log_read-drained log copied)
  | no more ↦ read_locked-at dev log tail copied small v open_ (omega arith)
]

log_read-next-le :
    (log : Log) (tail : ℕ) (copied : Bool) (e : MetaEntry)
    → get_elem? log (catch_up log tail) ≡ some e
    → catch_up log tail < length log
    → (log_read log tail copied).1 ≤ length log
unfolding log_read
log_read-next-le log tail true e found h = rw found (omega arith)
log_read-next-le log tail false e found h = rw found (omega arith)

-- A read keeps the cursor in the log.
pub log_read-le :
    (log : Log) (tail : ℕ) (copied : Bool)
    → tail ≤ length log
    → (log_read log tail copied).1 ≤ length log
log_read-le log tail copied h = elim (ℕ_discrete tail (length log)) [
  | yes drained ↦ rw (drained, log_read-drained log copied) (omega arith)
  | no more ↦
      let next = catch_up-lt log tail (omega arith) in
      let (e, found) = get_elem?-some log (catch_up log tail) next in
      log_read-next-le log tail copied e found next
]

-- A caller that gets as far as the lock: its buffer is large enough and its wait was not interrupted.
abbrev reaches_lock : ℕ → Bool → Bool → Bool
reaches_lock count nonblock interrupted =
    not (ltb count entry_bytes) && not (not nonblock && interrupted)

guards_pass {ℓ} :
    {A : Type ℓ} (a b : Bool) (x y z : A)
    → (not a && not b) ≡ true
    → (if a then x else if b then y else z) ≡ z
guards_pass true b x y z h = cc
guards_pass false true x y z h = cc
guards_pass false false x y z h = refl

read-reaches :
    (dev : MetaDev) (file : MetaFile) (count : ℕ) (nonblock interrupted copied : Bool)
    → reaches_lock count nonblock interrupted ≡ true
    → read dev file count nonblock interrupted copied ≡ read_locked dev file copied
unfolding read
read-reaches dev file count nonblock interrupted copied h =
    guards_pass (ltb count entry_bytes) (not nonblock && interrupted) _ _ _ h

pub read-log_read :
    (dev : MetaDev) (log : Log) (tail count : ℕ) (nonblock interrupted copied : Bool)
    → length log < 2 ^ 64
    → Holds dev log
    → dev.dying ≡ false
    → tail ≤ length log
    → reaches_lock count nonblock interrupted ≡ true
    → read dev (record { tail = tail }) count nonblock interrupted copied
      ≡ to_file (log_read log tail copied)
read-log_read dev log tail count nonblock interrupted copied small v open_ h reached =
    read-reaches dev (record { tail = tail }) count nonblock interrupted copied reached
    ∙ read_locked-log_read dev log tail copied small v open_ h

-- A failure of `r` left the cursor alone, or a copy failed and left it at `next`.
abbrev Failed : MetaFile → ℕ → Bool → Errno → MetaFile → Type 0
Failed file next copied e file' =
    (file' ≡ file) ⊎ ((e ≡ efault) × (copied ≡ false) × (file' ≡ record { tail = next }))

answer-err :
    (dying drained copied : Bool) (file : MetaFile) (next : ℕ) (x : MetaEntry) {e : Errno}
    → (answer dying drained copied file next x).0 ≡ err e
    → Failed file next copied e (answer dying drained copied file next x).1
answer-err true drained copied file next x h = cc
answer-err false true copied file next x h = inl refl
answer-err false false true file next x h = cc
answer-err false false false file next x h = inr (cc, refl, refl)

read-Failed :
    (dev : MetaDev) (file : MetaFile) (count : ℕ) (nonblock interrupted copied : Bool) {e : Errno}
    → (read dev file count nonblock interrupted copied).0 ≡ err e
    → Failed file
        (caught_up file.tail dev.head)
        copied
        e
        (read dev file count nonblock interrupted copied).1
unfolding read read_locked
read-Failed dev file count nonblock interrupted copied {e} =
    guarded (ltb count entry_bytes) (not nonblock && interrupted)
  where
    guarded :
        (a b : Bool)
        → let r : Result Got × MetaFile =
            if a
            then (err einval, file)
            else if b
            then (err erestartsys, file)
            else read_locked dev file copied in
          r.0 ≡ err e → Failed file (caught_up file.tail dev.head) copied e r.1
    guarded true b h = inl refl
    guarded false true h = inl refl
    guarded false false h =
        answer-err dev.dying (file.tail == dev.head) copied file (caught_up file.tail dev.head)
          (fetched dev.ring file.tail dev.head) h

settle :
    (file : MetaFile) (head : ℕ) {copied : Bool} {e : Errno} {file' : MetaFile}
    → Failed file (caught_up file.tail head) copied e file'
    → (file' ≡ file)
      ⊎ ((e ≡ efault)
          × (copied ≡ false)
          × (file.tail < oldest head)
          × (file' ≡ record { tail = oldest head }))
settle file head (inl same) = inl same
settle file head (inr (fault, failed, moved)) = elim (Bool-cases (ltb file.tail (oldest head))) [
  | inl overrun ↦ inr (fault, failed, ltb→lt _ _ overrun, moved ∙ rw overrun)
  | inr kept ↦ inl (moved ∙ rw kept)
]

-- A read that fails delivers nothing and leaves the cursor where it was, but for one case: after a
-- ring overrun a failed copy leaves it at the oldest entry that the ring holds.
pub read-err :
    (dev : MetaDev) (file : MetaFile) (count : ℕ) (nonblock interrupted copied : Bool) {e : Errno}
    → (read dev file count nonblock interrupted copied).0 ≡ err e
    → let file' = (read dev file count nonblock interrupted copied).1 in
      (file' ≡ file)
      ⊎ ((e ≡ efault)
          × (copied ≡ false)
          × (file.tail < oldest dev.head)
          × (file' ≡ record { tail = oldest dev.head }))
read-err dev file count nonblock interrupted copied h =
    settle file dev.head (read-Failed dev file count nonblock interrupted copied h)
