-- ===== src/Meta.antt =====
-- kmod/vpipe-meta.c: the metadata device, a ring of 256 entries with one writer side and readers
-- that keep a cursor each. What another thread does while a reader waits has happened when the
-- reader takes the lock: the device that `read` is given is the one that it finds there.
pub mod Log
pub mod Ring
pub mod Read
pub mod Session
pub mod Poll
use vpipe.Base.{
  ℕ, ◌+◌, ◌-◌, ◌%◌, ◌^◌, ◌&&◌, not, Bool, true, false, Option, none, u64, ltb, ◌==◌, set_bit,
  if◌then◌else◌, Result, done, ok, err, einval, enomem, efault, eagain, erestartsys, enotty,
}
use vpipe.Uapi.{MetaEntry, meta_version, meta_f_overrun}

abbrev pub ring_size : ℕ
ring_size = 256

-- `sizeof(struct vpipe_meta_entry)`
abbrev pub entry_bytes : ℕ
entry_bytes = 120

-- `struct vpipe_meta_dev`; `ring` is an array of `ring_size` slots.
pub record MetaDev : Type 0 where
  pub ring : ℕ → MetaEntry
  pub head : ℕ
  pub published : ℕ
  pub dropped : ℕ
  pub dying : Bool

-- `struct vpipe_meta_file`
pub record MetaFile : Type 0 where
  pub tail : ℕ

-- The publisher owns the version and the size.
abbrev pub normalize : MetaEntry → MetaEntry
normalize e = record e { version = meta_version; entry_size = entry_bytes }

abbrev pub put_slot : (ℕ → MetaEntry) → ℕ → MetaEntry → ℕ → MetaEntry
put_slot ring i e j = if i == j then e else ring j

-- `vpipe_meta_publish`. `& VPIPE_META_RING_MASK` is `% ring_size`.
unfoldable pub publish : MetaDev → MetaEntry → MetaDev
publish dev src =
    let head = u64 (dev.head + 1) in
    record dev {
      ring = put_slot dev.ring (dev.head % ring_size) (normalize src);
      head = head;
      published = u64 (dev.published + 1);
      dropped = if ltb ring_size head then head - ring_size else dev.dropped;
    }

-- `vpipe_meta_open`; `allocated` is whether `kzalloc` gave memory.
unfoldable open_file : MetaDev → Bool → Result MetaFile
open_file dev allocated = if allocated then ok (record { tail = dev.head }) else err enomem

-- `vpipe_meta_release`: what is left of the file's `private_data`.
abbrev release_file : MetaFile → Result (Unit {0}) × Option MetaFile
release_file file = (done, none)

-- What a successful read returns: 0, or the size of the entry that it has copied.
pub data Got : Type 0 where
  end_of_file : Got
  entry : MetaEntry → Got

-- The index of the oldest entry that the ring still holds.
abbrev pub oldest : ℕ → ℕ
oldest head = if ltb ring_size head then head - ring_size else 0

-- The cursor once the reader has caught up on a ring overrun.
abbrev pub caught_up : ℕ → ℕ → ℕ
caught_up tail head = if ltb tail (oldest head) then oldest head else tail

-- `entry.flags |= VPIPE_META_F_OVERRUN`
abbrev pub mark_overrun : MetaEntry → MetaEntry
mark_overrun e = record e { flags = set_bit e.flags meta_f_overrun }

-- The copy of the slot that the reader takes under the lock.
abbrev pub fetched : (ℕ → MetaEntry) → ℕ → ℕ → MetaEntry
fetched ring tail head =
    let slot = ring (caught_up tail head % ring_size) in
    if ltb tail (oldest head) then mark_overrun slot else slot

-- The returns of `vpipe_meta_read` after it has looked at the device: dying, nothing to read, and
-- `copy_to_user` with its result `copied`.
abbrev pub answer : Bool → Bool → Bool → MetaFile → ℕ → MetaEntry → Result Got × MetaFile
answer dying drained copied file next e =
    if dying
    then (ok end_of_file, file)
    else if drained
    then (err eagain, file)
    else if copied
    then (ok (entry e), record { tail = u64 (next + 1) })
    else (err efault, record { tail = next })

-- The body of `vpipe_meta_read` from the moment that it holds the lock.
unfoldable pub read_locked : MetaDev → MetaFile → Bool → Result Got × MetaFile
read_locked dev file copied =
    answer dev.dying (file.tail == dev.head) copied file (caught_up file.tail dev.head)
      (fetched dev.ring file.tail dev.head)

-- `vpipe_meta_read`; `interrupted` is the result of `wait_event_interruptible`.
unfoldable pub read : MetaDev → MetaFile → ℕ → Bool → Bool → Bool → Result Got × MetaFile
unfolding read_locked
read dev file count nonblock interrupted copied =
    if ltb count entry_bytes
    then (err einval, file)
    else if not nonblock && interrupted
    then (err erestartsys, file)
    else read_locked dev file copied

data MetaCmd : Type 0 where
  query get_stats : MetaCmd
  unknown : ℕ → MetaCmd

-- What an ioctl copies out; reserved words are 0.
data MetaReply : Type 0 where
  info : (version entry_size ring_entries flags : ℕ) → MetaReply
  stats : (published dropped : ℕ) → MetaReply

unfoldable meta_ioctl : MetaDev → MetaCmd → Bool → Result MetaReply
meta_ioctl dev query copied =
    if copied then ok (info meta_version entry_bytes ring_size 0) else err efault
meta_ioctl dev get_stats copied =
    if copied then ok (stats dev.published dev.dropped) else err efault
meta_ioctl dev (unknown cmd) copied = err enotty

pub data PollMask : Type 0 where
  hang_up readable nothing : PollMask

unfoldable pub poll : MetaDev → MetaFile → PollMask
poll dev file = if dev.dying then hang_up else if dev.head == file.tail then nothing else readable

-- The static `g_meta` before `vpipe_meta_init`.
abbrev pub fresh_dev : MetaEntry → MetaDev
fresh_dev blank = record { ring = λ _. blank; head = 0; published = 0; dropped = 0; dying = false }

-- `vpipe_meta_exit`
unfoldable pub meta_exit : MetaDev → MetaDev
meta_exit dev = record dev { dying = true }

-- `vpipe_meta_init`; `registered` is the result of `misc_register`.
abbrev meta_init : MetaDev → Result (Unit {0}) → Result (Unit {0}) × MetaDev
meta_init dev registered = (registered, dev)
