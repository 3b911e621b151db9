-- ===== src/Meta/Session.antt =====
-- Publications and the non-blocking reads of one reader, in any order.
use vpipe.Base.{
  ℕ, zero, suc, ◌+◌, ◌-◌, ◌^◌, ◌≤◌, ◌<◌, ◌≡◌, ◌∙◌, ap, refl, Bool, true, false, List, [], ◌∷◌, ◌++◌,
  map, drop, replicate, length-replicate, drop-length, drop-get_elem?, get_elem?-some, some, arith,
  length, get_elem?, ltb, Result, ok,
}
use native.Mathlib.Numerals.{add-one}
use vpipe.Uapi.{MetaEntry}
use vpipe.Meta.{MetaDev, MetaFile, Got, entry, ring_size, entry_bytes, normalize, publish, read}
use vpipe.Meta.Log.{Log, log_read, length-snoc}
use vpipe.Meta.Ring.{Holds, publish-Holds}
use vpipe.Meta.Read.{read-log_read, log_read-le}

-- `reads copied`: whether the reader's buffer is good.
pub data Event : Type 0 where
  publishes : MetaEntry → Event
  reads : Bool → Event

-- What the reads return, on the device.
pub session : MetaDev → MetaFile → List Event → List (Result Got)
session dev file [] = []
session dev file (publishes e ∷ es) = session (publish dev e) file es
session dev file (reads copied ∷ es) =
    let (got, file') = read dev file entry_bytes true false copied in got ∷ session dev file' es

-- The same on the log.
pub log_session : Log → ℕ → List Event → List (Result Got)
log_session log cursor [] = []
log_session log cursor (publishes e ∷ es) = log_session (log ++ normalize e ∷ []) cursor es
log_session log cursor (reads copied ∷ es) =
    let (got, cursor') = log_read log cursor copied in got ∷ log_session log cursor' es

dying-publish : (dev : MetaDev) (e : MetaEntry) → (publish dev e).dying ≡ dev.dying
unfolding publish
dying-publish dev e = refl

-- No sequence of publications and reads, with good buffers and bad ones, tells the ring of 256 slots
-- from the log of all publications, for a reader of an open device whose cursor lies in the log, as
-- long as fewer than 2^64 entries are published.
pub session-log_session :
    (es : List Event) (dev : MetaDev) (log : Log) (tail : ℕ)
    → length log + length es < 2 ^ 64
    → Holds dev log
    → dev.dying ≡ false
    → tail ≤ length log
    → session dev (record { tail = tail }) es ≡ log_session log tail es
unfolding session log_session
session-log_session [] dev log tail small v open_ h = refl
session-log_session (publishes e ∷ es) dev log tail small v open_ h =
    session-log_session es (publish dev e) (log ++ normalize e ∷ []) tail
      (omega (arith, length-snoc log (normalize e))) (publish-Holds dev log e (omega arith) v)
      (dying-publish dev e ∙ open_) (omega (arith, length-snoc log (normalize e)))
session-log_session (reads copied ∷ es) dev log tail small v open_ h =
    rw (read-log_read dev log tail entry_bytes true false copied (omega arith) v open_ h refl) (
      ap (◌∷◌ (log_read log tail copied).0) (
        session-log_session es dev log (log_read log tail copied).1 (omega arith) v open_
          (log_read-le log tail copied h)))

log_read-near :
    (log : Log) (tail : ℕ) (e : MetaEntry)
    → length log ≤ tail + ring_size
    → get_elem? log tail ≡ some e
    → log_read log tail true ≡ (ok (entry e), tail + 1)
unfolding log_read
log_read-near log tail e near found = rw (in_ring log tail near, found) (rw (in_ring log tail near))
  where
    in_ring :
        (log : Log) (tail : ℕ)
        → length log ≤ tail + ring_size
        → ltb tail (length log - ring_size) ≡ false
    in_ring log tail near = ground arith

log_drain :
    (log : Log) (n tail : ℕ)
    → tail + n ≡ length log
    → length log ≤ tail + ring_size
    → log_session log tail (replicate n (reads true)) ≡ map (λ e. ok (entry e)) (drop tail log)
unfolding log_session
log_drain log zero tail end near =
    let at_end : tail ≡ length log = omega arith in rw (at_end, drop-length log)
log_drain log (suc n) tail end near =
    let (e, found) = get_elem?-some log tail (omega arith) in
    rw (log_read-near log tail e near found, drop-get_elem? log tail e found, add-one tail)
      (ap (◌∷◌ (ok (entry e))) (log_drain log n (suc tail) (omega arith) (omega arith)))

-- As long as the device is open and fewer than 2^63 entries have been published, a reader whose cursor lies
-- in the log and is not behind the ring gets every entry that it has not read, unmarked and in order.
pub session-drain :
    (dev : MetaDev) (log : Log) (tail : ℕ)
    → length log + length log < 2 ^ 64
    → Holds dev log
    → dev.dying ≡ false
    → tail ≤ length log
    → length log ≤ tail + ring_size
    → session dev (record { tail = tail }) (replicate (length log - tail) (reads true))
      ≡ map (λ e. ok (entry e)) (drop tail log)
session-drain dev log tail small v open_ h near =
    let rounds = length-replicate (length log - tail) (reads true) in
    session-log_session (replicate (length log - tail) (reads true)) dev log tail
      (omega (arith, rounds)) v open_ h
    ∙ log_drain log (length log - tail) tail (omega arith) near
