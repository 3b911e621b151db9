-- ===== src/Tests/Metadata.antt =====
-- Tests of kmod/vpipe-meta.c: a ring that has published 257 entries, and so lost the first.
use vpipe.Base.{
  ℕ, zero, suc, ◌^◌, ◌<◌, ◌≡◌, refl, ◌⊎◌, true, false, [], ◌∷◌, ◌++◌, arith, length, pos, ok, err,
  has_bit, efault,
}
use vpipe.Uapi.{meta_f_overrun, MetaEntry}
use vpipe.Meta.{MetaDev, entry, entry_bytes, normalize, publish, read, read_locked, fresh_dev, poll}
use vpipe.Meta.Log.{Log, length-snoc}
use vpipe.Meta.Ring.{Holds, fresh_dev-Holds, publish-Holds}
use vpipe.Meta.Read.{read-err}
use vpipe.Meta.Session.{publishes, reads, session, log_session, session-log_session, session-drain}
use vpipe.Meta.Poll.{Answers, poll-Answers, read-overrun_lost}

-- An entry with the sequence number, and zeros.
abbrev pub numbered : ℕ → MetaEntry
numbered n = record {
  version = 0;
  entry_size = 0;
  flags = 0;
  seq = n;
  src_v4l2_sequence = 0;
  buffer_index = 0;
  source_timestamp_ns = 0;
  qbuf_timestamp_ns = 0;
  capture_done_ns = 0;
  dqbuf_timestamp_ns = 0;
  bytesused = 0;
  crc32 = 0;
  algo_id = 0;
  algo_status = 0;
  roi_left = pos 0;
  roi_top = pos 0;
  roi_width = pos 0;
  roi_height = pos 0;
  algo_value0 = 0;
  algo_value1 = 0;
  source_backend = 0;
  buffer_type = 0;
  queue_depth = 0;
  cpu_id = 0;
}

-- The device and the log after `n` publications.
abbrev filled : ℕ → MetaDev
filled zero = fresh_dev (numbered 0)
filled (suc n) = publish (filled n) (numbered n)

abbrev filled_log : ℕ → Log
filled_log zero = []
filled_log (suc n) = filled_log n ++ normalize (numbered n) ∷ []

length-filled_log : (n : ℕ) → length (filled_log n) ≡ n
length-filled_log zero = refl
length-filled_log (suc n) =
    omega (arith, length-snoc (filled_log n) (normalize (numbered n)), length-filled_log n)

filled-Holds : (n : ℕ) → n < 2 ^ 64 → Holds (filled n) (filled_log n)
filled-Holds zero small = fresh_dev-Holds (numbered 0)
filled-Holds (suc n) small =
    publish-Holds (filled n) (filled_log n) (numbered n) (omega (arith, length-filled_log n))
      (filled-Holds n (omega arith))

filled-dying : (n : ℕ) → (filled n).dying ≡ false
unfolding publish
filled-dying zero = refl
filled-dying (suc n) = filled-dying n

read-err_example :
    let file' = (read (filled 257) (record { tail = 0 }) entry_bytes true false false).1 in
    (file' ≡ record { tail = 0 })
    ⊎ ((efault ≡ efault) × (false ≡ false) × (0 < 1) × (file' ≡ record { tail = 1 }))
unfolding read read_locked publish
read-err_example = read-err (filled 257) (record { tail = 0 }) entry_bytes true false false refl

session-log_session_example :
    session
      (filled 257)
      (record { tail = 0 })
      (reads true ∷ publishes (numbered 9) ∷ reads false ∷ [])
    ≡ log_session (filled_log 257) 0 (reads true ∷ publishes (numbered 9) ∷ reads false ∷ [])
session-log_session_example =
    session-log_session (reads true ∷ publishes (numbered 9) ∷ reads false ∷ []) (filled 257)
      (filled_log 257) 0 (omega (arith, length-filled_log 257)) (filled-Holds 257 (omega arith))
      (filled-dying 257) (omega arith)

session-drain_example :
    session (filled 2) (record { tail = 0 }) (reads true ∷ reads true ∷ [])
    ≡ ok (entry (normalize (numbered 0))) ∷ ok (entry (normalize (numbered 1))) ∷ []
session-drain_example =
    session-drain (filled 2) (filled_log 2) 0 (omega arith) (filled-Holds 2 (omega arith))
      (filled-dying 2) (omega arith) (omega arith)

poll-Answers_example :
    Answers
      (poll (filled 2) (record { tail = 2 }))
      (read (filled 2) (record { tail = 2 }) entry_bytes true false true).0
poll-Answers_example = poll-Answers (filled 2) (record { tail = 2 })

read-overrun_lost_example :
    let first = read (filled 257) (record { tail = 0 }) entry_bytes true false in
    ((marked : MetaEntry) × ((first true).0 ≡ ok (entry marked))
      × (has_bit marked.flags meta_f_overrun ≡ true)
      × (marked ≡ record (normalize (numbered 1)) { flags = marked.flags }))
    × ((first false).0 ≡ err efault)
    × ((again : MetaEntry) × ((read (filled 257) (first false).1 entry_bytes true false true).0
          ≡ ok (entry again))
        × (has_bit again.flags meta_f_overrun ≡ false)
        × (again ≡ normalize (numbered 1)))
read-overrun_lost_example =
    read-overrun_lost (filled 257) (filled_log 257) 0 (omega (arith, length-filled_log 257))
      (filled-Holds 257 (omega arith)) (filled-dying 257) (omega (arith, length-filled_log 257))
      (normalize (numbered 1)) refl refl
