-- ===== src/User/Runner/Loop/Rows.antt =====
-- user/vpipe-vcam-runner.c: the rows of a run and its counters.
use vpipe.Base.{
  ℕ, ◌+◌, ◌-◌, ◌%◌, ◌^◌, ◌≤◌, ◌<◌, ◌≡◌, refl, sym, ap, ◌∙◌, arith, Bool, true, false, not, ◌&&◌,
  Option, none, some, List, [], ◌∷◌, length, ◌==◌, if◌then◌else◌, u64, Bytes,
}
use vpipe.Uapi.{MetaEntry}
use vpipe.User.Calls.{Kernel, Trace, asked, read_clock}
use vpipe.User.Queues.{Slots}
use vpipe.User.Runner.{verify_gradient}
use vpipe.User.Runner.Submit.{memory_at}
use vpipe.User.Runner.Run.{CsvRow, RunStats, Config}
use vpipe.User.Runner.Loop.{is_dropped, is_vcam, count_entry, count_pattern}

-- The rows, the latest first, are numbered, and the latency of each is that of its own submission.
abbrev pub Rows : (ℕ → ℕ) → List CsvRow → Type 0
Rows sent [] = Unit
Rows sent (row ∷ rows) =
    (row.frame ≡ length rows)
    × (row.us_qbuf_ns ≡ sent row.frame)
    × (row.us_latency_ns ≡ u64 (row.us_dqbuf_ns + 2 ^ 64 - sent row.frame % 2 ^ 64))
    × (row.dropped ≡ is_dropped row.entry)
    × Rows sent rows

-- Later submissions do not change the times of the rows.
pub Rows-later :
    (sent sent' : ℕ → ℕ) (rows : List CsvRow)
    → ((i : ℕ) → i < length rows → sent' i ≡ sent i)
    → Rows sent rows
    → Rows sent' rows
Rows-later sent sent' [] same h = tt
Rows-later sent sent' (row ∷ rows) same (number, time, latency, lost, rest) =
    let here : sent' row.frame ≡ sent row.frame = same row.frame (omega arith) in
    (
      number,
      time ∙ sym here,
      latency ∙ ap (λ t. u64 (row.us_dqbuf_ns + 2 ^ 64 - t % 2 ^ 64)) (sym here),
      lost,
      Rows-later sent sent' rows (λ i h. same i (omega arith)) rest,
    )

abbrev pub count_rows : (CsvRow → Bool) → List CsvRow → ℕ
count_rows test [] = 0
count_rows test (row ∷ rows) = (if test row then 1 else 0) + count_rows test rows

count_rows-le-length :
    (test : CsvRow → Bool) (rows : List CsvRow) → count_rows test rows ≤ length rows
count_rows-le-length test [] = omega arith
count_rows-le-length test (row ∷ rows) = ground (arith, count_rows-le-length test rows)

abbrev has_entry : CsvRow → Bool
has_entry row = elim row.entry [ none ↦ false | some m ↦ true ]

abbrev sums_match : CsvRow → Bool
sums_match row = elim row.entry [ none ↦ false | some m ↦ row.crc32_user == m.crc32 ]

abbrev was_dropped : CsvRow → Bool
was_dropped row = is_dropped row.entry

-- A frame whose pattern is looked at.
abbrev was_verified : Config → CsvRow → Bool
was_verified cfg row = cfg.verify_pattern && is_vcam cfg.source && not (is_dropped row.entry)

-- The frame of a row: the memory of the buffer that DQBUF gave, when the time of the row was read.
abbrev Seen : Kernel → Slots → CsvRow → Bytes → Type 0
Seen kernel bufs row frame =
    (trace : Trace) × (row.us_dqbuf_ns ≡ kernel.number (asked read_clock ∷ trace))
    × (frame
        ≡ memory_at kernel (asked read_clock ∷ trace) (bufs (kernel.dequeued trace).index).addr)

abbrev AllSeen : Kernel → Slots → List CsvRow → List Bytes → Type 0
AllSeen kernel bufs [] [] = Unit
AllSeen kernel bufs (row ∷ rows) (frame ∷ frames) =
    Seen kernel bufs row frame × AllSeen kernel bufs rows frames
AllSeen kernel bufs rows frames = ⊥

-- The frames that are looked at and have the pattern.
abbrev count_matches : Config → List CsvRow → List Bytes → ℕ
count_matches cfg (row ∷ rows) (frame ∷ frames) =
    (if was_verified cfg row && verify_gradient frame then 1 else 0) + count_matches cfg rows frames
count_matches cfg rows frames = 0

count_matches-le-length :
    (cfg : Config) (rows : List CsvRow) (frames : List Bytes)
    → count_matches cfg rows frames ≤ length rows
count_matches-le-length cfg [] frames = omega arith
count_matches-le-length cfg (row ∷ rows) [] = omega arith
count_matches-le-length cfg (row ∷ rows) (frame ∷ frames) =
    ground (arith, count_matches-le-length cfg rows frames)

abbrev SumCounts : List CsvRow → RunStats → Type 0
SumCounts rows st =
    (st.dropped ≡ count_rows was_dropped rows)
    × (st.csum_checked ≡ count_rows has_entry rows)
    × (st.csum_pass ≡ count_rows sums_match rows)

abbrev PatternCounts : Kernel → Slots → Config → List CsvRow → RunStats → Type 0
PatternCounts kernel bufs cfg rows st =
    (st.verify_checked ≡ count_rows (was_verified cfg) rows)
    × (frames : List Bytes) × AllSeen kernel bufs rows frames
    × (st.verify_pass ≡ count_matches cfg rows frames)

-- The counters count the rows, and the frames that have the pattern.
abbrev pub Counts : Kernel → Slots → Config → List CsvRow → RunStats → Type 0
Counts kernel bufs cfg rows st = SumCounts rows st × PatternCounts kernel bufs cfg rows st

count_entry-SumCounts :
    (entry : Option MetaEntry) (rows : List CsvRow) (row : CsvRow) (st : RunStats)
    → row.entry ≡ entry
    → length rows + 1 < 2 ^ 32
    → SumCounts rows st
    → SumCounts (row ∷ rows) (count_entry row.entry row.crc32_user st)
count_entry-SumCounts none rows row st e small (lost, checked, passed) =
    rw e (omega arith, omega arith, omega arith)
count_entry-SumCounts (some m) rows row st e small (lost, checked, passed) =
    let (b1, b2, b3) : (count_rows was_dropped rows ≤ length rows)
        × (count_rows has_entry rows ≤ length rows)
        × (count_rows sums_match rows ≤ length rows) =
      (
        count_rows-le-length was_dropped rows,
        count_rows-le-length has_entry rows,
        count_rows-le-length sums_match rows,
      ) in
    rw e (ground arith, ground arith, ground arith)

-- The two counters of the pattern after a row.
count_pattern-counts :
    (cfg : Config) (rows : List CsvRow) (frames : List Bytes) (row : CsvRow) (matches : Bool)
    (st : RunStats)
    → length rows + 1 < 2 ^ 32
    → st.verify_checked ≡ count_rows (was_verified cfg) rows
    → st.verify_pass ≡ count_matches cfg rows frames
    → let st' = count_pattern cfg (is_dropped row.entry) matches st in
      (st'.verify_checked ≡ count_rows (was_verified cfg) (row ∷ rows))
      × (st'.verify_pass
          ≡ (if was_verified cfg row && matches then 1 else 0) + count_matches cfg rows frames)
count_pattern-counts cfg rows frames row matches st small checked passed =
    let bound : count_rows (was_verified cfg) rows ≤ length rows =
      count_rows-le-length (was_verified cfg) rows in
    let bound' : count_matches cfg rows frames ≤ length rows =
      count_matches-le-length cfg rows frames in
    (ground arith, ground arith)

count_pattern-PatternCounts :
    (kernel : Kernel) (bufs : Slots) (cfg : Config) (rows : List CsvRow) (row : CsvRow)
    (frame : Bytes) (st : RunStats)
    → length rows + 1 < 2 ^ 32
    → Seen kernel bufs row frame
    → PatternCounts kernel bufs cfg rows st
    → PatternCounts kernel bufs cfg
        (row ∷ rows)
        (count_pattern cfg (is_dropped row.entry) (verify_gradient frame) st)
count_pattern-PatternCounts kernel bufs cfg rows row frame st small seen
      (checked, frames, all, passed) =
    let (checked', passed') =
      count_pattern-counts cfg rows frames row (verify_gradient frame) st small checked passed in
    (checked', frame ∷ frames, (seen, all), passed')

count_entry-PatternCounts :
    (kernel : Kernel) (bufs : Slots) (cfg : Config) (rows : List CsvRow) (entry : Option MetaEntry)
    (sum : ℕ) (st : RunStats)
    → PatternCounts kernel bufs cfg rows st
    → PatternCounts kernel bufs cfg rows (count_entry entry sum st)
count_entry-PatternCounts kernel bufs cfg rows none sum st h = h
count_entry-PatternCounts kernel bufs cfg rows (some m) sum st h = h

count_pattern-SumCounts :
    (cfg : Config) (rows : List CsvRow) (lost matches : Bool) (st : RunStats)
    → SumCounts rows st
    → SumCounts rows (count_pattern cfg lost matches st)
count_pattern-SumCounts cfg rows lost matches st (a, b, c) = ground arith

pub Counts-row :
    (kernel : Kernel) (bufs : Slots) (cfg : Config) (rows : List CsvRow) (row : CsvRow)
    (frame : Bytes) (st : RunStats)
    → length rows + 1 < 2 ^ 32
    → Seen kernel bufs row frame
    → Counts kernel bufs cfg rows st
    → Counts kernel bufs cfg (row ∷ rows) (
        count_pattern cfg
          (is_dropped row.entry)
          (verify_gradient frame)
          (count_entry row.entry row.crc32_user st))
Counts-row kernel bufs cfg rows row frame st small seen (sums, pattern) =
    let counted : RunStats = count_entry row.entry row.crc32_user st in
    (
      count_pattern-SumCounts cfg (row ∷ rows) (is_dropped row.entry) (verify_gradient frame)
          counted (count_entry-SumCounts row.entry rows row st refl small sums),
      count_pattern-PatternCounts kernel bufs cfg rows row frame counted small seen
          (count_entry-PatternCounts kernel bufs cfg rows row.entry row.crc32_user st pattern),
    )

-- The counters leave the other fields.
pub counters-others :
    (cfg : Config) (lost matches : Bool) (entry : Option MetaEntry) (sum : ℕ) (st : RunStats)
    → ((count_pattern cfg lost matches (count_entry entry sum st)).occ_max ≡ st.occ_max)
      × ((count_pattern cfg lost matches (count_entry entry sum st)).ok ≡ st.ok)
counters-others cfg lost matches none sum st = ground arith
counters-others cfg lost matches (some m) sum st = ground arith
