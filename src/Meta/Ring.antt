-- ===== src/Meta/Ring.antt =====
-- The ring holds the end of the log, and `vpipe_meta_publish` keeps that so.
use vpipe.Base.{
  ℕ, ◌+◌, ◌-◌, ◌%◌, ◌^◌, ◌≤◌, ◌<◌, ◌≡◌, ◌≢◌, refl, [], ◌∷◌, ◌++◌, some, arith, length, get_elem?,
  u64, ltb, if◌then◌else◌, ◌∙◌, ==_iff, ne→==,
}
use native.Mathlib.Decide.{ℕ_discrete}
use vpipe.Uapi.{MetaEntry}
use vpipe.Meta.{MetaDev, ring_size, normalize, put_slot, publish, fresh_dev}
use vpipe.Meta.Log.{Log, get_elem?-append, get_elem?-append_last, length-snoc}

-- The device has published the log: the counters count it, and every one of its last 256 entries
-- stands in the slot of its index.
pub record Holds (dev : MetaDev) (log : Log) : Type 0 where
  pub counted : dev.head ≡ length log
  pub published : dev.published ≡ length log
  pub dropped : dev.dropped ≡ length log - ring_size
  pub slots :
      (i : ℕ)
      → i < length log
      → length log ≤ i + ring_size
      → get_elem? log i ≡ some (dev.ring (i % ring_size))

pub fresh_dev-Holds : (blank : MetaEntry) → Holds (fresh_dev blank) []
fresh_dev-Holds blank = record {
  counted = refl;
  published = refl;
  dropped = refl;
  slots = λ i h k. absurd (omega arith);
}

put_slot-same : (ring : ℕ → MetaEntry) (i j : ℕ) (e : MetaEntry) → i ≡ j → put_slot ring i e j ≡ e
put_slot-same ring i j e h = rw ((==_iff i j).1 h)

put_slot-other :
    (ring : ℕ → MetaEntry) (i j : ℕ) (e : MetaEntry) → i ≢ j → put_slot ring i e j ≡ ring j
put_slot-other ring i j e h = rw (ne→== i j h)

-- Two of the last 256 indices have different slots.
slots-differ : (i n : ℕ) → i < n → n + 1 ≤ i + ring_size → n % ring_size ≢ i % ring_size
slots-differ i n h k = omega arith

publish-slots :
    (dev : MetaDev) (log : Log) (e : MetaEntry) (i : ℕ)
    → Holds dev log
    → i < length log + 1
    → length log + 1 ≤ i + ring_size
    → get_elem? (log ++ e ∷ []) i
      ≡ some (put_slot dev.ring (length log % ring_size) e (i % ring_size))
publish-slots dev log e i v h k = elim (ℕ_discrete i (length log)) [
  | yes last ↦
      rw (last, put_slot-same dev.ring (length log % ring_size) _ e refl)
        (get_elem?-append_last log e)
  | no other ↦
      let old : i < length log = omega arith in
      rw (put_slot-other dev.ring _ _ e (slots-differ i (length log) old k))
        (get_elem?-append log (e ∷ []) i old ∙ v.slots i old (omega arith))
]

dropped_after :
    (n d : ℕ)
    → n + 1 < 2 ^ 64
    → d ≡ n - ring_size
    → (if ltb ring_size (u64 (n + 1)) then u64 (n + 1) - ring_size else d) ≡ n + 1 - ring_size
dropped_after n d small e = ground arith

-- A publication appends the normalised entry to the log that the device holds and counts it, as long
-- as the 64-bit head does not wrap.
pub publish-Holds :
    (dev : MetaDev) (log : Log) (e : MetaEntry)
    → length log + 1 < 2 ^ 64
    → Holds dev log
    → Holds (publish dev e) (log ++ normalize e ∷ [])
unfolding publish
publish-Holds dev log e small v =
    let grown = length-snoc log (normalize e) in
    record {
      counted = omega (arith, v.counted, grown);
      published = omega (arith, v.published, grown);
      dropped = rw (v.counted, grown) (dropped_after (length log) dev.dropped small v.dropped);
      slots = λ i h k.
          rw v.counted
            (publish-slots dev log (normalize e) i v (omega (arith, grown)) (omega (arith, grown)));
    }
