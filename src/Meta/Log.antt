-- ===== src/Meta/Log.antt =====
-- The specification of the metadata device: the log of all that was published, and a reader's cursor
-- in it. The device keeps the last 256 entries; a reader that falls behind is told so.
use vpipe.Base.{
  ℕ, zero, suc, ◌+◌, ◌-◌, ◌<◌, ◌≡◌, refl, List, [], ◌∷◌, ◌++◌, Option, none, some, arith, Bool,
  true, false, Result, efault, ok, err, eagain, length, get_elem?, length-append, ltb,
  if◌then◌else◌,
}
use vpipe.Uapi.{MetaEntry}
use vpipe.Meta.{ring_size, Got, entry, mark_overrun}

abbrev pub Log : Type 0
Log = List MetaEntry

-- The cursor of a reader once it has caught up with the entries that are kept.
abbrev pub catch_up : Log → ℕ → ℕ
catch_up log cursor = if ltb cursor (length log - ring_size) then length log - ring_size else cursor

-- The entry as a reader with the cursor gets it: marked if entries before it were lost.
abbrev pub seen : Log → ℕ → MetaEntry → MetaEntry
seen log cursor e = if ltb cursor (length log - ring_size) then mark_overrun e else e

-- A read of an open device gives the entry at the cursor, if one has been published, and goes past
-- it. Where the copy to the reader fails, the cursor has only caught up.
abbrev pub after_get : Log → ℕ → Bool → Option MetaEntry → Result Got × ℕ
after_get log cursor copied none = (err eagain, cursor)
after_get log cursor true (some e) = (ok (entry (seen log cursor e)), catch_up log cursor + 1)
after_get log cursor false (some e) = (err efault, catch_up log cursor)

unfoldable pub log_read : Log → ℕ → Bool → Result Got × ℕ
log_read log cursor copied = after_get log cursor copied (get_elem? log (catch_up log cursor))

module _ {ℓ} {A : Type ℓ} where
  pub get_elem?-append :
      (xs ys : List A) (i : ℕ) → i < length xs → get_elem? (xs ++ ys) i ≡ get_elem? xs i
  get_elem?-append [] ys i h = absurd (omega arith)
  get_elem?-append (x ∷ xs) ys zero h = refl
  get_elem?-append (x ∷ xs) ys (suc i) h = get_elem?-append xs ys i (omega arith)

  pub get_elem?-append_last : (xs : List A) (a : A) → get_elem? (xs ++ a ∷ []) (length xs) ≡ some a
  get_elem?-append_last [] a = refl
  get_elem?-append_last (x ∷ xs) a = get_elem?-append_last xs a

  pub length-snoc : (xs : List A) (a : A) → length (xs ++ a ∷ []) ≡ length xs + 1
  length-snoc xs a = omega (arith, length-append xs (a ∷ []))

  pub get_elem?-none : (xs : List A) → get_elem? xs (length xs) ≡ none
  get_elem?-none [] = refl
  get_elem?-none (x ∷ xs) = get_elem?-none xs
