-- ===== src/User/Runner/Loop/Slots.antt =====
-- user/vpipe-vcam-runner.c: the ring of submission times has a slot for each frame in flight.
use vpipe.Base.{ℕ, ◌+◌, ◌*◌, ◌/◌, ◌%◌, ◌≤◌, ◌<◌, ◌≡◌, ◌≢◌, refl, sym, ap, ◌∙◌, arith, ==_iff, ne→==}
use native.Mathlib.Nat.{mod-add-div}
use native.Mathlib.Decide.{ℕ_discrete}
use vpipe.User.Runner.Submit.{put_time}

-- Less than `size` apart, two numbers have different remainders.
remainders-differ : (size i n : ℕ) → i < n → n < i + size → n % size ≢ i % size
remainders-differ size i n h k same =
    grind (arith, mod-add-div n size, mod-add-div i size, quotient (n / size) (i / size))
  where
    quotient : (a b : ℕ) → b < a → size * b + size ≤ size * a
    quotient a b h = grind arith

put_time-same : (ring : ℕ → ℕ) (i j v : ℕ) → i ≡ j → put_time ring i v j ≡ v
put_time-same ring i j v h = rw ((==_iff i j).1 h) refl

put_time-other : (ring : ℕ → ℕ) (i j v : ℕ) → i ≢ j → put_time ring i v j ≡ ring j
put_time-other ring i j v h = rw (ne→== i j h) refl

-- Every frame `i` that is one of the last `size` of `n` has its time in the ring.
abbrev pub Keeps : ℕ → (ℕ → ℕ) → (ℕ → ℕ) → ℕ → Type 0
Keeps size ring sent n = (i : ℕ) → i < n → n ≤ i + size → ring (i % size) ≡ sent i

-- One more submission overwrites the slot of a frame that is no longer one of them.
pub put_time-Keeps :
    (size : ℕ) (ring sent sent' : ℕ → ℕ) (n v : ℕ)
    → Keeps size ring sent n
    → sent' n ≡ v
    → ((i : ℕ) → i < n → sent' i ≡ sent i)
    → Keeps size (put_time ring (n % size) v) sent' (n + 1)
put_time-Keeps size ring sent sent' n v keeps now before i h k = elim (ℕ_discrete n i) [
  | yes last ↦
      put_time-same ring (n % size) (i % size) v (ap (λ m. m % size) last) ∙ sym now ∙ ap sent' last
  | no other ↦
      put_time-other ring (n % size) (i % size) v
        (remainders-differ size i n (omega arith) (omega arith))
      ∙ keeps i (omega arith) (omega arith)
      ∙ sym (before i (omega arith))
]
