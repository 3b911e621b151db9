-- ===== src/User/CaptureM2m/Sound.antt =====
-- user/vpipe-capture-m2m.c: the calls so far are inside of the buffers, and these are mapped.
use vpipe.Base.{ℕ, ◌≡◌, ◌<◌, false, Option, ◌∷◌}
use vpipe.M2m.{QueueType}
use vpipe.User.Calls.{
  Kernel, Trace, Handle, Call, asked, obtained, query_buffer, Outcome, next, cleanup, ◌then◌, lift,
  Always, Ends, Ends-then, must_succeed-Ends,
}
use vpipe.User.Queues.{Slots}
use vpipe.User.Quiet.{fills, IsQuiet}
use vpipe.User.CaptureM2m.Setup.{buffer_count, Capture, ask_device}
use vpipe.User.CaptureM2m.Inside.{
  Covers-cons, FeedsInside, FeedsInside-IsQuiet, Backed, Backed-IsQuiet,
}

-- The calls so far, and the buffers of a copy.
abbrev pub AllInside : Slots → Slots → Trace → Type 0
AllInside from to trace = FeedsInside trace × (Backed trace from × Backed trace to)

pub AllInside-IsQuiet : (from to : Slots) → IsQuiet (AllInside from to)
AllInside-IsQuiet from to = record {
  asks = λ call trace q (h, (a, b)). (
    FeedsInside-IsQuiet.asks call trace q h,
    ((Backed-IsQuiet from).asks call trace q a, (Backed-IsQuiet to).asks call trace q b),
  );
  gets = λ handle trace (h, (a, b)). (
    FeedsInside-IsQuiet.gets handle trace h,
    ((Backed-IsQuiet from).gets handle trace a, (Backed-IsQuiet to).gets handle trace b),
  );
  gives = λ handle trace (h, (a, b)). (
    FeedsInside-IsQuiet.gives handle trace h,
    ((Backed-IsQuiet from).gives handle trace a, (Backed-IsQuiet to).gives handle trace b),
  );
}

-- A QUERYBUF of a buffer that has a slot.
pub query-AllInside :
    (from to : Slots) (fd : Option ℕ) (type : QueueType) (i : ℕ) (trace : Trace)
    → i < buffer_count
    → AllInside from to trace
    → AllInside from to (asked (query_buffer fd type i) ∷ trace)
query-AllInside from to fd type i trace small (h, (a, b)) =
    let event = asked (query_buffer fd type i) in
    ((small, h), ((λ j. Covers-cons event _ _ _ (a j)), λ j. Covers-cons event _ _ _ (b j)))

abbrev pub Sound : Capture → Type 0
Sound r = AllInside r.vivid_bufs r.vpipe_out_bufs r.trace

abbrev pub Fed : Capture → Type 0
Fed r = FeedsInside r.trace

pub asks-Sound :
    (r : Capture) (call : Call)
    → fills call ≡ false
    → Sound r
    → Sound (record r { trace = asked call ∷ r.trace })
asks-Sound r call q sound =
    (AllInside-IsQuiet r.vivid_bufs r.vpipe_out_bufs).asks call r.trace q sound

pub gets-Sound :
    (r : Capture) (handle : Handle)
    → Sound r
    → Sound (record r { trace = obtained handle ∷ r.trace })
gets-Sound r handle sound =
    (AllInside-IsQuiet r.vivid_bufs r.vpipe_out_bufs).gets handle r.trace sound

unfoldable pub Safe : Outcome Capture → Type 0
Safe o = Ends Sound Fed o

pub both :
    (o : Outcome Capture) (step : Capture → Outcome Capture)
    → Safe o
    → ((r : Capture) → Sound r → Safe (step r))
    → Safe (o then step)
unfolding Safe
both o step ends keep = Ends-then Sound Sound Fed o step ends keep

pub kept_lift :
    (put : Trace × Slots → Capture) (o : Outcome (Trace × Slots)) (P : Trace × Slots → Type 0)
    (Q : Trace × Slots → Type 0)
    → ((s : Trace × Slots) → P s → Q s → Sound (put s))
    → ((s : Trace × Slots) → P s → Fed (put s))
    → Always P o
    → Ends Q (λ _. Unit) o
    → Safe (lift put o)
unfolding Safe
kept_lift put (next s) P Q good bad p q = good s p q
kept_lift put (cleanup s) P Q good bad p q = bad s p

pub any_end : (o : Outcome (Trace × Slots)) → Ends {0, 0} (λ s. Unit) (λ s. Unit) o
any_end (next s) = tt
any_end (cleanup s) = tt

module _ (kernel : Kernel) where
  pub ask_device-Sound :
      (call : Call) (r : Capture) → fills call ≡ false → Sound r → Safe (ask_device kernel call r)
  unfolding Safe
  ask_device-Sound call r q sound =
      let after = asks-Sound r call q sound in
      must_succeed-Ends Sound Fed kernel call r.trace (λ t. record r { trace = t }) after after.0
