-- ===== src/Source/Frames.antt =====
-- The frames that `vpipe_source_next_frame` stamps, for any backend.
use vpipe.Base.{
  ℕ, ◌+◌, ◌^◌, ◌<◌, ◌≡◌, refl, Option, none, some, List, [], ◌∷◌, u32, arith, Result, ok, err,
}
use vpipe.Backend.{FrameDesc, Frame}
use vpipe.Backend.Vcam.{FbHeap, Plane}
use vpipe.Source.{
  Source, SourcePriv, SourceFrame, cleared, stamp_by, stamped, next_by, source_next_frame,
}

-- A call: the time, the plane and the descriptor of the buffer.
pub record Call : Type 0 where
  pub now : ℕ
  pub plane : Option Plane
  pub desc : FrameDesc

-- The descriptor of a call that has succeeded, before those of the calls after it.
abbrev keep : Result (Unit {0}) → FrameDesc → List FrameDesc → List FrameDesc
keep (ok _) desc rest = desc ∷ rest
keep (err e) desc rest = rest

-- What is left of a run after a call; the run ends at a use after free.
abbrev after :
    Option (FbHeap × Frame Source (Option Plane))
    → (FbHeap → Source → List FrameDesc)
    → List FrameDesc
after none rest = []
after (some (h, f)) rest = keep f.status f.desc (rest h f.priv)

-- The descriptors of the calls that succeed, in order.
unfoldable pub run_calls : FbHeap → Source → List Call → List FrameDesc
unfolding source_next_frame
run_calls h src [] = []
run_calls h src (c ∷ cs) =
    after (source_next_frame c.now h src c.plane c.desc) (λ h' src'. run_calls h' src' cs)

-- The descriptors are those of the backend `id`, with the sequence numbers from `n` on, as 32-bit words.
abbrev pub Numbered : ℕ → ℕ → List FrameDesc → Type 0
Numbered id n [] = Unit
Numbered id n (d ∷ ds) = (d.sequence ≡ u32 n) × (d.backend_id ≡ id) × Numbered id (n + 1) ds

-- The calls of `cs`, from any source on, are numbered.
abbrev Continues : List Call → Type 0
Continues cs =
    (h : FbHeap) (src : Source) (n : ℕ)
    → src.seq ≡ u32 n
    → Numbered src.backend_id n (run_calls h src cs)

after-Numbered :
    (now : ℕ) (cs : List Call) (src : Source) (n : ℕ) (res : Option SourceFrame)
    → Continues cs
    → src.seq ≡ u32 n
    → Numbered src.backend_id n (after (stamped now src res) (λ h' src'. run_calls h' src' cs))
after-Numbered now cs src n none again e = tt
after-Numbered now cs src n (some (h, f)) again e = by_status f.status
  where
    by_status :
        (r : Result (Unit {0}))
        → let g = stamp_by r now src f in
          Numbered src.backend_id n (keep g.status g.desc (run_calls h g.priv cs))
    by_status (err x) = again h (record src { priv = f.priv }) n e
    by_status (ok _) = (
      e,
      refl,
      again h (record src { priv = f.priv; seq = u32 (src.seq + 1) }) (n + 1) (omega arith),
    )

call-Numbered :
    (c : Call) (cs : List Call) (h : FbHeap) (src : Source) (n : ℕ)
    (next : Option (FbHeap → SourcePriv → Option Plane → FrameDesc → Option SourceFrame))
    → Continues cs
    → src.seq ≡ u32 n
    → Numbered src.backend_id n
        (after (next_by next c.now h src c.plane c.desc) (λ h' src'. run_calls h' src' cs))
call-Numbered c cs h src n none again e = again h src n e
call-Numbered c cs h src n (some next) again e =
    after-Numbered c.now cs src n (next h src.priv c.plane (cleared c.desc)) again e

run-Numbered : (cs : List Call) → Continues cs
unfolding run_calls source_next_frame
run-Numbered [] h src n e = tt
run-Numbered (c ∷ cs) h src n e =
    call-Numbered c cs h src n src.ops.next_frame (λ h' s m e'. run-Numbered cs h' s m e') e

-- Whatever backend a source has, the frames that it stamps carry its backend's identifier and
-- consecutive sequence numbers, as 32-bit words: a call that fails leaves no gap.
pub run_calls-Numbered :
    (cs : List Call) (h : FbHeap) (src : Source)
    → src.seq < 2 ^ 32
    → Numbered src.backend_id src.seq (run_calls h src cs)
run_calls-Numbered cs h src small = run-Numbered cs h src src.seq (omega arith)

-- Nothing of the descriptor of an earlier frame but its geometry reaches a backend that can be called:
-- two descriptors of one geometry give the same frame.
source_next_frame-geometry :
    (now : ℕ) (h : FbHeap) (src : Source) (plane : Option Plane) (desc desc' : FrameDesc)
    (next : FbHeap → SourcePriv → Option Plane → FrameDesc → Option SourceFrame)
    → src.ops.next_frame ≡ some next
    → desc.width ≡ desc'.width
    → desc.height ≡ desc'.height
    → desc.stride ≡ desc'.stride
    → source_next_frame now h src plane desc ≡ source_next_frame now h src plane desc'
unfolding source_next_frame
source_next_frame-geometry now h src plane desc desc' next has w e s = rw (has, w, e, s) refl
