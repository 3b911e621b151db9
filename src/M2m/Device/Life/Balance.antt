-- ===== src/M2m/Device/Life/Balance.antt =====
-- What an open context and a loaded module hold, and that nothing is left behind.
use vpipe.Base.{
  ℕ, ◌+◌, ◌≡◌, refl, Bool, true, false, Option, none, some, List, [], ◌∷◌, ◌++◌, ◌==◌, arith,
  if◌then◌else◌, Result, Errno, ok, err,
}
use vpipe.Source.{Source, BackendOps, source_create}
use vpipe.M2m.Device.Life.{
  Resource, ctx_memory, ctrl_handler, fh, fh_list, m2m_ctx, source, meta_device, v4l2_device,
  m2m_device, video_device, Action, acquire, release, open_handler, first, vpipe_open,
  release_actions, InitEnv, vpipe_init, exit_actions,
}

abbrev pub number : Resource → ℕ
number ctx_memory = 0
number ctrl_handler = 1
number fh = 2
number fh_list = 3
number m2m_ctx = 4
number source = 5
number meta_device = 6
number v4l2_device = 7
number m2m_device = 8
number video_device = 9

-- The actions that acquire the resource, and those that give it back.
unfoldable pub acquired : Resource → List Action → ℕ
acquired r [] = 0
acquired r (acquire s ∷ acts) = (if number r == number s then 1 else 0) + acquired r acts
acquired r (release s ∷ acts) = acquired r acts

unfoldable pub released : Resource → List Action → ℕ
released r [] = 0
released r (acquire s ∷ acts) = released r acts
released r (release s ∷ acts) = (if number r == number s then 1 else 0) + released r acts

-- What remains to be given back after a call that fails is nothing, and after one that succeeds is
-- what `undo` gives back; no resource is acquired twice.
abbrev pub Balances {ℓ} : {A : Type ℓ} → List Action → Result A × List Action → Type 0
Balances undo (err e, acts) = (r : Resource) → acquired r acts ≡ released r acts
Balances undo (ok a, acts) =
    (r : Resource) → (acquired r acts ≡ released r (acts ++ undo)) × (released r acts ≡ 0)

-- Opening a context that fails, wherever it does, gives back all that it has acquired, and closing a
-- context gives back once all that opening it acquired.
pub vpipe_open-Balances :
    (slots : BackendOps) (ctx_ok : Bool) (handler : Option Errno) (m2m : Result (Unit {0}))
    (source_ok : Bool)
    → Balances release_actions (vpipe_open slots ctx_ok handler m2m source_ok)
unfolding vpipe_open acquired released
vpipe_open-Balances slots false handler m2m source_ok = λ r. refl
vpipe_open-Balances slots true (some e) m2m source_ok = λ r. omega arith
vpipe_open-Balances slots true none (err e) source_ok = λ r. omega arith
vpipe_open-Balances slots true none (ok _) source_ok = by_source (source_create slots source_ok 1)
  where
    by_source :
        (src : Result Source)
        → Balances release_actions
            (first (acquire ctx_memory ∷ acquire ctrl_handler ∷ []) (open_handler none (ok tt) src))
    by_source (err e) = λ r. omega arith
    by_source (ok src) = λ r. (omega arith, refl)

init-Balances :
    (meta backends v4l2 m2m video : Result (Unit {0}))
    → Balances exit_actions (
        vpipe_init
          (record { meta = meta; backends = backends; v4l2 = v4l2; m2m = m2m; video = video }))
unfolding vpipe_init acquired released
init-Balances (err e) backends v4l2 m2m video = λ r. refl
init-Balances (ok _) (err e) v4l2 m2m video = λ r. omega arith
init-Balances (ok _) (ok _) (err e) m2m video = λ r. omega arith
init-Balances (ok _) (ok _) (ok _) (err e) video = λ r. omega arith
init-Balances (ok _) (ok _) (ok _) (ok _) (err e) = λ r. omega arith
init-Balances (ok _) (ok _) (ok _) (ok _) (ok _) = λ r. (omega arith, refl)

-- Loading the module gives back what it has registered if a step fails, whichever it is, and
-- unloading it gives back once all that loading registered. (Backends are never unregistered.)
pub vpipe_init-Balances : (env : InitEnv) → Balances exit_actions (vpipe_init env)
vpipe_init-Balances env = init-Balances env.meta env.backends env.v4l2 env.m2m env.video
