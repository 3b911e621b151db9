-- ===== src/M2m/Device/Life.antt =====
-- kmod/vpipe-m2m.c: streaming, the ioctls of the driver, opening and closing a context, loading and
-- unloading the module. What is acquired and given back is a list of actions, in the order of the code.
pub mod Balance
pub mod Switch
use vpipe.Base.{
  ℕ, Bool, true, false, Option, none, some, List, [], ◌∷◌, ◌++◌, ◌||◌, if◌then◌else◌, Result, Errno,
  done, ok, err, ebusy, enomem, enotty,
}
use vpipe.Backend.{backend_fixture}
use vpipe.Backend.Vcam.{FbHeap}
use vpipe.Backend.Vcam.Dmabuf.{DmaBufs, ExportEnv}
use vpipe.Source.{
  Source, StartEnv, BackendOps, source_create, source_destroy, source_start, source_stop,
  source_export_dmabuf,
}
use vpipe.M2m.{Ctx, QueueType, output, capture, fresh_ctx}
use vpipe.M2m.Device.{Buffer, M2mCall, return_all_buffers}

abbrev with_source : Ctx → Result (Source × FbHeap) → Result (Ctx × FbHeap)
with_source ctx (err e) = err e
with_source ctx (ok (src, h)) = ok (record ctx { src = src }, h)

-- `vpipe_start_streaming`
unfoldable start_streaming : StartEnv → FbHeap → Ctx → QueueType → Result (Ctx × FbHeap)
unfolding source_start
start_streaming env h ctx output = with_source ctx (source_start env h ctx.src ctx.out_q.sizeimage)
start_streaming env h ctx capture = ok (ctx, h)

abbrev after_stop :
    Ctx → List M2mCall → Option (Source × FbHeap) → Option (Ctx × FbHeap × List M2mCall)
after_stop ctx calls none = none
after_stop ctx calls (some (src, h)) = some (record ctx { src = src }, h, calls)

-- `vpipe_stop_streaming`; `ready` are the buffers that are still queued.
unfoldable stop_streaming :
    FbHeap → Ctx → QueueType → List Buffer → Option (Ctx × FbHeap × List M2mCall)
unfolding source_stop return_all_buffers
stop_streaming h ctx output ready =
    after_stop ctx (return_all_buffers output ready) (source_stop h ctx.src)
stop_streaming h ctx capture ready = some (ctx, h, return_all_buffers capture ready)

-- The commands that reach `vpipe_default_ioctl`.
pub data Command : Type 0 where
  set_backend : ℕ → Command
  export_src_dmabuf : Command
  other_command : Command

-- What an ioctl leaves: its result, which is a descriptor for an export, and the state.
pub record Replied : Type 0 where
  pub status : Result (Option ℕ)
  pub ctx : Ctx
  pub heap : FbHeap
  pub bufs : DmaBufs

abbrev pub switched : Ctx → DmaBufs → Source → Option FbHeap → Option Replied
switched ctx bufs src none = none
switched ctx bufs src (some h) =
    some (record { status = ok none; ctx = record ctx { src = src }; heap = h; bufs = bufs })

abbrev pub switch_to : FbHeap → Ctx → DmaBufs → Result Source → Option Replied
switch_to h ctx bufs (err e) = some (record { status = err e; ctx = ctx; heap = h; bufs = bufs })
switch_to h ctx bufs (ok src) = switched ctx bufs src (source_destroy h ctx.src)

abbrev fd_reply : Result ℕ → Result (Option ℕ)
fd_reply (err e) = err e
fd_reply (ok fd) = ok (some fd)

abbrev pub exported : Ctx → Option (Result ℕ × FbHeap × DmaBufs) → Option Replied
exported ctx none = none
exported ctx (some (r, h, bufs)) =
    some (record { status = fd_reply r; ctx = ctx; heap = h; bufs = bufs })

-- `vpipe_default_ioctl`; `out_streaming` and `cap_streaming` are `vb2_is_streaming` of the queues.
unfoldable pub default_ioctl :
    BackendOps → Bool → ExportEnv → FbHeap → Ctx → DmaBufs → Bool → Bool → Command → Option Replied
unfolding source_create source_destroy source_export_dmabuf
default_ioctl slots allocated env h ctx bufs out_streaming cap_streaming (set_backend id) =
    if out_streaming || cap_streaming
    then some (record { status = err ebusy; ctx = ctx; heap = h; bufs = bufs })
    else switch_to h ctx bufs (source_create slots allocated id)
default_ioctl slots allocated env h ctx bufs out_streaming cap_streaming export_src_dmabuf =
    exported ctx (source_export_dmabuf env h bufs ctx.src)
default_ioctl slots allocated env h ctx bufs out_streaming cap_streaming other_command =
    some (record { status = err enotty; ctx = ctx; heap = h; bufs = bufs })

-- What a context or the module holds.
pub data Resource : Type 0 where
  ctx_memory ctrl_handler fh fh_list m2m_ctx source meta_device v4l2_device m2m_device
        video_device :
      Resource

pub data Action : Type 0 where
  acquire release : Resource → Action

-- `vpipe_open` from the creation of the source on.
abbrev open_source : Result Source → Result Ctx × List Action
open_source (err e) = (
  err e,
  release m2m_ctx ∷ release fh_list ∷ release fh ∷ release ctrl_handler ∷ release ctx_memory ∷ [],
)
open_source (ok src) = (ok (fresh_ctx src), acquire source ∷ [])

-- The actions before those of the rest.
abbrev pub first {ℓ} : {A : Type ℓ} → List Action → A × List Action → A × List Action
first actions (a, rest) = (a, actions ++ rest)

abbrev open_m2m : Result (Unit {0}) → Result Source → Result Ctx × List Action
open_m2m (err e) src =
    (err e, release fh_list ∷ release fh ∷ release ctrl_handler ∷ release ctx_memory ∷ [])
open_m2m (ok _) src = first (acquire m2m_ctx ∷ []) (open_source src)

abbrev pub open_handler :
    Option Errno → Result (Unit {0}) → Result Source → Result Ctx × List Action
open_handler (some e) m2m src = (err e, release ctrl_handler ∷ release ctx_memory ∷ [])
open_handler none m2m src = first (acquire fh ∷ acquire fh_list ∷ []) (open_m2m m2m src)

-- `vpipe_open`: the results of the allocation, of the control handler, of `v4l2_m2m_ctx_init` and of the
-- allocation of the source are given.
unfoldable pub vpipe_open :
    BackendOps → Bool → Option Errno → Result (Unit {0}) → Bool → Result Ctx × List Action
unfolding source_create fresh_ctx
vpipe_open slots ctx_ok handler m2m source_ok =
    if ctx_ok
    then first (acquire ctx_memory ∷ acquire ctrl_handler ∷ [])
        (open_handler handler m2m (source_create slots source_ok backend_fixture))
    else (err enomem, [])

-- `vpipe_release`; the source is destroyed by `vpipe_source_destroy`.
abbrev pub release_actions : List Action
release_actions =
    release source
    ∷ release m2m_ctx
    ∷ release ctrl_handler
    ∷ release fh_list
    ∷ release fh
    ∷ release ctx_memory
    ∷ []

-- What the steps of `vpipe_init` return: those of the metadata device, of the registration of the
-- three backends, of `v4l2_device_register`, of `v4l2_m2m_init` and of `video_register_device`.
pub record InitEnv : Type 0 where
  pub meta : Result (Unit {0})
  pub backends : Result (Unit {0})
  pub v4l2 : Result (Unit {0})
  pub m2m : Result (Unit {0})
  pub video : Result (Unit {0})

abbrev init_video : Result (Unit {0}) → Result (Unit {0}) × List Action
init_video (err e) = (err e, release m2m_device ∷ release v4l2_device ∷ release meta_device ∷ [])
init_video (ok _) = (done, acquire video_device ∷ [])

abbrev init_m2m : Result (Unit {0}) → Result (Unit {0}) → Result (Unit {0}) × List Action
init_m2m (err e) video = (err e, release v4l2_device ∷ release meta_device ∷ [])
init_m2m (ok _) video = first (acquire m2m_device ∷ []) (init_video video)

abbrev init_v4l2 :
    Result (Unit {0}) → Result (Unit {0}) → Result (Unit {0}) → Result (Unit {0}) × List Action
init_v4l2 (err e) m2m video = (err e, release meta_device ∷ [])
init_v4l2 (ok _) m2m video = first (acquire v4l2_device ∷ []) (init_m2m m2m video)

abbrev init_backends : Result (Unit {0}) → InitEnv → Result (Unit {0}) × List Action
init_backends (err e) env = (err e, release meta_device ∷ [])
init_backends (ok _) env = init_v4l2 env.v4l2 env.m2m env.video

abbrev init_meta : Result (Unit {0}) → InitEnv → Result (Unit {0}) × List Action
init_meta (err e) env = (err e, [])
init_meta (ok _) env = first (acquire meta_device ∷ []) (init_backends env.backends env)

-- `vpipe_init`
unfoldable pub vpipe_init : InitEnv → Result (Unit {0}) × List Action
vpipe_init env = init_meta env.meta env

-- `vpipe_exit`
abbrev pub exit_actions : List Action
exit_actions =
    release video_device ∷ release m2m_device ∷ release v4l2_device ∷ release meta_device ∷ []
