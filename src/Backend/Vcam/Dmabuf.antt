-- ===== src/Backend/Vcam/Dmabuf.antt =====
-- kmod/vpipe-vcam.c: the DMA-BUF exports of a framebuffer. Each holds a reference to it.
use vpipe.Base.{
  ℕ, zero, suc, ◌+◌, ◌-◌, ◌*◌, ◌/◌, Bool, Option, none, some, List, [], ◌∷◌, ltb, if◌then◌else◌,
  Result, Errno, done, ok, err, einval, enomem, efault, ◌>>=◌, ◌>>◌,
}
use vpipe.Backend.Vcam.{VcamFb, FbHeap, VcamPriv, kref_get, kref_put}

-- The DMA-BUFs that are alive, each with the framebuffer that it exports.
abbrev pub DmaBufs : Type 0
DmaBufs = List ℕ

-- `vcam_dmabuf_release`: the last reference to a DMA-BUF is gone.
unfoldable pub vcam_dmabuf_release : FbHeap → ℕ → Option FbHeap
unfolding kref_put
vcam_dmabuf_release h p = kref_put h p

-- What `dma_buf_export` and `dma_buf_fd` return.
pub record ExportEnv : Type 0 where
  pub exported : Result (Unit {0})
  pub fd : Result ℕ

-- An export that fails with `e`, once it has given its reference back.
abbrev pub give_back : Errno → DmaBufs → Option FbHeap → Option (Result ℕ × FbHeap × DmaBufs)
give_back e bufs none = none
give_back e bufs (some h) = some (err e, h, bufs)

-- `vcam_export_dmabuf` from the `dma_buf_export` on, with the reference of the export taken. If there
-- is no descriptor left, `dma_buf_put` drops the only reference to the new DMA-BUF, which releases it.
unfoldable pub export_taken :
    Result (Unit {0}) → Result ℕ → FbHeap → ℕ → DmaBufs → Option (Result ℕ × FbHeap × DmaBufs)
unfolding kref_put vcam_dmabuf_release
export_taken (err e) fd h p bufs = give_back e bufs (kref_put h p)
export_taken (ok _) (ok fd) h p bufs = some (ok fd, h, p ∷ bufs)
export_taken (ok _) (err e) h p bufs = give_back e bufs (vcam_dmabuf_release h p)

abbrev pub export_got :
    ExportEnv → ℕ → DmaBufs → Option FbHeap → Option (Result ℕ × FbHeap × DmaBufs)
export_got env p bufs none = none
export_got env p bufs (some h) = export_taken env.exported env.fd h p bufs

-- `vcam_export_dmabuf` on the framebuffer of a private state.
unfoldable pub export_fb :
    ExportEnv → FbHeap → DmaBufs → Option ℕ → Option (Result ℕ × FbHeap × DmaBufs)
unfolding kref_get export_taken
export_fb env h bufs none = some (err einval, h, bufs)
export_fb env h bufs (some p) = export_got env p bufs (kref_get h p)

-- `vcam_export_dmabuf`
unfoldable pub vcam_export_dmabuf :
    ExportEnv → FbHeap → DmaBufs → Option VcamPriv → Option (Result ℕ × FbHeap × DmaBufs)
unfolding export_fb
vcam_export_dmabuf env h bufs none = some (err einval, h, bufs)
vcam_export_dmabuf env h bufs (some priv) = export_fb env h bufs priv.fb

-- `vcam_dmabuf_mmap`; `remapped` is the result of `remap_vmalloc_range`.
unfoldable vcam_dmabuf_mmap : VcamFb → ℕ → ℕ → Result (Unit {0}) → Result (Unit {0})
vcam_dmabuf_mmap fb vm_start vm_end remapped =
    if ltb fb.size (vm_end - vm_start) then err einval else remapped

-- A page before the others, or -EFAULT if there is none.
abbrev pub put_page : Option ℕ → Result (List ℕ) → Result (List ℕ)
put_page none rest = err efault
put_page (some a) rest = do pages ← rest; ok (a ∷ pages)

-- The loop of `vcam_dmabuf_map`: the pages from the `i`-th on, `n` of them; `page_at` is
-- `vmalloc_to_page` at the page's offset in the framebuffer.
unfoldable pub sg_pages : (ℕ → Option ℕ) → ℕ → ℕ → ℕ → Result (List ℕ)
sg_pages page_at page i zero = ok []
sg_pages page_at page i (suc n) = put_page (page_at (i * page)) (sg_pages page_at page (i + 1) n)

-- `vcam_dmabuf_map`: the table, `sg_alloc_table` and `dma_map_sgtable` have their results given. What
-- was allocated is freed on every error.
unfoldable pub vcam_dmabuf_map :
    VcamFb → ℕ → (ℕ → Option ℕ) → Bool → Result (Unit {0}) → Result (Unit {0}) → Result (List ℕ)
unfolding sg_pages
vcam_dmabuf_map fb page page_at table_ok allocated mapped_ok = do
  if table_ok then done else err enomem
  allocated
  pages ← sg_pages page_at page 0 (fb.size / page)
  mapped_ok
  ok pages

-- What an importer holds of a map: the table's memory, its list of pages, and the mapping of the device.
data SgResource : Type 0 where
  sg_memory sg_list sg_mapping : SgResource

-- `vcam_dmabuf_unmap`: what it gives back, in this order.
abbrev vcam_dmabuf_unmap : List SgResource
vcam_dmabuf_unmap = sg_mapping ∷ sg_list ∷ sg_memory ∷ []

-- `vcam_dmabuf_begin_cpu` and `vcam_dmabuf_end_cpu`: the pixels are in memory of the CPU.
abbrev vcam_dmabuf_begin_cpu : Result (Unit {0})
vcam_dmabuf_begin_cpu = done

abbrev vcam_dmabuf_end_cpu : Result (Unit {0})
vcam_dmabuf_end_cpu = done

-- `vcam_dmabuf_vmap`: the map of an importer has the address of the framebuffer `p`.
abbrev vcam_dmabuf_vmap : ℕ → Option ℕ → Result (Option ℕ)
vcam_dmabuf_vmap p map = ok (some p)

-- `vcam_dmabuf_vunmap`
abbrev vcam_dmabuf_vunmap : Option ℕ → Option ℕ
vcam_dmabuf_vunmap map = none
