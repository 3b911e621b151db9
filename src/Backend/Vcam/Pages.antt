-- ===== src/Backend/Vcam/Pages.antt =====
-- The size of a framebuffer, and the table of its pages that `vcam_dmabuf_map` builds.
use vpipe.Base.{
  ℕ, zero, suc, ◌+◌, ◌*◌, ◌/◌, ◌≤◌, ◌<◌, ◌≡◌, refl, sym, subst, ◌∙◌, Bool, true, false, Option,
  none, some, List, [], ◌∷◌, arith, length, Result, ok, err, ok_inj, done, ◌>>=◌,
}
use vpipe.Backend.Vcam.{VcamFb, page_align}
use vpipe.Backend.Vcam.Dmabuf.{put_page, sg_pages, vcam_dmabuf_map}

-- Whole pages that hold the bytes asked for, and less than a page more.
page_align_bounds :
    (page bytes : ℕ)
    → 0 < page
    → (bytes ≤ page_align page bytes)
      × (page_align page bytes < bytes + page)
      × (page_align page bytes / page * page ≡ page_align page bytes)
page_align_bounds page bytes h = (grind arith, grind arith, grind arith)

put_page-ok :
    (found : Option ℕ) (rest : Result (List ℕ)) {pages : List ℕ}
    → put_page found rest ≡ ok pages
    → (a : ℕ) × (r : List ℕ) × (found ≡ some a) × (rest ≡ ok r) × (pages ≡ a ∷ r)
put_page-ok none rest e = cc
put_page-ok (some a) (err x) e = cc
put_page-ok (some a) (ok r) e = (a, r, refl, refl, sym (ok_inj e))

-- The pages are those of the framebuffer, in order.
abbrev ArePages : (ℕ → Option ℕ) → ℕ → ℕ → List ℕ → Type 0
ArePages page_at page i [] = Unit {0}
ArePages page_at page i (a ∷ r) = (page_at (i * page) ≡ some a) × ArePages page_at page (i + 1) r

sg_pages-ok :
    (page_at : ℕ → Option ℕ) (page n i : ℕ) {pages : List ℕ}
    → sg_pages page_at page i n ≡ ok pages
    → (length pages ≡ n) × ArePages page_at page i pages
unfolding sg_pages
sg_pages-ok page_at page zero i e =
    subst (λ l. (length l ≡ 0) × ArePages page_at page i l) (ok_inj e) (refl, tt)
sg_pages-ok page_at page (suc n) i e =
    let (a, r, found, rest, same) = put_page-ok (page_at (i * page)) _ e in
    let (count, are) = sg_pages-ok page_at page n (i + 1) rest in
    subst (λ l. (length l ≡ suc n) × ArePages page_at page i l) (sym same)
      (omega (arith, count), (found, are))

-- A map that succeeds gives the pages of the whole framebuffer in order, one entry for each, and a map
-- fails if its allocations or the mapping fail, or if a page is not there.
vcam_dmabuf_map-ok :
    (fb : VcamFb) (page : ℕ) (page_at : ℕ → Option ℕ) (table_ok : Bool)
    (allocated mapped_ok : Result (Unit {0})) {pages : List ℕ}
    → vcam_dmabuf_map fb page page_at table_ok allocated mapped_ok ≡ ok pages
    → (length pages ≡ fb.size / page)
      × ArePages page_at page 0 pages
      × (table_ok ≡ true)
      × (allocated ≡ done)
      × (mapped_ok ≡ done)
unfolding vcam_dmabuf_map
vcam_dmabuf_map-ok fb page page_at false allocated mapped_ok e = cc
vcam_dmabuf_map-ok fb page page_at true (err x) mapped_ok e = cc
vcam_dmabuf_map-ok fb page page_at true (ok u) mapped_ok {pages} e =
    table (sg_pages page_at page 0 (fb.size / page)) mapped_ok refl e
  where
    table :
        (t : Result (List ℕ)) (m : Result (Unit {0}))
        → sg_pages page_at page 0 (fb.size / page) ≡ t
        → (t >>= λ l. m >>= λ _. ok l) ≡ ok pages
        → (length pages ≡ fb.size / page)
          × ArePages page_at page 0 pages
          × (◌≡◌ {A = Bool} true true)
          × (ok u ≡ done)
          × (m ≡ done)
    table (err x) m same built = cc
    table (ok l) (err x) same built = cc
    table (ok l) (ok w) same built =
        let (count, are) = sg_pages-ok page_at page (fb.size / page) 0 (same ∙ built) in
        (count, are, refl, refl, refl)
