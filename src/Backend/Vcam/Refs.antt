-- ===== src/Backend/Vcam/Refs.antt =====
-- The reference counts of the framebuffers under the operations of kmod/vpipe-vcam.c.
use vpipe.Base.{
  ℕ, ◌+◌, ◌-◌, ◌≤◌, ◌<◌, ◌≡◌, ◌≢◌, refl, sym, ap, subst, ◌∙◌, Bool, Option, none, some, List, [],
  ◌∷◌, arith, ◌==◌, ==_iff, ne→==, if◌then◌else◌, ◌&&◌, Option-cases, Bool-cases, some_inj, inl,
  inr,
}
use native.Mathlib.Decide.{ℕ_discrete, dec_lt}
use vpipe.Backend.Vcam.{VcamFb, FbHeap, put_cell, vcam_fb_alloc, kref_get, kref_put}

-- The references that a cell counts: none if it is free.
abbrev pub refs_of : Option VcamFb → ℕ
refs_of none = 0
refs_of (some fb) = fb.refcount

abbrev pub refs : FbHeap → ℕ → ℕ
refs h p = refs_of (h.cell p)

-- How many entries of the list are `p`.
abbrev pub count : ℕ → List ℕ → ℕ
count p [] = 0
count p (q ∷ l) = (if q == p then 1 else 0) + count p l

-- A framebuffer in use has a reference, and no address is in use before it is given out.
pub record IsHeap (h : FbHeap) : Type 0 where
  pub alive : (p : ℕ) (fb : VcamFb) → h.cell p ≡ some fb → 0 < fb.refcount
  pub unused : (p : ℕ) → h.next ≤ p → h.cell p ≡ none

-- The heap `h'` is a heap, and counts the references of `h` with those of `f` changed at `p`.
pub record Recounts (h h' : FbHeap) (p : ℕ) (f : ℕ → ℕ) : Type 0 where
  pub is_heap : IsHeap h'
  pub here : refs h' p ≡ f (refs h p)
  pub elsewhere : (q : ℕ) → p ≢ q → refs h' q ≡ refs h q

put_cell-same : (h : FbHeap) (p : ℕ) (fb : Option VcamFb) → (put_cell h p fb).cell p ≡ fb
put_cell-same h p fb = rw ((==_iff p p).1 refl)

put_cell-other :
    (h : FbHeap) (p q : ℕ) (fb : Option VcamFb) → p ≢ q → (put_cell h p fb).cell q ≡ h.cell q
put_cell-other h p q fb ne = rw (ne→== p q ne)

-- A cell that holds a framebuffer with references, or none, can be put below `next`.
put_cell-IsHeap :
    (h : FbHeap) (p : ℕ) (fb : Option VcamFb)
    → IsHeap h
    → p < h.next
    → ((b : VcamFb) → fb ≡ some b → 0 < b.refcount)
    → IsHeap (put_cell h p fb)
put_cell-IsHeap h p fb v used counted = record {
  alive = λ q b e. elim (ℕ_discrete p q) [
    | yes same ↦ counted b (sym (put_cell-same h p fb) ∙ ap (put_cell h p fb).cell same ∙ e)
    | no other ↦ v.alive q b (sym (put_cell-other h p q fb other) ∙ e)
  ];
  unused = λ q le. put_cell-other h p q fb (omega arith) ∙ v.unused q le;
}

in_use : (h : FbHeap) (p : ℕ) (fb : VcamFb) → IsHeap h → h.cell p ≡ some fb → p < h.next
in_use h p fb v e = elim (dec_lt p h.next) [
  | yes lt ↦ lt
  | no ge ↦ let free = v.unused p (omega arith) in cc
]

-- A change of the count of one framebuffer.
pub put_cell-Recounts :
    (h : FbHeap) (p : ℕ) (old : VcamFb) (new : Option VcamFb) (f : ℕ → ℕ)
    → IsHeap h
    → h.cell p ≡ some old
    → ((b : VcamFb) → new ≡ some b → 0 < b.refcount)
    → refs_of new ≡ f old.refcount
    → Recounts h (put_cell h p new) p f
put_cell-Recounts h p old new f v e counted changed = record {
  is_heap = put_cell-IsHeap h p new v (in_use h p old v e) counted;
  here = ap refs_of (put_cell-same h p new) ∙ changed ∙ ap (λ c. f (refs_of c)) (sym e);
  elsewhere = λ q ne. ap refs_of (put_cell-other h p q new ne);
}

abbrev one_more : VcamFb → VcamFb
one_more fb = record fb { refcount = fb.refcount + 1 }

abbrev one_less : VcamFb → Option VcamFb
one_less fb = if fb.refcount == 1 then none else some (record fb { refcount = fb.refcount - 1 })

pub kref_get-some :
    (h : FbHeap) (p : ℕ) (fb : VcamFb)
    → h.cell p ≡ some fb
    → kref_get h p ≡ some (put_cell h p (some (one_more fb)))
unfolding kref_get
kref_get-some h p fb e = rw (e, kref_get)

kref_get-none : (h : FbHeap) (p : ℕ) → h.cell p ≡ none → kref_get h p ≡ none
unfolding kref_get
kref_get-none h p e = rw (e, kref_get)

pub kref_put-some :
    (h : FbHeap) (p : ℕ) (fb : VcamFb)
    → h.cell p ≡ some fb
    → kref_put h p ≡ some (put_cell h p (one_less fb))
unfolding kref_put
kref_put-some h p fb e = rw (e, kref_put)

kref_put-none : (h : FbHeap) (p : ℕ) → h.cell p ≡ none → kref_put h p ≡ none
unfolding kref_put
kref_put-none h p e = rw (e, kref_put)

-- `kref_get` adds a reference.
pub kref_get-Recounts :
    (h : FbHeap) (p : ℕ) {h' : FbHeap}
    → IsHeap h
    → kref_get h p ≡ some h'
    → Recounts h h' p (λ n. n + 1)
kref_get-Recounts h p v got = elim (Option-cases (h.cell p)) [
  | inl free ↦ let absent = kref_get-none h p free in cc
  | inr (fb, e) ↦
      subst (λ k. Recounts h k p (λ n. n + 1)) (some_inj (sym (kref_get-some h p fb e) ∙ got))
        (put_cell-Recounts h p fb (some (one_more fb)) (λ n. n + 1) v e (λ b same. ground arith)
          refl)
]

-- `kref_put` takes a reference away.
pub kref_put-Recounts :
    (h : FbHeap) (p : ℕ) {h' : FbHeap}
    → IsHeap h
    → kref_put h p ≡ some h'
    → Recounts h h' p (λ n. n - 1)
kref_put-Recounts h p v got = elim (Option-cases (h.cell p)) [
  | inl free ↦ let absent = kref_put-none h p free in cc
  | inr (fb, e) ↦
      let counted = v.alive p fb e in
      subst (λ k. Recounts h k p (λ n. n - 1)) (some_inj (sym (kref_put-some h p fb e) ∙ got))
        (put_cell-Recounts h p fb (one_less fb) (λ n. n - 1) v e (λ b same. ground arith)
          (ground arith))
]

-- A framebuffer with a reference is there to be counted.
pub refs-pos : (h : FbHeap) (p : ℕ) → 0 < refs h p → (fb : VcamFb) × (h.cell p ≡ some fb)
refs-pos h p h_pos = elim (Option-cases (h.cell p)) [
  | inl free ↦ absurd (omega (arith, ap refs_of free))
  | inr found ↦ found
]

grown : FbHeap → FbHeap
grown h = record h { next = h.next + 1 }

grown-IsHeap : (h : FbHeap) → IsHeap h → IsHeap (grown h)
unfolding grown
grown-IsHeap h v = record { alive = v.alive; unused = λ q le. v.unused q (omega arith) }

new_cell-Recounts :
    (h : FbHeap) (fb : VcamFb)
    → IsHeap h
    → fb.refcount ≡ 1
    → Recounts h (put_cell (grown h) h.next (some fb)) h.next (λ n. n + 1) × (refs h h.next ≡ 0)
unfolding grown
new_cell-Recounts h fb v one =
    let free : refs h h.next ≡ 0 = ap refs_of (v.unused h.next (omega arith)) in
    (
      record {
        is_heap =
            put_cell-IsHeap (grown h) h.next (some fb) (grown-IsHeap h v) (omega arith)
              (λ b same. ground arith);
        here = ap refs_of (put_cell-same (grown h) h.next (some fb)) ∙ omega arith;
        elsewhere = λ q ne. ap refs_of (put_cell-other (grown h) h.next q (some fb) ne);
      },
      free,
    )

-- A new framebuffer has one reference, at an address that nothing counted before.
pub vcam_fb_alloc-Recounts :
    (h : FbHeap) (page bytes : ℕ) (struct_ok memory_ok : Bool) {p : ℕ} {h' : FbHeap}
    → IsHeap h
    → vcam_fb_alloc h page bytes struct_ok memory_ok ≡ some (p, h')
    → Recounts h h' p (λ n. n + 1) × (refs h p ≡ 0)
unfolding vcam_fb_alloc grown
vcam_fb_alloc-Recounts h page bytes struct_ok memory_ok v got =
    elim (Bool-cases (struct_ok && memory_ok)) [
      | inl given ↦
          let same = some_inj (rw given at got) in
          subst (λ (t : ℕ × FbHeap). Recounts h t.1 t.0 (λ n. n + 1) × (refs h t.0 ≡ 0)) same
            (new_cell-Recounts h _ v refl)
      | inr refused ↦ let absent = rw refused at got in cc
    ]
