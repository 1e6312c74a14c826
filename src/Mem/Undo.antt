-- ===== src/Mem/Undo.antt =====
-- Freeing what was just given out undoes it, on a heap without free neighbours.
use mathlib.Core.Path.{subst}
use ak_m_os_the_simple_rtos.Base.{
  ℕ, ◌+◌, ◌-◌, ◌%◌, ◌≡◌, refl, sym, ap, ◌∙◌, ◌⊎◌, inl, inr, Bool, true, false, ◌&&◌, List, [], ◌∷◌,
  ◌++◌, arith, ◌==◌, ltb, Bool-cases, Returns, mono,
}
use ak_m_os_the_simple_rtos.Mem.{
  Ptr, null, MemState, mem_state_free, mem_state_busy, is_free, Mem, Layout, mem_align,
  os_mem_malloc, os_mem_free,
}
use ak_m_os_the_simple_rtos.Mem.Blocks.{Blk, total, Aligned, IsLayout, IsHeap}
use ak_m_os_the_simple_rtos.Mem.Spec.{fits, carve, alloc, coalesce, dealloc}
use ak_m_os_the_simple_rtos.Mem.Search.{NoneFits}
use ak_m_os_the_simple_rtos.Mem.Malloc.{
  LastGuarded, request, request-zero, request-pos, malloc-Allocated, mem_align-mod,
}
use ak_m_os_the_simple_rtos.Mem.Search.{Stop, stop}
use ak_m_os_the_simple_rtos.Mem.Malloc.{alloc-pre, alloc-none, NoneFits-append}
use ak_m_os_the_simple_rtos.Mem.Free.{
  last_free, becomes_last, EndStays, coalesce-first, free-dealloc,
}
use ak_m_os_the_simple_rtos.Mem.Walk.{freed}
use ak_m_os_the_simple_rtos.Mem.Replace.{Aligned-split}
use ak_m_os_the_simple_rtos.Mem.Safe.{carve-split, carve-take}

-- No two neighbours are both free.
abbrev pub Coalesced : List Blk → Type 0
Coalesced [] = Unit
Coalesced (b ∷ []) = Unit
Coalesced (b ∷ c ∷ bs) = ((is_free b.state && is_free c.state) ≡ false) × Coalesced (c ∷ bs)

left_false : (s t : Bool) → (s && t) ≡ false → t ≡ true → s ≡ false
left_false false t e f = refl
left_false true t e f = sym f ∙ e

Coalesced-front :
    (pre : List Blk) (b : Blk) (post : List Blk)
    → Coalesced (pre ++ b ∷ post)
    → is_free b.state ≡ true
    → last_free pre ≡ false
Coalesced-front [] b post c f = refl
Coalesced-front (x ∷ []) b post c f = left_false (is_free x.state) (is_free b.state) c.0 f
Coalesced-front (x ∷ y ∷ pre) b post c f = Coalesced-front (y ∷ pre) b post c.1 f

Coalesced-back :
    (pre : List Blk) (b : Blk) (post : List Blk)
    → Coalesced (pre ++ b ∷ post)
    → Coalesced (b ∷ post)
Coalesced-back [] b post c = c
Coalesced-back (x ∷ []) b post c = c.1
Coalesced-back (x ∷ y ∷ pre) b post c = Coalesced-back (y ∷ pre) b post c.1

-- Behind a busy block, a freed one is merged with the next at most.
dealloc-busy :
    (pre : List Blk) (b : Blk) (post : List Blk)
    → last_free pre ≡ false
    → dealloc pre b post ≡ pre ++ coalesce (freed b) post
unfolding dealloc
dealloc-busy [] b post e = refl
dealloc-busy (x ∷ []) b post e = coalesce-first x (coalesce (freed b) post) e
dealloc-busy (x ∷ y ∷ pre) b post e = ap (λ t. x ∷ t) (dealloc-busy (y ∷ pre) b post e)

coalesce-apart : (b : Blk) (post : List Blk) → Coalesced (b ∷ post) → coalesce b post ≡ b ∷ post
coalesce-apart b [] c = refl
coalesce-apart b (d ∷ ds) c = rw c.0 refl

abbrev blk : ℕ → MemState → Blk
blk n t = record { size = n; state = t }

blk_of : (n s : ℕ) (t : MemState) → s ≡ n → is_free t ≡ true → blk n mem_state_free ≡ blk s t
blk_of n s mem_state_free e f = ap (λ u. blk u mem_state_free) (sym e)
blk_of n s mem_state_busy e f = cc

blk-eq : (b : Blk) (n : ℕ) → b.size ≡ n → is_free b.state ≡ true → blk n mem_state_free ≡ b
blk-eq b n e f = blk_of n b.size b.state e f

-- What was carved off is merged again.
uncarve :
    (n : ℕ) (b : Blk) (post : List Blk)
    → fits n b ≡ true
    → n % 4 ≡ 0
    → b.size % 4 ≡ 0
    → Coalesced (b ∷ post)
    → (c : Blk) × (rest : List Blk) × (carve n b ++ post ≡ c ∷ rest)
      × (is_free c.state ≡ false)
      × (coalesce (freed c) rest ≡ b ∷ post)
uncarve n b post fit al al' co = elim (Bool-cases (ltb 8 (b.size - n))) [
  | inl e ↦ (
    record { size = n; state = mem_state_busy },
    record { size = b.size - n - 12; state = mem_state_free } ∷ post,
    ap (λ t. t ++ post) (carve-split n b e),
    refl,
    ap (λ t. t ∷ post)
        (blk-eq b (n + (b.size - n - 12 + 12)) (ground (arith, e, al, al')) (ground (arith, fit))),
  )
  | inr e ↦ (
    record { size = b.size; state = mem_state_busy },
    post,
    ap (λ t. t ++ post) (carve-take n b e),
    refl,
    ap (λ t. coalesce t post) (blk-eq b b.size refl (ground (arith, fit)))
        ∙ coalesce-apart b post co,
  )
]

-- The block that was given out lies behind a busy one, and freeing it gives the row back.
record Undone (a : Ptr) (bs : List Blk) (t : Ptr × List Blk) : Type 0 where
  pre : List Blk
  b : Blk
  post : List Blk
  row : t.1 ≡ pre ++ b ∷ post
  at : t.0 ≡ a + total pre + 12
  busy : is_free b.state ≡ false
  front : last_free pre ≡ false
  back : dealloc pre b post ≡ bs

fit-Undone :
    (n : ℕ) (a : Ptr) (pre : List Blk) (b : Blk) (post : List Blk)
    → NoneFits n pre
    → fits n b ≡ true
    → n % 4 ≡ 0
    → Aligned (pre ++ b ∷ post)
    → Coalesced (pre ++ b ∷ post)
    → Undone a (pre ++ b ∷ post) (alloc n a (pre ++ b ∷ post))
fit-Undone n a pre b post none fit al als co =
    let (c, rest, row, busy, back) =
      uncarve n b post fit al (Aligned-split pre (b ∷ post) als).1.0
        (Coalesced-back pre b post co) in
    let e : alloc n a (pre ++ b ∷ post) ≡ (a + total pre + 12, pre ++ (carve n b ++ post)) =
      alloc-pre n a (a + total pre) pre b post refl none fit in
    let front : last_free pre ≡ false = Coalesced-front pre b post co (ground (arith, fit)) in
    subst (Undone a (pre ++ b ∷ post)) (sym e) (record {
      pre = pre;
      b = c;
      post = rest;
      row = ap (λ t. pre ++ t) row;
      at = refl;
      busy = busy;
      front = front;
      back = dealloc-busy pre c rest front ∙ ap (λ t. pre ++ t) back;
    })

abbrev Undoable : Ptr → List Blk → Ptr × List Blk → Type 0
Undoable a bs t = ((t.0 ≡ null) × (t.1 ≡ bs)) ⊎ Undone a bs t

stop-Undoable :
    (n : ℕ) (a : Ptr) (pre : List Blk) (b : Blk) (post : List Blk)
    → NoneFits n pre
    → (fits n b ≡ true) ⊎ (post ≡ [])
    → n % 4 ≡ 0
    → Aligned (pre ++ b ∷ post)
    → Coalesced (pre ++ b ∷ post)
    → Undoable a (pre ++ b ∷ post) (alloc n a (pre ++ b ∷ post))
stop-Undoable n a pre b post none (inl fit) al als co =
    inr (fit-Undone n a pre b post none fit al als co)
stop-Undoable n a pre b (d ∷ post) none (inr e) al als co = cc
stop-Undoable n a pre b [] none (inr alone) al als co = elim (Bool-cases (fits n b)) [
  | inl fit ↦ inr (fit-Undone n a pre b [] none fit al als co)
  | inr e ↦
      subst (Undoable a (pre ++ b ∷ []))
        (sym (alloc-none n a (pre ++ b ∷ []) (NoneFits-append n pre b none e))) (inl (refl, refl))
]

alloc-Undoable :
    (n : ℕ) (a : Ptr) (b : Blk) (bs : List Blk)
    → n % 4 ≡ 0
    → Aligned (b ∷ bs)
    → Coalesced (b ∷ bs)
    → Undoable a (b ∷ bs) (alloc n a (b ∷ bs))
alloc-Undoable n a b bs al als co =
    let s : Stop n (b ∷ bs) = stop n b bs in
    subst (λ t. Undoable a t (alloc n a t)) (sym s.split)
      (stop-Undoable n a s.pre s.b s.post s.passed s.reason al (subst Aligned s.split als)
        (subst Coalesced s.split co))

request-Undoable :
    (n : ℕ) (a : Ptr) (b : Blk) (bs : List Blk)
    → n % 4 ≡ 0
    → Aligned (b ∷ bs)
    → Coalesced (b ∷ bs)
    → Undoable a (b ∷ bs) (request n a (b ∷ bs))
request-Undoable n a b bs al als co = elim (Bool-cases (n == 0)) [
  | inl e ↦ subst (Undoable a (b ∷ bs)) (sym (request-zero n a (b ∷ bs) e)) (inl (refl, refl))
  | inr e ↦
      subst (Undoable a (b ∷ bs)) (sym (request-pos n a (b ∷ bs) e))
        (alloc-Undoable n a b bs al als co)
]

-- If `os_mem_malloc` gives an address, then `os_mem_free` of that address returns and brings back
-- the row of blocks that was there before both calls; if it gives NULL, that row is unchanged. This
-- holds if no two neighbouring blocks are free, and the last block is free or smaller than the
-- aligned size. The heap's placement is as `IsLayout` asks.
pub malloc-free :
    {lay : Layout} {m : Mem} (wanted : ℕ) (bs : List Blk)
    → IsLayout lay
    → IsHeap lay m bs
    → Coalesced bs
    → LastGuarded (mem_align wanted) bs
    → Returns
        (λ p m'.
          ((p ≡ null) × IsHeap lay m' bs)
          ⊎ Returns (λ _ m''. IsHeap lay m'' bs) (os_mem_free lay p m'))
        (os_mem_malloc lay wanted m)
malloc-free {lay} wanted [] ok_lay is co guarded = absurd (omega (arith, is.whole))
malloc-free {lay} wanted (b ∷ bs) ok_lay is co guarded =
    mono (malloc-Allocated wanted (b ∷ bs) ok_lay is guarded) (λ p m' h.
      elim (request-Undoable (mem_align wanted) lay.mem_heap b bs (mem_align-mod wanted) is.aligned
        co) [
          | inl e ↦ inl (h.0 ∙ e.0, subst (IsHeap lay m') e.1 h.1)
          | inr u ↦
              let stays : EndStays u.pre u.post = ap (λ t. t && becomes_last u.post) u.front in
              inr (
                subst (λ t. Returns (λ _ m''. IsHeap lay m'' (b ∷ bs)) (os_mem_free lay t m'))
                  (sym (h.0 ∙ u.at))
                  (subst
                    (λ t.
                      Returns (λ _ m''. IsHeap lay m'' t)
                        (os_mem_free lay (lay.mem_heap + total u.pre + 12) m'))
                    u.back
                    (free-dealloc ok_lay u.pre u.b u.post u.busy stays
                      (subst (IsHeap lay m') u.row h.1))))
        ])
