-- ===== src/Mem/Malloc.antt =====
-- `os_mem_malloc` allocates as first fit on the row of blocks does, as long as the last block is
-- free or too small.
use mathlib.Core.Path.{subst}
use native.Mathlib.Nat.{add-zero}
use ak_m_os_the_simple_rtos.Base.{
  ℕ, ◌+◌, ◌*◌, ◌%◌, ◌<◌, ◌≤◌, ◌≡◌, refl, sym, ◌⊎◌, inl, inr, true, false, List, [], ◌∷◌, ◌++◌,
  arith, ◌==◌, ==-refl, length, ltb, Bool-cases, if◌then◌else◌, ok, Returns, returns, ◌>>=◌,
}
use ak_m_os_the_simple_rtos.Mem.{
  Ptr, null, Mem, Layout, rounds, mem_align, get_size, get_next, first_fit, use_block, ensure_init,
  allocate, os_mem_malloc,
}
use ak_m_os_the_simple_rtos.Mem.Blocks.{
  Blk, total, free_bytes, Seg, IsLayout, IsHeap, Seg-split, total-append,
}
use ak_m_os_the_simple_rtos.Mem.Spec.{fits, carve, alloc}
use ak_m_os_the_simple_rtos.Mem.Search.{NoneFits, Stop, stop, first_fit-pre, last_at-le}
use ak_m_os_the_simple_rtos.Mem.Replace.{last_at-append}
use ak_m_os_the_simple_rtos.Mem.Give.{use_block-carve}

-- The last block is free or smaller than the request.
abbrev pub LastGuarded : ℕ → List Blk → Type 0
LastGuarded n [] = Unit
LastGuarded n (b ∷ []) = (fits n b ≡ true) ⊎ (b.size < n)
LastGuarded n (b ∷ c ∷ bs) = LastGuarded n (c ∷ bs)

-- A request for nothing, or one that wraps to nothing, is refused.
abbrev pub request : ℕ → Ptr → List Blk → Ptr × List Blk
request n a bs = if n == 0 then (null, bs) else alloc n a bs

pub alloc-pre :
    (n : ℕ) (a c : Ptr) (pre : List Blk) (b : Blk) (post : List Blk)
    → c ≡ a + total pre
    → NoneFits n pre
    → fits n b ≡ true
    → alloc n a (pre ++ b ∷ post) ≡ (c + 12, pre ++ (carve n b ++ post))
unfolding alloc
alloc-pre n a c [] b post e none fit = rw (fit, e, add-zero)
alloc-pre n a c (x ∷ pre) b post e none fit =
    rw (none.0, alloc-pre n (a + (12 + x.size)) c pre b post (omega arith) none.1 fit)

pub alloc-none : (n : ℕ) (a : Ptr) (bs : List Blk) → NoneFits n bs → alloc n a bs ≡ (null, bs)
unfolding alloc
alloc-none n a [] none = refl
alloc-none n a (x ∷ bs) none = rw (none.0, alloc-none n (a + (12 + x.size)) bs none.1)

NoneFits-above : (n : ℕ) (bs : List Blk) → free_bytes bs < n → NoneFits n bs
NoneFits-above n [] h = tt
NoneFits-above n (b ∷ bs) h = (ground arith, NoneFits-above n bs (ground arith))

pub NoneFits-append :
    (n : ℕ) (pre : List Blk) (b : Blk)
    → NoneFits n pre
    → fits n b ≡ false
    → NoneFits n (pre ++ b ∷ [])
NoneFits-append n [] b none e = (e, tt)
NoneFits-append n (x ∷ pre) b none e = (none.0, NoneFits-append n pre b none.1 e)

LastGuarded-last :
    (n : ℕ) (pre : List Blk) (b : Blk)
    → LastGuarded n (pre ++ b ∷ [])
    → (fits n b ≡ true) ⊎ (b.size < n)
LastGuarded-last n [] b g = g
LastGuarded-last n (x ∷ []) b g = g
LastGuarded-last n (x ∷ y ∷ pre) b g = LastGuarded-last n (y ∷ pre) b g

pub length-le-total : (bs : List Blk) → 12 * length bs ≤ total bs
length-le-total [] = omega arith
length-le-total (b ∷ bs) = omega (arith, length-le-total bs)

-- What a call may do: its answer is that of `request`, and the heap is the row that `request` leaves.
abbrev pub Allocated : Layout → ℕ → List Blk → Ptr → Mem → Type 0
Allocated lay n bs p m' =
    (p ≡ (request n lay.mem_heap bs).0) × IsHeap lay m' (request n lay.mem_heap bs).1

module _ {lay : Layout} (ok_lay : IsLayout lay) {m : Mem} (n : ℕ) where
  search :
      (pre : List Blk) (b : Blk) (post : List Blk)
      → IsHeap lay m (pre ++ b ∷ post)
      → NoneFits n pre
      → (fits n b ≡ true) ⊎ (post ≡ [])
      → first_fit rounds n lay.mem_heap m ≡ ok (lay.mem_heap + total pre) m
  search pre b post is none reason =
      first_fit-pre rounds n lay.mem_heap m pre b post is.seg is.end ok_lay.above
        (omega (arith, length-le-total pre, total-append pre (b ∷ post), is.whole)) none reason

  -- The search finds a block that fits, and it is given out.
  use_found :
      (pre : List Blk) (b : Blk) (post : List Blk)
      → 0 < n
      → n % 4 ≡ 0
      → IsHeap lay m (pre ++ b ∷ post)
      → NoneFits n pre
      → fits n b ≡ true
      → Returns
          (λ p m'.
            (p ≡ (alloc n lay.mem_heap (pre ++ b ∷ post)).0)
            × IsHeap lay m' (alloc n lay.mem_heap (pre ++ b ∷ post)).1)
          ((first_fit rounds n lay.mem_heap >>= use_block n) m)
  use_found pre b post pos al is none fit =
      rw
        (
          search pre b post is none (inl fit),
          alloc-pre n lay.mem_heap (lay.mem_heap + total pre) pre b post refl none fit,
        )
        (use_block-carve ok_lay n pre b post is (lay.mem_heap + total pre) refl fit pos al)

  -- The search ends at the last block, and it is too small.
  use_last :
      (pre : List Blk) (b : Blk)
      → IsHeap lay m (pre ++ b ∷ [])
      → NoneFits n pre
      → b.size < n
      → (first_fit rounds n lay.mem_heap >>= use_block n) m ≡ ok null m
  unfolding use_block get_size
  use_last pre b is none small =
      let here : Ptr = lay.mem_heap + total pre in
      let eh : (here == null) ≡ false = ground (arith, ok_lay.above) in
      let at_here : Seg m here (b ∷ []) null =
        (Seg-split m lay.mem_heap here pre (b ∷ []) null refl is.seg).1 in
      let at_end : (here == m.end_ptr) ≡ true =
        rw (is.end, last_at-append lay.mem_heap here pre b [] refl) (==-refl here) in
      let less : ltb b.size n ≡ true = ground arith in
      rw (search pre b [] is none (inr refl), eh, eh, at_here.0, less, at_end)

  use_stopped :
      (pre : List Blk) (b : Blk) (post : List Blk)
      → 0 < n
      → n % 4 ≡ 0
      → IsHeap lay m (pre ++ b ∷ post)
      → NoneFits n pre
      → (fits n b ≡ true) ⊎ (post ≡ [])
      → LastGuarded n (pre ++ b ∷ post)
      → Returns
          (λ p m'.
            (p ≡ (alloc n lay.mem_heap (pre ++ b ∷ post)).0)
            × IsHeap lay m' (alloc n lay.mem_heap (pre ++ b ∷ post)).1)
          ((first_fit rounds n lay.mem_heap >>= use_block n) m)
  use_stopped pre b post pos al is none (inl fit) guarded = use_found pre b post pos al is none fit
  use_stopped pre b (c ∷ post) pos al is none (inr absent) guarded = cc
  use_stopped pre b [] pos al is none (inr alone) guarded =
      elim (LastGuarded-last n pre b guarded) [
        | inl fit ↦ use_found pre b [] pos al is none fit
        | inr small ↦
            rw
              (
                use_last pre b is none small,
                alloc-none n lay.mem_heap (pre ++ b ∷ [])
                    (NoneFits-append n pre b none (ground arith)),
              )
              (returns (refl, is))
      ]

  search_and_use :
      (b : Blk) (bs : List Blk)
      → 0 < n
      → n % 4 ≡ 0
      → IsHeap lay m (b ∷ bs)
      → LastGuarded n (b ∷ bs)
      → Returns
          (λ p m'.
            (p ≡ (alloc n lay.mem_heap (b ∷ bs)).0)
            × IsHeap lay m' (alloc n lay.mem_heap (b ∷ bs)).1)
          ((first_fit rounds n lay.mem_heap >>= use_block n) m)
  search_and_use b bs pos al is guarded =
      let s : Stop n (b ∷ bs) = stop n b bs in
      subst
        (λ t.
          Returns
            (λ p m'. (p ≡ (alloc n lay.mem_heap t).0) × IsHeap lay m' (alloc n lay.mem_heap t).1)
            ((first_fit rounds n lay.mem_heap >>= use_block n) m))
        (sym s.split)
        (use_stopped s.pre s.b s.post pos al (subst (IsHeap lay m) s.split is) s.passed s.reason
          (subst (LastGuarded n) s.split guarded))

pub initialised :
    {lay : Layout}
    → IsLayout lay
    → {m : Mem} (bs : List Blk) → IsHeap lay m bs
    → ensure_init lay m ≡ ok tt m
unfolding ensure_init
initialised ok_lay [] is = absurd (omega (arith, is.whole))
initialised {lay} ok_lay {m} (b ∷ bs) is =
    let set : (m.end_ptr == null) ≡ false =
      ground (arith, is.end, last_at-le lay.mem_heap b bs, ok_lay.above) in
    rw set

pub mem_align-mod : (wanted : ℕ) → mem_align wanted % 4 ≡ 0
mem_align-mod wanted = omega arith

pub request-zero : (n : ℕ) (a : Ptr) (bs : List Blk) → (n == 0) ≡ true → request n a bs ≡ (null, bs)
request-zero n a bs e = rw e refl

pub request-pos :
    (n : ℕ) (a : Ptr) (bs : List Blk) → (n == 0) ≡ false → request n a bs ≡ alloc n a bs
request-pos n a bs e = rw e refl

abbrev Answers : Layout → Ptr × List Blk → Ptr → Mem → Type 0
Answers lay t p m' = (p ≡ t.0) × IsHeap lay m' t.1

allocate-Allocated :
    {lay : Layout} {m : Mem} (n : ℕ) (b : Blk) (bs : List Blk)
    → IsLayout lay
    → IsHeap lay m (b ∷ bs)
    → LastGuarded n (b ∷ bs)
    → n % 4 ≡ 0
    → Returns (Allocated lay n (b ∷ bs)) (allocate lay n m)
unfolding allocate get_next
allocate-Allocated {lay} {m} n b bs ok_lay is guarded al = elim (Bool-cases (n == 0)) [
  | inl e ↦
      let refused : allocate lay n m ≡ ok null m = rw e refl in
      subst (λ t. Returns (Answers lay t) (allocate lay n m))
        (sym (request-zero n lay.mem_heap (b ∷ bs) e)) (rw refused (returns (refl, is)))
  | inr e ↦
      subst (λ t. Returns (Answers lay t) (allocate lay n m))
        (sym (request-pos n lay.mem_heap (b ∷ bs) e))
        (elim (Bool-cases (ltb m.byte_available n)) [
          | inl more ↦
              let none : NoneFits n (b ∷ bs) =
                NoneFits-above n (b ∷ bs) (ground (arith, is.available)) in
              let refused : allocate lay n m ≡ ok null m = rw (e, more) refl in
              rw (refused, alloc-none n lay.mem_heap (b ∷ bs) none) (returns (refl, is))
          | inr room ↦
              let es : (lay.mem_blk_start == null) ≡ false =
                ground (arith, ok_lay.start_not_null) in
              let run : allocate lay n m ≡ (first_fit rounds n lay.mem_heap >>= use_block n) m =
                rw (e, room, es, is.first) refl in
              rw run (search_and_use ok_lay n b bs (ground arith) al is guarded)
        ])
]

-- `os_mem_malloc` returns what first fit does on the row of blocks, and leaves the heap that it leaves,
-- if the last block is free or smaller than the request.
pub malloc-Allocated :
    {lay : Layout} {m : Mem} (wanted : ℕ) (bs : List Blk)
    → IsLayout lay
    → IsHeap lay m bs
    → LastGuarded (mem_align wanted) bs
    → Returns (Allocated lay (mem_align wanted) bs) (os_mem_malloc lay wanted m)
unfolding os_mem_malloc
malloc-Allocated {lay} {m} wanted [] ok_lay is guarded = absurd (omega (arith, is.whole))
malloc-Allocated {lay} {m} wanted (b ∷ bs) ok_lay is guarded =
    rw (initialised ok_lay (b ∷ bs) is)
      (allocate-Allocated (mem_align wanted) b bs ok_lay is guarded (mem_align-mod wanted))
