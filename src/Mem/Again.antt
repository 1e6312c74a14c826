-- ===== src/Mem/Again.antt =====
-- Where the guard of `os_mem_malloc` is missing, and a block that is given out and taken back.
use ak_m_os_the_simple_rtos.Base.{
  ℕ, ◌+◌, ◌<◌, ◌≤◌, ◌≡◌, refl, inl, inr, false, List, [], ◌∷◌, ◌++◌, arith, ◌==◌, ltb, Bool-cases,
  ok, sub32, Returns, returns,
}
use ak_m_os_the_simple_rtos.Mem.{
  Ptr, null, is_free, Mem, Layout, rounds, mem_align, get_size, get_next, allocate, os_mem_malloc,
}
use ak_m_os_the_simple_rtos.Mem.Blocks.{Blk, total, IsLayout, IsHeap}
use ak_m_os_the_simple_rtos.Mem.Search.{NoneFits}
use ak_m_os_the_simple_rtos.Mem.Malloc.{initialised}
use ak_m_os_the_simple_rtos.Mem.{use_block, first_fit}
use ak_m_os_the_simple_rtos.Mem.Blocks.{Seg-split, total-append}
use ak_m_os_the_simple_rtos.Mem.Search.{first_fit-pre}
use ak_m_os_the_simple_rtos.Mem.Malloc.{length-le-total}
use ak_m_os_the_simple_rtos.Mem.Give.{split_block-run, take_block-run, and_false}

-- A block that is large enough is given out, whatever its state.
use_block-gives :
    (m : Mem) (n : ℕ) (here : Ptr)
    → 0 < here
    → ltb (m.size here) n ≡ false
    → Returns (λ p m'. p ≡ here + 12) (use_block n here m)
unfolding use_block get_size
use_block-gives m n here pos big =
    let eh : (here == null) ≡ false = ground arith in
    elim (Bool-cases (ltb 8 (sub32 (m.size here) n))) [
      | inl e ↦ rw (eh, eh, big, and_false, e, split_block-run m here n pos) (returns refl)
      | inr e ↦ rw (eh, eh, big, and_false, e, take_block-run m here pos) (returns refl)
    ]

-- If the last block is busy and large enough, no block before it fits, and that many bytes are free
-- in all, `os_mem_malloc` of a size that does not align to 0 gives the address of the payload of
-- that busy block. The heap's headers are a row of blocks that fills it. The heap's placement is as
-- `IsLayout` asks.
pub malloc-twice :
    {lay : Layout} {m : Mem} (wanted : ℕ) (pre : List Blk) (b : Blk)
    → IsLayout lay
    → IsHeap lay m (pre ++ b ∷ [])
    → NoneFits (mem_align wanted) pre
    → is_free b.state ≡ false
    → 0 < mem_align wanted
    → mem_align wanted ≤ b.size
    → mem_align wanted ≤ m.byte_available
    → Returns (λ p m'. p ≡ lay.mem_heap + total pre + 12) (os_mem_malloc lay wanted m)
unfolding os_mem_malloc allocate get_next
malloc-twice {lay} {m} wanted pre b ok_lay is none busy pos le avail =
    let n : ℕ = mem_align wanted in
    let here : Ptr = lay.mem_heap + total pre in
    let found : first_fit rounds n lay.mem_heap m ≡ ok here m =
      first_fit-pre rounds n lay.mem_heap m pre b [] is.seg is.end ok_lay.above
        (omega (arith, length-le-total pre, total-append pre (b ∷ []), is.whole)) none (inr refl) in
    let e : (n == 0) ≡ false = ground arith in
    let room : ltb m.byte_available n ≡ false = ground arith in
    let es : (lay.mem_blk_start == null) ≡ false = ground (arith, ok_lay.start_not_null) in
    let size : m.size here ≡ b.size =
      (Seg-split m lay.mem_heap here pre (b ∷ []) null refl is.seg).1.0 in
    let big : ltb (m.size here) n ≡ false = ground (arith, size) in
    rw (initialised ok_lay (pre ++ b ∷ []) is, e, room, es, is.first, found)
      (use_block-gives m n here (omega (arith, ok_lay.above)) big)
