-- ===== src/Mem/Start.antt =====
-- The first call of the allocator lays out the heap.
use ak_m_os_the_simple_rtos.Base.{
  ◌%◌, ◌≡◌, refl, true, false, [], ◌∷◌, arith, ◌==◌, Returns, returns,
}
use ak_m_os_the_simple_rtos.Mem.{
  null, mem_state_free, Mem, Layout, set_size, set_state, set_next, heap_bounds, os_mem_heap_init,
}
use ak_m_os_the_simple_rtos.Mem.Blocks.{Blk, IsLayout, IsHeap}

abbrev pub whole_blk : Blk
whole_blk = record { size = 3060; state = mem_state_free }

-- On an aligned heap, `os_mem_heap_init` leaves a row of one free block that takes up all of the
-- heap, whatever the headers held. The heap's placement is as `IsLayout` asks.
pub init-IsHeap :
    {lay : Layout} (m : Mem)
    → IsLayout lay
    → Returns (λ _ m'. IsHeap lay m' (whole_blk ∷ [])) (os_mem_heap_init lay m)
unfolding os_mem_heap_init heap_bounds set_size set_state set_next
init-IsHeap {lay} m ok_lay =
    let al : (lay.mem_heap % 4 == 0) ≡ true = ground (arith, ok_lay.aligned) in
    let eh : (lay.mem_heap == null) ≡ false = ground (arith, ok_lay.above) in
    let es : (lay.mem_blk_start == null) ≡ false = ground (arith, ok_lay.start_not_null) in
    rw (al, eh, eh, eh, es, es)
      (returns (record {
        seg = (
          ground (arith, ok_lay.start_apart),
          ground arith,
          ground (arith, ok_lay.start_apart),
          tt,
        );
        whole = refl;
        first = ground arith;
        end = refl;
        available = refl;
        aligned = (refl, tt);
      }))
