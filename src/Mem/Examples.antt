-- ===== src/Mem/Examples.antt =====
-- The allocator on concrete heaps.
use ak_m_os_the_simple_rtos.Base.{
  ℕ, ◌+◌, ◌≡◌, refl, ◌⊎◌, inl, inr, List, [], ◌∷◌, ◌++◌, arith, ◌==◌, if◌then◌else◌, Returns,
}
use ak_m_os_the_simple_rtos.Mem.{
  Ptr, null, MemState, mem_state_free, mem_state_busy, Mem, Layout, os_mem_heap_init, os_mem_malloc,
  os_mem_free,
}
use ak_m_os_the_simple_rtos.Mem.Blocks.{Blk, total, free_bytes, link, last_at, IsLayout, IsHeap}
use ak_m_os_the_simple_rtos.Mem.Spec.{dealloc}
use ak_m_os_the_simple_rtos.Mem.Free.{free-dealloc}
use ak_m_os_the_simple_rtos.Mem.Safe.{Served, malloc-Served}
use ak_m_os_the_simple_rtos.Mem.Start.{whole_blk, init-IsHeap}
use ak_m_os_the_simple_rtos.Mem.Again.{malloc-twice}
use ak_m_os_the_simple_rtos.Mem.Undo.{malloc-free}

abbrev board : Layout
board = record { mem_heap = 536870912; mem_blk_start = 536875008 }

board-IsLayout : IsLayout board
board-IsLayout = record {
  aligned = refl;
  above = omega arith;
  below = omega arith;
  start_not_null = omega arith;
  start_apart = inr (omega arith);
}

abbrev busy : ℕ → Blk
busy n = record { size = n; state = mem_state_busy }

abbrev free : ℕ → Blk
free n = record { size = n; state = mem_state_free }

abbrev size_at : Ptr → List Blk → Ptr → ℕ
size_at a [] x = 0
size_at a (b ∷ bs) x = if x == a then b.size else size_at (a + (12 + b.size)) bs x

abbrev state_at : Ptr → List Blk → Ptr → MemState
state_at a [] x = mem_state_free
state_at a (b ∷ bs) x = if x == a then b.state else state_at (a + (12 + b.size)) bs x

abbrev next_at : Ptr → List Blk → Ptr → Ptr
next_at a [] x = 536870912
next_at a (b ∷ bs) x =
    if x == a then link (a + (12 + b.size)) bs null else next_at (a + (12 + b.size)) bs x

abbrev heap_of : List Blk → Mem
heap_of bs = record {
  size = size_at 536870912 bs;
  state = state_at 536870912 bs;
  next = next_at 536870912 bs;
  end_ptr = last_at 536870912 bs;
  byte_available = free_bytes bs;
}

abbrev used_row : List Blk
used_row = busy 100 ∷ busy 100 ∷ free 2836 ∷ []

used-IsHeap : IsHeap board (heap_of used_row) used_row
used-IsHeap = record {
  seg = (refl, refl, refl, (refl, refl, refl, (refl, refl, refl, tt)));
  whole = refl;
  first = refl;
  end = refl;
  available = refl;
  aligned = (refl, (refl, (refl, tt)));
}

abbrev full_row : List Blk
full_row = (free 40 ∷ busy 100 ∷ free 40 ∷ []) ++ busy 2844 ∷ []

full-IsHeap : IsHeap board (heap_of full_row) full_row
full-IsHeap = record {
  seg = (refl, refl, refl, (refl, refl, refl, (refl, refl, refl, (refl, refl, refl, tt))));
  whole = refl;
  first = refl;
  end = refl;
  available = refl;
  aligned = (refl, (refl, (refl, (refl, tt))));
}

init-IsHeap_example :
    Returns (λ _ m'. IsHeap board m' (whole_blk ∷ [])) (os_mem_heap_init board (heap_of []))
init-IsHeap_example = init-IsHeap (heap_of []) board-IsLayout

malloc-Served_example :
    Returns
      (λ p m'. (cs : List Blk) × IsHeap board m' cs × Served board 30 used_row p cs)
      (os_mem_malloc board 30 (heap_of used_row))
malloc-Served_example =
    malloc-Served 30 used_row board-IsLayout used-IsHeap (inl refl) (omega arith)

free-dealloc_example :
    Returns
      (λ _ m'. IsHeap board m' (dealloc (busy 100 ∷ []) (busy 100) (free 2836 ∷ [])))
      (os_mem_free board (536870912 + total (busy 100 ∷ []) + 12) (heap_of used_row))
free-dealloc_example =
    free-dealloc board-IsLayout (busy 100 ∷ []) (busy 100) (free 2836 ∷ []) refl refl used-IsHeap

malloc-free_example :
    Returns
      (λ p m'.
        ((p ≡ null) × IsHeap board m' used_row)
        ⊎ Returns (λ _ m''. IsHeap board m'' used_row) (os_mem_free board p m'))
      (os_mem_malloc board 30 (heap_of used_row))
malloc-free_example =
    malloc-free 30 used_row board-IsLayout used-IsHeap (refl, (refl, tt)) (inl refl)

malloc-twice_example :
    Returns
      (λ p m'. p ≡ 536870912 + total (free 40 ∷ busy 100 ∷ free 40 ∷ []) + 12)
      (os_mem_malloc board 41 (heap_of full_row))
malloc-twice_example =
    malloc-twice 41 (free 40 ∷ busy 100 ∷ free 40 ∷ []) (busy 2844) board-IsLayout full-IsHeap
      (refl, (refl, (refl, tt))) refl (omega arith) (omega arith) (omega arith)
