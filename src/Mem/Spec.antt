-- ===== src/Mem/Spec.antt =====
-- First-fit allocation on a row of blocks, with no pointers and no headers in sight.
use ak_m_os_the_simple_rtos.Base.{
  ℕ, ◌+◌, ◌-◌, Bool, ◌&&◌, List, [], ◌∷◌, ◌++◌, leb, ltb, if◌then◌else◌,
}
use ak_m_os_the_simple_rtos.Mem.{Ptr, null, mem_state_free, mem_state_busy, is_free}
use ak_m_os_the_simple_rtos.Mem.Blocks.{Blk}

-- The block is free and large enough.
abbrev pub fits : ℕ → Blk → Bool
fits n b = is_free b.state && leb n b.size

-- What becomes of a block that is given out: if more than 8 bytes are left over, they become a free
-- block behind a header of their own.
abbrev pub carve : ℕ → Blk → List Blk
carve n b =
    if ltb 8 (b.size - n)
    then record { size = n; state = mem_state_busy }
      ∷ record { size = b.size - n - 12; state = mem_state_free }
      ∷ []
    else record { size = b.size; state = mem_state_busy } ∷ []

-- The first block that fits, of those from the address `a` on, is given out.
unfoldable pub alloc : ℕ → Ptr → List Blk → Ptr × List Blk
alloc n a [] = (null, [])
alloc n a (b ∷ bs) =
    let (p, cs) = alloc n (a + (12 + b.size)) bs in
    if fits n b then (a + 12, carve n b ++ bs) else (p, b ∷ cs)

-- Two neighbours as one free block: the header between them is gained.
abbrev pub glue : Blk → Blk → Blk
glue b c = record { size = b.size + (c.size + 12); state = mem_state_free }

-- A block and the one behind it become one if both are free.
abbrev pub coalesce : Blk → List Blk → List Blk
coalesce b [] = b ∷ []
coalesce b (c ∷ cs) = if is_free b.state && is_free c.state then glue b c ∷ cs else b ∷ c ∷ cs

-- The block `b` between `pre` and `post` is freed, and merged with its free neighbours.
unfoldable pub dealloc : List Blk → Blk → List Blk → List Blk
dealloc [] b post = coalesce (record { size = b.size; state = mem_state_free }) post
dealloc (y ∷ []) b post =
    coalesce y (coalesce (record { size = b.size; state = mem_state_free }) post)
dealloc (x ∷ y ∷ pre) b post = x ∷ dealloc (y ∷ pre) b post
