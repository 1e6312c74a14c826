-- ===== src/Mem/Blocks.antt =====
-- What the headers stand for: a row of blocks that lie one behind the other.
use mathlib.Core.Path.{subst}
use ak_m_os_the_simple_rtos.Base.{
  ℕ, ◌+◌, ◌%◌, ◌^◌, ◌<◌, ◌≤◌, ◌≡◌, ap, ◌∙◌, ◌⊎◌, List, [], ◌∷◌, ◌++◌, arith, if◌then◌else◌,
}
use ak_m_os_the_simple_rtos.Mem.{Ptr, null, MemState, is_free, Mem, Layout, os_cfg_heap_size}

pub record Blk : Type 0 where
  pub size : ℕ
  pub state : MemState

-- The bytes that the blocks take, headers included.
abbrev pub total : List Blk → ℕ
total [] = 0
total (b ∷ bs) = 12 + b.size + total bs

abbrev pub free_bytes : List Blk → ℕ
free_bytes [] = 0
free_bytes (b ∷ bs) = (if is_free b.state then b.size else 0) + free_bytes bs

-- The address of the next block, or `z` if there is none.
abbrev pub link : Ptr → List Blk → Ptr → Ptr
link a [] z = z
link a (b ∷ bs) z = a

-- From the address `a` the headers describe `bs`, and the last one's `next_ptr` is `z`.
abbrev pub Seg : Mem → Ptr → List Blk → Ptr → Type 0
Seg m a [] z = Unit
Seg m a (b ∷ bs) z =
    (m.size a ≡ b.size)
    × (m.state a ≡ b.state)
    × (m.next a ≡ link (a + (12 + b.size)) bs z)
    × Seg m (a + (12 + b.size)) bs z

-- The headers at the addresses from `lo` up to `hi` are the same.
abbrev pub SameIn : ℕ → ℕ → Mem → Mem → Type 0
SameIn lo hi m m' =
    (x : ℕ)
    → lo ≤ x
    → x < hi
    → (m'.size x ≡ m.size x) × (m'.state x ≡ m.state x) × (m'.next x ≡ m.next x)

module _ (m m' : Mem) where
  pub frame :
      (a : Ptr) (bs : List Blk) (z : Ptr)
      → SameIn a (a + total bs) m m'
      → Seg m a bs z
      → Seg m' a bs z
  frame a [] z same s = tt
  frame a (b ∷ bs) z same s = (
    (same a (omega arith) (omega arith)).0 ∙ s.0,
    (same a (omega arith) (omega arith)).1 ∙ s.1,
    (same a (omega arith) (omega arith)).2 ∙ s.2,
    frame (a + (12 + b.size)) bs z (λ x lo hi. same x (omega arith) (omega arith)) s.3,
  )

pub total-append : (xs ys : List Blk) → total (xs ++ ys) ≡ total xs + total ys
total-append [] ys = omega arith
total-append (x ∷ xs) ys = omega (arith, total-append xs ys)

pub free_bytes-append : (xs ys : List Blk) → free_bytes (xs ++ ys) ≡ free_bytes xs + free_bytes ys
free_bytes-append [] ys = omega arith
free_bytes-append (x ∷ xs) ys = omega (arith, free_bytes-append xs ys)

pub free_bytes-le : (bs : List Blk) → free_bytes bs ≤ total bs
free_bytes-le [] = omega arith
free_bytes-le (b ∷ bs) = ground (arith, free_bytes-le bs)

module _ (m : Mem) where
  pub Seg-append :
      (a c : Ptr) (xs ys : List Blk) (z : Ptr)
      → c ≡ a + total xs
      → Seg m a xs (link c ys z)
      → Seg m c ys z
      → Seg m a (xs ++ ys) z
  Seg-append a c [] ys z e s t = let ca : c ≡ a = omega arith in subst (λ t. Seg m t ys z) ca t
  Seg-append a c (x ∷ []) ys z e s t =
      let ca : c ≡ a + (12 + x.size) = omega arith in
      subst
        (λ t. (m.size a ≡ x.size) × (m.state a ≡ x.state) × (m.next a ≡ link t ys z) × Seg m t ys z)
        ca (s.0, s.1, s.2, t)
  Seg-append a c (x ∷ x' ∷ xs) ys z e s t =
      (s.0, s.1, s.2, Seg-append (a + (12 + x.size)) c (x' ∷ xs) ys z (omega arith) s.3 t)

  pub Seg-split :
      (a c : Ptr) (xs ys : List Blk) (z : Ptr)
      → c ≡ a + total xs
      → Seg m a (xs ++ ys) z
      → Seg m a xs (link c ys z) × Seg m c ys z
  Seg-split a c [] ys z e s = let ac : a ≡ c = omega arith in (tt, subst (λ t. Seg m t ys z) ac s)
  Seg-split a c (x ∷ []) ys z e s =
      let ac : a + (12 + x.size) ≡ c = omega arith in
      ((s.0, s.1, s.2 ∙ ap (λ t. link t ys z) ac, tt), subst (λ t. Seg m t ys z) ac s.3)
  Seg-split a c (x ∷ x' ∷ xs) ys z e s =
      let r : Seg m (a + (12 + x.size)) (x' ∷ xs) (link c ys z) × Seg m c ys z =
        Seg-split (a + (12 + x.size)) c (x' ∷ xs) ys z (omega arith) s.3 in
      ((s.0, s.1, s.2, r.0), r.1)

-- Sizes are multiples of four.
abbrev pub Aligned : List Blk → Type 0
Aligned [] = Unit
Aligned (b ∷ bs) = (b.size % 4 ≡ 0) × Aligned bs

-- The address of the last block.
abbrev pub last_at : Ptr → List Blk → Ptr
last_at a [] = null
last_at a (b ∷ []) = a
last_at a (b ∷ c ∷ bs) = last_at (a + (12 + b.size)) (c ∷ bs)

-- What the code relies on of the linker: the heap is aligned, lies in the address space, and does not
-- hold `mem_blk_start`.
pub record IsLayout (lay : Layout) : Type 0 where
  pub aligned : lay.mem_heap % 4 ≡ 0
  pub above : 0 < lay.mem_heap
  pub below : lay.mem_heap + os_cfg_heap_size < 2 ^ 32
  pub start_not_null : 0 < lay.mem_blk_start
  pub start_apart :
      (lay.mem_blk_start < lay.mem_heap) ⊎ (lay.mem_heap + os_cfg_heap_size ≤ lay.mem_blk_start)

-- The heap is the row `bs` of blocks.
pub record IsHeap (lay : Layout) (m : Mem) (bs : List Blk) : Type 0 where
  pub seg : Seg m lay.mem_heap bs null
  pub whole : total bs ≡ os_cfg_heap_size
  pub first : m.next lay.mem_blk_start ≡ lay.mem_heap
  pub end : m.end_ptr ≡ last_at lay.mem_heap bs
  pub available : m.byte_available ≡ free_bytes bs
  pub aligned : Aligned bs
