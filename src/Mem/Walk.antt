-- ===== src/Mem/Walk.antt =====
-- How `os_mem_free` finds the block that a pointer belongs to, and marks it as free.
use ak_m_os_the_simple_rtos.Base.{
  ℕ, zero, suc, ◌+◌, ◌^◌, ◌<◌, ◌≤◌, ◌≡◌, refl, sym, ap, ◌∙◌, inl, inr, false, List, [], ◌∷◌, ◌++◌,
  arith, ◌==◌, ==-refl, length, ltb, Bool-cases, ok, update, add32, sub32,
}
use ak_m_os_the_simple_rtos.Mem.{
  Ptr, null, mem_state_free, is_free, Mem, Layout, os_cfg_heap_size, rounds, get_size, get_state,
  get_next, find_block, release, os_mem_free,
}
use ak_m_os_the_simple_rtos.Mem.Blocks.{
  Blk, total, Seg, link, last_at, IsLayout, IsHeap, Seg-split, total-append, free_bytes-append,
  free_bytes-le,
}
use ak_m_os_the_simple_rtos.Mem.Search.{last_at-le}
use ak_m_os_the_simple_rtos.Mem.Replace.{Aligned-split, last_at-append, replace-IsHeap}
use ak_m_os_the_simple_rtos.Mem.Malloc.{initialised, length-le-total}

-- The block that the loop of `os_mem_free` saw last before the one behind `pre`.
abbrev pub before : Ptr → Ptr → List Blk → Ptr
before q a [] = q
before q a (x ∷ pre) = before a (a + (12 + x.size)) pre

pub before-snoc : (q a : Ptr) (ys : List Blk) (y : Blk) → before q a (ys ++ y ∷ []) ≡ a + total ys
before-snoc q a [] y = omega arith
before-snoc q a (x ∷ ys) y = before-snoc a (a + (12 + x.size)) ys y ∙ omega arith

pub link-at :
    (a : Ptr) (pre : List Blk) (b : Blk) (post : List Blk) (z : Ptr)
    → link a (pre ++ b ∷ post) z ≡ a
link-at a [] b post z = refl
link-at a (x ∷ pre) b post z = refl

last-above :
    (a : Ptr) (pre : List Blk) (b : Blk) (post : List Blk)
    → a + total pre ≤ last_at a (pre ++ b ∷ post)
last-above a pre b post =
    omega
      (arith, last_at-append a (a + total pre) pre b post refl, last_at-le (a + total pre) b post)

find_block-pre :
    (k : ℕ) (here q a : Ptr) (m : Mem) (pre : List Blk) (b : Blk) (post : List Blk)
    → here ≡ a + total pre
    → Seg m a (pre ++ b ∷ post) null
    → here ≤ m.end_ptr
    → 0 < a
    → length pre < k
    → find_block k here q a m ≡ ok (before q a pre, here) m
unfolding find_block get_next
find_block-pre zero here q a m pre b post at s e pos lt = absurd (omega arith)
find_block-pre (suc k) here q a m [] b post at s e pos lt =
    let same : a ≡ here = omega arith in
    elim (Bool-cases (a == m.end_ptr)) [
      | inl t ↦ rw (t, same) refl
      | inr t ↦ rw (t, same, ==-refl here) refl
    ]
find_block-pre (suc k) here q a m (x ∷ pre) b post at s e pos lt =
    let ne : (a == m.end_ptr) ≡ false = ground arith in
    let ne' : (a == here) ≡ false = ground arith in
    let ea : (a == null) ≡ false = ground arith in
    rw (ne, ne', ea, s.2, link-at)
      (find_block-pre k here a (a + (12 + x.size)) m pre b post (omega arith) s.3 e (omega arith)
        (omega arith))

end_size :
    (m : Mem) (a : Ptr) (b : Blk) (bs : List Blk)
    → Seg m a (b ∷ bs) null
    → last_at a (b ∷ bs) + 12 + m.size (last_at a (b ∷ bs)) ≡ a + total (b ∷ bs)
end_size m a b [] s = omega (arith, s.0)
end_size m a b (c ∷ bs) s = omega (arith, end_size m (a + (12 + b.size)) c bs s.3)

end_size-row :
    (m : Mem) (a : Ptr) (pre : List Blk) (b : Blk) (post : List Blk)
    → Seg m a (pre ++ b ∷ post) null
    → last_at a (pre ++ b ∷ post) + 12 + m.size (last_at a (pre ++ b ∷ post))
      ≡ a + total (pre ++ b ∷ post)
end_size-row m a [] b post s = end_size m a b post s
end_size-row m a (x ∷ pre) b post s = end_size m a x (pre ++ b ∷ post) s

abbrev pub freed : Blk → Blk
freed b = record { size = b.size; state = mem_state_free }

module _ {lay : Layout} (ok_lay : IsLayout lay) {m : Mem} (pre : List Blk) (b : Blk)
    (post : List Blk) (is : IsHeap lay m (pre ++ b ∷ post)) (busy : is_free b.state ≡ false)
    (here : Ptr) (at : here ≡ lay.mem_heap + total pre) where
  here_in : here + 12 + b.size + total post ≡ lay.mem_heap + os_cfg_heap_size
  here_in = omega (arith, total-append pre (b ∷ post), is.whole)

  end_whole : m.end_ptr + 12 + m.size m.end_ptr ≡ lay.mem_heap + os_cfg_heap_size
  end_whole =
      rw is.end
        (end_size-row m lay.mem_heap pre b post is.seg ∙ ap (λ t. lay.mem_heap + t) is.whole)

  at_end : here ≤ m.end_ptr
  at_end = ground (arith, is.end, last-above lay.mem_heap pre b post)

  find_block-run :
      find_block (rounds + 1) here lay.mem_blk_start lay.mem_blk_start m
      ≡ ok (before lay.mem_blk_start lay.mem_heap pre, here) m
  unfolding find_block get_next
  find_block-run =
      let apart_end : (lay.mem_blk_start == m.end_ptr) ≡ false =
        ground (arith, ok_lay.start_apart, end_whole, at_end, at) in
      let apart : (lay.mem_blk_start == here) ≡ false =
        ground (arith, ok_lay.start_apart, here_in) in
      let es : (lay.mem_blk_start == null) ≡ false = ground (arith, ok_lay.start_not_null) in
      rw (apart_end, apart, es, is.first)
        (find_block-pre rounds here lay.mem_blk_start lay.mem_heap m pre b post at is.seg at_end
          ok_lay.above (omega (arith, length-le-total pre, here_in)))

  pub free-run :
      os_mem_free lay (here + 12) m
      ≡ release lay.mem_blk_start (before lay.mem_blk_start lay.mem_heap pre) here m
  unfolding os_mem_free get_size get_next get_state
  free-run =
      let set : (m.end_ptr == null) ≡ false = ground (arith, at_end, ok_lay.above) in
      let es : (lay.mem_blk_start == null) ≡ false = ground (arith, ok_lay.start_not_null) in
      let eh : (here == null) ≡ false = ground (arith, ok_lay.above) in
      let back : sub32 (here + 12) 12 ≡ here = ground (arith, here_in, ok_lay.below) in
      let low : ltb (m.end_ptr + 12 + m.size m.end_ptr) (here + 12) ≡ false =
        ground (arith, end_whole, here_in) in
      let high : ltb here lay.mem_heap ≡ false = ground arith in
      let state : m.state here ≡ b.state =
        (Seg-split m lay.mem_heap here pre (b ∷ post) null at is.seg).1.1 in
      rw
        (
          initialised ok_lay (pre ++ b ∷ post) is,
          set,
          es,
          low,
          back,
          is.first,
          high,
          eh,
          state,
          busy,
          find_block-run,
        )
        refl

  -- marking the block as free, and counting its bytes
  abbrev pub after_mark : Mem
  after_mark = record m {
    state = update m.state here mem_state_free;
    byte_available = add32 m.byte_available (m.size here);
  }

  pub mark-IsHeap : IsHeap lay after_mark (pre ++ freed b ∷ post)
  mark-IsHeap =
      let s = (Seg-split m lay.mem_heap here pre (b ∷ post) null at is.seg).1 in
      let zero_end : here + (12 + b.size + 0) ≡ here + (12 + b.size) = omega arith in
      replace-IsHeap lay m after_mark pre b (freed b) [] [] post here refl at ok_lay is
        (λ x out. (refl, ground arith, refl))
        (s.0, ground arith, s.2 ∙ ap (λ t. link t post null) (sym zero_end), tt)
        (is.end
          ∙ last_at-append lay.mem_heap here pre b post at
          ∙ last_same here b (freed b) post refl
          ∙ sym (last_at-append lay.mem_heap here pre (freed b) post at))
        (ground (
          arith,
          s.0,
          busy,
          is.available,
          free_bytes-le (pre ++ b ∷ post),
          is.whole,
          free_bytes-append pre (b ∷ post),
          free_small,
        ))
        ((Aligned-split pre (b ∷ post) is.aligned).1.0, tt)
    where
      last_same :
          (a : Ptr) (c c' : Blk) (cs : List Blk)
          → c.size ≡ c'.size
          → last_at a (c ∷ cs) ≡ last_at a (c' ∷ cs)
      last_same a c c' [] e = refl
      last_same a c c' (d ∷ ds) e = ap (λ t. last_at (a + (12 + t)) (d ∷ ds)) e

      free_small : m.byte_available + b.size < 2 ^ 32
      free_small =
          omega (arith, is.available, free_bytes-le (pre ++ b ∷ post), is.whole, here_in, at)
