-- ===== src/Mem/Merge.antt =====
-- What the parts of `os_mem_free` do to the row of blocks: freeing a block, and merging it with the
-- block behind it and with the one before it.
use mathlib.Core.Path.{subst}
use ak_m_os_the_simple_rtos.Base.{
  ℕ, ◌+◌, ◌^◌, ◌<◌, ◌≡◌, refl, sym, ap, ◌∙◌, ◌≢◌, inl, inr, true, false, List, [], ◌∷◌, ◌++◌, arith,
  ◌==◌, ==-refl, ==_of_ne, Bool-cases, ok, update, add32, Returns, returns,
}
use ak_m_os_the_simple_rtos.Mem.{
  Ptr, null, is_free, Mem, Layout, os_cfg_heap_size, get_size, get_state, get_next, set_size,
  set_next, give_back, swallow, merge_next, merge_prev,
}
use ak_m_os_the_simple_rtos.Mem.Blocks.{
  Blk, total, Seg, link, last_at, Aligned, IsLayout, IsHeap, Seg-split, total-append, free_bytes-le,
}
use ak_m_os_the_simple_rtos.Mem.Spec.{glue, coalesce}
use ak_m_os_the_simple_rtos.Mem.Replace.{Aligned-split, last_at-append, replace-IsHeap}

abbrev after_swallow : Mem → Ptr → Ptr → Ptr → Mem
after_swallow m p q e = record m {
  size = update m.size p (add32 (m.size p) (add32 (m.size q) 12));
  next = update m.next p (m.next q);
  end_ptr = e;
  byte_available = add32 m.byte_available 12;
}

swallow-run :
    (m : Mem) (p q : ℕ) → 0 < p → 0 < q → swallow p q m ≡ ok tt (after_swallow m p q m.end_ptr)
unfolding swallow give_back get_size set_size get_next set_next
swallow-run m p q pos pos' =
    let ep : (p == null) ≡ false = ground arith in
    let eq : (q == null) ≡ false = ground arith in rw (ep, eq, ep, eq, ep) refl

module _ {lay : Layout} (ok_lay : IsLayout lay) {m : Mem} (pre : List Blk) (b c : Blk)
    (cs : List Blk) (is : IsHeap lay m (pre ++ b ∷ c ∷ cs)) (fb : is_free b.state ≡ true)
    (fc : is_free c.state ≡ true) (here : Ptr) (at : here ≡ lay.mem_heap + total pre) where
  pub both_at : Seg m here (b ∷ c ∷ cs) null
  both_at = (Seg-split m lay.mem_heap here pre (b ∷ c ∷ cs) null at is.seg).1

  room : total pre + (24 + b.size + c.size) + total cs ≡ os_cfg_heap_size
  room = omega (arith, total-append pre (b ∷ c ∷ cs), is.whole)

  available_small : m.byte_available + 12 < 2 ^ 32
  available_small = omega (arith, is.available, free_bytes-le (pre ++ b ∷ c ∷ cs), is.whole)

  both-Aligned : Aligned (b ∷ c ∷ cs)
  both-Aligned = (Aligned-split pre (b ∷ c ∷ cs) is.aligned).1

  pub swallow-IsHeap :
      (e : Ptr)
      → e ≡ last_at lay.mem_heap (pre ++ glue b c ∷ cs)
      → IsHeap lay (after_swallow m here (here + (12 + b.size)) e) (pre ++ glue b c ∷ cs)
  swallow-IsHeap e end =
      let to_post : here + (12 + b.size) + (12 + c.size) ≡ here + total (b ∷ c ∷ []) =
        omega arith in
      replace-IsHeap lay m (after_swallow m here (here + (12 + b.size)) e) pre b (glue b c) (c ∷ [])
        [] cs here (omega arith) at ok_lay is (λ x out. (ground arith, refl, ground arith))
        (
          ground (arith, both_at.0, both_at.3.0, room),
          ground (arith, both_at.1, fb),
          ground (arith, both_at.3.2 ∙ ap (λ t. link t cs null) to_post),
          tt,
        )
        end (ground (arith, available_small, fb, fc))
        (omega (arith, both-Aligned.0, both-Aligned.1.0), tt)

-- The last block stays the last if there is one behind the two.
end_kept :
    (a here : Ptr) (pre : List Blk) (b c d : Blk) (ds : List Blk)
    → here ≡ a + total pre
    → last_at a (pre ++ b ∷ c ∷ d ∷ ds) ≡ last_at a (pre ++ glue b c ∷ d ∷ ds)
end_kept a here pre b c d ds at =
    last_at-append a here pre b (c ∷ d ∷ ds) at
    ∙ ap (λ t. last_at t (d ∷ ds)) (omega arith)
    ∙ sym (last_at-append a here pre (glue b c) (d ∷ ds) at)

behind_pos : {lay : Layout} → IsLayout lay → (here n : ℕ) → here ≡ lay.mem_heap + n → 0 < here
behind_pos ok_lay here n at = omega (arith, ok_lay.above)

module _ {lay : Layout} (ok_lay : IsLayout lay) {m : Mem} (pre : List Blk) (b : Blk)
    (fb : is_free b.state ≡ true) (here : Ptr) (at : here ≡ lay.mem_heap + total pre) where
  merge_free :
      (c : Blk) (cs : List Blk)
      → is_free c.state ≡ true
      → IsHeap lay m (pre ++ b ∷ c ∷ cs)
      → Returns (λ _ m'. IsHeap lay m' (pre ++ glue b c ∷ cs)) (merge_next here m)
  unfolding merge_next get_next get_state
  merge_free c [] fc is =
      let s = both_at ok_lay pre b c [] is fb fc here at in
      let ep : (here == null) ≡ false = ground (arith, behind_pos ok_lay here (total pre) at) in
      let eq : (here + (12 + b.size) == null) ≡ false = ground arith in
      let run : merge_next here m ≡ ok tt (after_swallow m here (here + (12 + b.size)) here) =
        rw
          (
            ep,
            s.2,
            eq,
            eq,
            s.3.1,
            fc,
            swallow-run m here (here + (12 + b.size)) (behind_pos ok_lay here (total pre) at)
                (omega arith),
            ep,
            ==-refl here,
            s.3.2,
          )
          refl in
      rw run (
        returns (
          swallow-IsHeap ok_lay pre b c [] is fb fc here at here
            (sym (last_at-append lay.mem_heap here pre (glue b c) [] at))))
  merge_free c (d ∷ ds) fc is =
      let s = both_at ok_lay pre b c (d ∷ ds) is fb fc here at in
      let ep : (here == null) ≡ false = ground (arith, behind_pos ok_lay here (total pre) at) in
      let eq : (here + (12 + b.size) == null) ≡ false = ground arith in
      let er : (here + (12 + b.size) + (12 + c.size) == null) ≡ false = ground arith in
      let run : merge_next here m ≡ ok tt (after_swallow m here (here + (12 + b.size)) m.end_ptr) =
        rw
          (
            ep,
            s.2,
            eq,
            eq,
            s.3.1,
            fc,
            swallow-run m here (here + (12 + b.size)) (behind_pos ok_lay here (total pre) at)
                (omega arith),
            ep,
            ==-refl here,
            s.3.2,
            er,
          )
          refl in
      rw run (
        returns (
          swallow-IsHeap ok_lay pre b c (d ∷ ds) is fb fc here at m.end_ptr
            (is.end ∙ end_kept lay.mem_heap here pre b c d ds at)))

  -- A free block is merged with the one behind it, if that one is free.
  pub merge_next-coalesce :
      (post : List Blk)
      → IsHeap lay m (pre ++ b ∷ post)
      → Returns (λ _ m'. IsHeap lay m' (pre ++ coalesce b post)) (merge_next here m)
  unfolding merge_next get_next get_state
  merge_next-coalesce [] is =
      let s = (Seg-split m lay.mem_heap here pre (b ∷ []) null at is.seg).1 in
      let ep : (here == null) ≡ false = ground (arith, behind_pos ok_lay here (total pre) at) in
      rw (ep, s.2) (returns is)
  merge_next-coalesce (c ∷ cs) is = elim (Bool-cases (is_free c.state)) [
    | inl e ↦
        let same : coalesce b (c ∷ cs) ≡ glue b c ∷ cs = rw (fb, e) refl in
        subst (λ t. Returns (λ _ m'. IsHeap lay m' (pre ++ t)) (merge_next here m)) (sym same)
          (merge_free c cs e is)
    | inr e ↦
        let same : coalesce b (c ∷ cs) ≡ b ∷ c ∷ cs = rw (fb, e) refl in
        let s = (Seg-split m lay.mem_heap here pre (b ∷ c ∷ cs) null at is.seg).1 in
        let ep : (here == null) ≡ false = ground (arith, behind_pos ok_lay here (total pre) at) in
        let eq : (here + (12 + b.size) == null) ≡ false = ground arith in
        subst (λ t. Returns (λ _ m'. IsHeap lay m' (pre ++ t)) (merge_next here m)) (sym same)
          (rw (ep, s.2, eq, eq, s.3.1, e) (returns is))
  ]

  -- A free block takes in the free one behind it, if that one is not the last. The end of the heap
  -- is left alone.
  pub merge_prev-coalesce :
      (start : Ptr)
      → start ≢ here
      → (c d : Blk) (ds : List Blk) → is_free c.state ≡ true
      → IsHeap lay m (pre ++ b ∷ c ∷ d ∷ ds)
      → Returns
          (λ _ m'. IsHeap lay m' (pre ++ glue b c ∷ d ∷ ds))
          (merge_prev start here (here + (12 + b.size)) m)
  unfolding merge_prev get_state
  merge_prev-coalesce start apart c d ds fc is =
      let s = both_at ok_lay pre b c (d ∷ ds) is fb fc here at in
      let ep : (here == null) ≡ false = ground (arith, behind_pos ok_lay here (total pre) at) in
      let ne : (here == start) ≡ false = ==_of_ne here start (λ e. apart (sym e)) in
      rw
        (
          ep,
          s.1,
          fb,
          ne,
          swallow-run m here (here + (12 + b.size)) (behind_pos ok_lay here (total pre) at)
              (omega arith),
        )
        (returns (
          swallow-IsHeap ok_lay pre b c (d ∷ ds) is fb fc here at m.end_ptr
            (is.end ∙ end_kept lay.mem_heap here pre b c d ds at)))
