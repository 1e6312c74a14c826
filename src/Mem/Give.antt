-- ===== src/Mem/Give.antt =====
-- What `os_mem_malloc` does to the block that its search stopped at.
use ak_m_os_the_simple_rtos.Base.{
  ℕ, ◌+◌, ◌-◌, ◌%◌, ◌^◌, ◌<◌, ◌≤◌, ◌≡◌, refl, sym, ap, ◌∙◌, inl, inr, Bool, true, false, ◌&&◌, List,
  [], ◌∷◌, ◌++◌, arith, ◌==◌, ==-refl, ltb, Bool-cases, if◌then◌else◌, ok, update, sub32, Returns,
  returns,
}
use ak_m_os_the_simple_rtos.Mem.{
  use_block, Ptr, null, mem_state_free, mem_state_busy, Mem, Layout, os_cfg_heap_size, get_size,
  get_next, set_size, set_state, set_next, split_block, take_block,
}
use ak_m_os_the_simple_rtos.Mem.Blocks.{
  Blk, total, Seg, link, last_at, Aligned, IsLayout, IsHeap, Seg-split, total-append,
  free_bytes-append, free_bytes-le,
}
use ak_m_os_the_simple_rtos.Mem.Spec.{fits, carve}
use ak_m_os_the_simple_rtos.Mem.Replace.{Aligned-split, last_at-append, replace-IsHeap}

abbrev pub after_split : Mem → Ptr → ℕ → Ptr → Mem
after_split m p n e =
    let q : Ptr = p + 12 + n in
    record m {
      size = update (update m.size q (sub32 (sub32 (m.size p) n) 12)) p n;
      state = update (update m.state q mem_state_free) p mem_state_busy;
      next = update (update m.next q (m.next p)) p q;
      end_ptr = e;
      byte_available = sub32 m.byte_available (n + 12);
    }

pub split_block-run :
    (m : Mem) (p n : ℕ)
    → 0 < p
    → split_block n p m
      ≡ ok (p + 12) (after_split m p n (if m.next p == null then p + 12 + n else m.end_ptr))
unfolding split_block get_size get_next set_size set_state set_next
split_block-run m p n pos =
    let ep : (p == null) ≡ false = ground arith in
    let eq : (p + 12 + n == null) ≡ false = ground arith in
    elim (Bool-cases (m.next p == null)) [
      | inl e ↦ rw (ep, eq, eq, ep, eq, eq, ==-refl (p + 12 + n), e, ep, ep, ep)
      | inr e ↦ rw (ep, eq, eq, ep, eq, eq, ==-refl (p + 12 + n), e, ep, ep, ep)
    ]

abbrev pub after_take : Mem → Ptr → Mem
after_take m p = record m {
  state = update m.state p mem_state_busy;
  byte_available = sub32 m.byte_available (m.size p);
}

pub take_block-run : (m : Mem) (p : ℕ) → 0 < p → take_block p m ≡ ok (p + 12) (after_take m p)
unfolding take_block get_size set_state
take_block-run m p pos = let ep : (p == null) ≡ false = ground arith in rw (ep, ep)

abbrev busy_blk : ℕ → Blk
busy_blk n = record { size = n; state = mem_state_busy }

abbrev free_blk : ℕ → Blk
free_blk n = record { size = n; state = mem_state_free }

pub and_false : (t : Bool) → (t && false) ≡ false
and_false true = refl
and_false false = refl

ltb→lt : (x y : ℕ) → ltb x y ≡ true → x < y
ltb→lt x y h = ground arith

last_at-size :
    (a : Ptr) (b b' : Blk) (post : List Blk)
    → b.size ≡ b'.size
    → last_at a (b ∷ post) ≡ last_at a (b' ∷ post)
last_at-size a b b' [] e = refl
last_at-size a b b' (c ∷ post) e = ap (λ t. last_at (a + (12 + t)) (c ∷ post)) e

last_after_split :
    (a : Ptr) (b : Blk) (n r : ℕ) (post : List Blk) (q e : Ptr)
    → b.size ≡ n + 12 + r
    → q ≡ link (a + (12 + b.size)) post null
    → e ≡ last_at a (b ∷ post)
    → 0 < a
    → (if q == null then a + 12 + n else e) ≡ last_at a (busy_blk n ∷ free_blk r ∷ post)
last_after_split a b n r [] q e size hq he pos = ground arith
last_after_split a b n r (c ∷ post) q e size hq he pos =
    let some : (q == null) ≡ false = ground arith in
    let at : a + (12 + b.size) ≡ a + (12 + n) + (12 + r) = omega arith in
    rw some (he ∙ ap (λ t. last_at t (c ∷ post)) at)

module _ {lay : Layout} (ok_lay : IsLayout lay) {m : Mem} (n : ℕ) (pre : List Blk) (b : Blk)
    (post : List Blk) (is : IsHeap lay m (pre ++ b ∷ post)) (here : Ptr)
    (at : here ≡ lay.mem_heap + total pre) (fit : fits n b ≡ true) where
  inside : total pre + (12 + b.size) + total post ≡ os_cfg_heap_size
  inside = omega (arith, total-append pre (b ∷ post), is.whole)

  here_pos : 0 < here
  here_pos = omega (arith, ok_lay.above)

  at_here : Seg m here (b ∷ post) null
  at_here = (Seg-split m lay.mem_heap here pre (b ∷ post) null at is.seg).1

  small : m.byte_available < 2 ^ 32
  small = omega (arith, is.available, free_bytes-le (pre ++ b ∷ post), is.whole)

  enough : b.size ≤ m.byte_available
  enough = ground (arith, is.available, free_bytes-append pre (b ∷ post))

  end_here : m.end_ptr ≡ last_at here (b ∷ post)
  end_here = is.end ∙ last_at-append lay.mem_heap here pre b post at

  Aligned-here : Aligned (b ∷ post)
  Aligned-here = (Aligned-split pre (b ∷ post) is.aligned).1

  take-IsHeap : IsHeap lay (after_take m here) (pre ++ (busy_blk b.size ∷ post))
  take-IsHeap =
      let zero_end : here + (12 + b.size + 0) ≡ here + (12 + b.size) = omega arith in
      replace-IsHeap lay m (after_take m here) pre b (busy_blk b.size) [] [] post here refl at
        ok_lay is (λ x out. (refl, ground arith, refl))
        (at_here.0, ground arith, at_here.2 ∙ ap (λ t. link t post null) (sym zero_end), tt)
        (end_here
          ∙ last_at-size here b (busy_blk b.size) post refl
          ∙ sym (last_at-append lay.mem_heap here pre (busy_blk b.size) post at))
        (ground (arith, at_here.0, enough, small)) (Aligned-here.0, tt)

  fit_size : n ≤ b.size
  fit_size = ground (arith, fit)

  -- what the header of `b` links to
  next_here : m.next here ≡ link (here + (12 + b.size)) post null
  next_here = at_here.2

  new_end :
      (r : ℕ)
      → b.size ≡ n + 12 + r
      → (if m.next here == null then here + 12 + n else m.end_ptr)
        ≡ last_at here (busy_blk n ∷ free_blk r ∷ post)
  new_end r e =
      last_after_split here b n r post (m.next here) m.end_ptr e next_here end_here here_pos

  split-IsHeap :
      (r : ℕ)
      → b.size ≡ n + 12 + r
      → n % 4 ≡ 0
      → IsHeap lay
          (after_split m here n (if m.next here == null then here + 12 + n else m.end_ptr))
          (pre ++ (busy_blk n ∷ free_blk r ∷ post))
  split-IsHeap r e al =
      let zero_end : here + (12 + b.size + 0) ≡ here + (12 + b.size) = omega arith in
      replace-IsHeap lay m
        (after_split m here n (if m.next here == null then here + 12 + n else m.end_ptr)) pre b
        (busy_blk n) [] (free_blk r ∷ []) post here (omega arith) at ok_lay is
        (λ x out. (ground arith, ground arith, ground arith))
        (
          ground arith,
          ground arith,
          ground arith,
          (
            ground (arith, at_here.0, inside),
            ground arith,
            ground (arith, next_here ∙ ap (λ t. link t post null) (sym zero_end)),
            tt,
          ),
        )
        (new_end r e
          ∙ sym (last_at-append lay.mem_heap here pre (busy_blk n) (free_blk r ∷ post) at))
        (ground (arith, at_here.0, enough, small)) (omega (arith, Aligned-here.0))

  -- A block that fits is given out: the payload begins behind its header, and what is left over of it
  -- is free.
  pub use_block-carve :
      0 < n
      → n % 4 ≡ 0
      → Returns
          (λ p m'. (p ≡ here + 12) × IsHeap lay m' (pre ++ (carve n b ++ post)))
          (use_block n here m)
  unfolding use_block get_size
  use_block-carve pos al =
      let eh : (here == null) ≡ false = ground (arith, here_pos) in
      let big : ltb b.size n ≡ false = ground (arith, fit_size) in
      let diff : sub32 b.size n ≡ b.size - n = omega (arith, fit_size, inside) in
      elim (Bool-cases (ltb 8 (b.size - n))) [
        | inl e ↦
            rw (eh, eh, at_here.0, big, and_false, diff, e, split_block-run m here n here_pos)
              (returns (
                refl,
                split-IsHeap (b.size - n - 12)
                    (omega (arith, fit_size, Aligned-here.0, ltb→lt 8 (b.size - n) e)) al,
              ))
        | inr e ↦
            rw (eh, eh, at_here.0, big, and_false, diff, e, take_block-run m here here_pos)
              (returns (refl, take-IsHeap))
      ]
