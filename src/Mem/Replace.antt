-- ===== src/Mem/Replace.antt =====
-- Replacing some neighbouring blocks of a heap by others that take as much room.
use ak_m_os_the_simple_rtos.Base.{
  ℕ, ◌+◌, ◌<◌, ◌≤◌, ◌≡◌, refl, sym, ap, ◌∙◌, ◌⊎◌, inl, inr, List, [], ◌∷◌, ◌++◌, arith,
}
use ak_m_os_the_simple_rtos.Mem.{Ptr, null, Mem, Layout}
use ak_m_os_the_simple_rtos.Mem.Blocks.{
  Blk, total, free_bytes, Seg, link, last_at, Aligned, IsLayout, IsHeap, frame, Seg-append,
  Seg-split, total-append, free_bytes-append,
}

pub Aligned-append : (xs ys : List Blk) → Aligned xs → Aligned ys → Aligned (xs ++ ys)
Aligned-append [] ys a b = b
Aligned-append (x ∷ xs) ys a b = (a.0, Aligned-append xs ys a.1 b)

pub Aligned-split : (xs ys : List Blk) → Aligned (xs ++ ys) → Aligned xs × Aligned ys
Aligned-split [] ys a = (tt, a)
Aligned-split (x ∷ xs) ys a = ((a.0, (Aligned-split xs ys a.1).0), (Aligned-split xs ys a.1).1)

pub last_at-append :
    (a c : Ptr) (xs : List Blk) (y : Blk) (ys : List Blk)
    → c ≡ a + total xs
    → last_at a (xs ++ y ∷ ys) ≡ last_at c (y ∷ ys)
last_at-append a c [] y ys e = ap (λ t. last_at t (y ∷ ys)) (omega arith)
last_at-append a c (x ∷ []) y ys e = ap (λ t. last_at t (y ∷ ys)) (omega arith)
last_at-append a c (x ∷ x' ∷ xs) y ys e =
    last_at-append (a + (12 + x.size)) c (x' ∷ xs) y ys (omega arith)

-- Behind as much room as before, the last block stands where it stood.
pub last_at-behind :
    (a : Ptr) (xs ys : List Blk) (c : Blk) (cs : List Blk)
    → total xs ≡ total ys
    → last_at a (xs ++ c ∷ cs) ≡ last_at a (ys ++ c ∷ cs)
last_at-behind a xs ys c cs e =
    last_at-append a (a + total ys) xs c cs (omega arith)
    ∙ sym (last_at-append a (a + total ys) ys c cs refl)

-- At most the headers at the addresses from `lo` up to `hi` have changed.
abbrev pub OnlyIn : ℕ → ℕ → Mem → Mem → Type 0
OnlyIn lo hi m m' =
    (x : ℕ)
    → (x < lo) ⊎ (hi ≤ x)
    → (m'.size x ≡ m.size x) × (m'.state x ≡ m.state x) × (m'.next x ≡ m.next x)

module _ (lay : Layout) (m m' : Mem) (pre : List Blk) (x x' : Blk) (mid mid' post : List Blk)
    (here : Ptr) (room : total (x' ∷ mid') ≡ total (x ∷ mid))
    (at : here ≡ lay.mem_heap + total pre) where
  replace-Seg :
      OnlyIn here (here + total (x ∷ mid)) m m'
      → Seg m lay.mem_heap (pre ++ ((x ∷ mid) ++ post)) null
      → Seg m' here (x' ∷ mid') (link (here + total (x ∷ mid)) post null)
      → Seg m' lay.mem_heap (pre ++ ((x' ∷ mid') ++ post)) null
  replace-Seg only seg new =
      let next : Ptr = here + total (x ∷ mid) in
      let (front, back) = Seg-split m lay.mem_heap here pre ((x ∷ mid) ++ post) null at seg in
      let (old, rest) = Seg-split m here next (x ∷ mid) post null refl back in
      Seg-append m' lay.mem_heap here pre ((x' ∷ mid') ++ post) null at
        (frame m m' lay.mem_heap pre here (λ y lo hi. only y (inl (omega arith))) front)
        (Seg-append m' here next (x' ∷ mid') post null (omega arith) new
          (frame m m' next post null (λ y lo hi. only y (inr lo)) rest))

  pub replace-IsHeap :
      IsLayout lay
      → IsHeap lay m (pre ++ ((x ∷ mid) ++ post))
      → OnlyIn here (here + total (x ∷ mid)) m m'
      → Seg m' here (x' ∷ mid') (link (here + total (x ∷ mid)) post null)
      → m'.end_ptr ≡ last_at lay.mem_heap (pre ++ ((x' ∷ mid') ++ post))
      → m'.byte_available + free_bytes (x ∷ mid) ≡ m.byte_available + free_bytes (x' ∷ mid')
      → Aligned (x' ∷ mid')
      → IsHeap lay m' (pre ++ ((x' ∷ mid') ++ post))
  replace-IsHeap ok_lay is only new end avail al = record {
    seg = replace-Seg only is.seg new;
    whole = omega (
      arith,
      is.whole,
      sums,
      total-append pre ((x' ∷ mid') ++ post),
      total-append (x' ∷ mid') post,
    );
    first = (only lay.mem_blk_start apart).2 ∙ is.first;
    end = end;
    available = omega (
      arith,
      is.available,
      avail,
      free_bytes-append pre ((x ∷ mid) ++ post),
      free_bytes-append pre ((x' ∷ mid') ++ post),
      free_bytes-append (x ∷ mid) post,
      free_bytes-append (x' ∷ mid') post,
    );
    aligned =
        let (front, back) = Aligned-split pre ((x ∷ mid) ++ post) is.aligned in
        let (old, rest) = Aligned-split (x ∷ mid) post back in
        Aligned-append pre ((x' ∷ mid') ++ post) front (Aligned-append (x' ∷ mid') post al rest);
  }
    where
      sums : total (pre ++ ((x ∷ mid) ++ post)) ≡ total pre + total (x ∷ mid) + total post
      sums = omega (arith, total-append pre ((x ∷ mid) ++ post), total-append (x ∷ mid) post)

      apart : (lay.mem_blk_start < here) ⊎ (here + total (x ∷ mid) ≤ lay.mem_blk_start)
      apart = omega (arith, ok_lay.start_apart, is.whole, sums)
