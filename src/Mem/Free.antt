-- ===== src/Mem/Free.antt =====
-- `os_mem_free` frees a busy block and merges it with its free neighbours, as long as the merging
-- with the block before it does not reach the end of the heap.
use mathlib.Core.Path.{subst}
use ak_m_os_the_simple_rtos.Base.{
  ◌+◌, ◌≡◌, refl, sym, ap, ◌∙◌, ◌≢◌, inl, inr, Bool, true, false, ◌&&◌, List, [], ◌∷◌, ◌++◌, arith,
  ◌==◌, ==-refl, Bool-cases, Returns, returns, bind,
}
use ak_m_os_the_simple_rtos.Mem.{
  Ptr, null, is_free, Mem, Layout, get_size, get_state, set_state, give_back, merge_prev, release,
  os_mem_free,
}
use ak_m_os_the_simple_rtos.Mem.Blocks.{Blk, total, IsLayout, IsHeap, Seg-split, total-append}
use ak_m_os_the_simple_rtos.Mem.Spec.{glue, coalesce, dealloc}
use ak_m_os_the_simple_rtos.Mem.Merge.{merge_next-coalesce, merge_prev-coalesce}
use mathlib.Core.List.{append_assoc}
use ak_m_os_the_simple_rtos.Mem.Walk.{before, before-snoc, freed, free-run, after_mark, mark-IsHeap}

-- The last block of `pre` is free.
abbrev pub last_free : List Blk → Bool
last_free [] = false
last_free (b ∷ []) = is_free b.state
last_free (b ∷ c ∷ bs) = last_free (c ∷ bs)

-- A block with `post` behind it becomes the last once it is freed and merged with the next.
abbrev pub becomes_last : List Blk → Bool
becomes_last [] = true
becomes_last (c ∷ []) = is_free c.state
becomes_last (c ∷ d ∷ ds) = false

-- No merge with the block before moves the end of the heap.
abbrev pub EndStays : List Blk → List Blk → Type 0
EndStays pre post = (last_free pre && becomes_last post) ≡ false

last_free-snoc : (ys : List Blk) (y : Blk) → last_free (ys ++ y ∷ []) ≡ is_free y.state
last_free-snoc [] y = refl
last_free-snoc (x ∷ []) y = refl
last_free-snoc (x ∷ x' ∷ ys) y = last_free-snoc (x' ∷ ys) y

dealloc-snoc :
    (ys : List Blk) (y b : Blk) (post : List Blk)
    → dealloc (ys ++ y ∷ []) b post ≡ ys ++ coalesce y (coalesce (freed b) post)
unfolding dealloc
dealloc-snoc [] y b post = refl
dealloc-snoc (x ∷ []) y b post = refl
dealloc-snoc (x ∷ x' ∷ ys) y b post = ap (λ t. x ∷ t) (dealloc-snoc (x' ∷ ys) y b post)

record Snoc (pre : List Blk) : Type 0 where
  init : List Blk
  final : Blk
  split : pre ≡ init ++ final ∷ []

Snoc-view : (b : Blk) (bs : List Blk) → Snoc (b ∷ bs)
Snoc-view b [] = record { init = []; final = b; split = refl }
Snoc-view b (c ∷ bs) =
    let r : Snoc (c ∷ bs) = Snoc-view c bs in
    record { init = b ∷ r.init; final = r.final; split = ap (λ t. b ∷ t) r.split }

-- Merged with the next, a freed block is either the last or followed by another.
record Followed (t : List Blk) : Type 0 where
  c : Blk
  d : Blk
  ds : List Blk
  free : is_free c.state ≡ true
  split : t ≡ c ∷ d ∷ ds

coalesce-Followed :
    (b : Blk) (post : List Blk) → becomes_last post ≡ false → Followed (coalesce (freed b) post)
coalesce-Followed b [] e = cc
coalesce-Followed b (c ∷ []) e =
    let same : coalesce (freed b) (c ∷ []) ≡ freed b ∷ c ∷ [] = rw e refl in
    record { c = freed b; d = c; ds = []; free = refl; split = same }
coalesce-Followed b (c ∷ d ∷ ds) e = elim (Bool-cases (is_free c.state)) [
  | inl f ↦
      let same : coalesce (freed b) (c ∷ d ∷ ds) ≡ glue (freed b) c ∷ d ∷ ds = rw f refl in
      record { c = glue (freed b) c; d = d; ds = ds; free = refl; split = same }
  | inr f ↦
      let same : coalesce (freed b) (c ∷ d ∷ ds) ≡ freed b ∷ c ∷ d ∷ ds = rw f refl in
      record { c = freed b; d = c; ds = d ∷ ds; free = refl; split = same }
]

pub coalesce-first : (b : Blk) (t : List Blk) → is_free b.state ≡ false → coalesce b t ≡ b ∷ t
coalesce-first b [] e = refl
coalesce-first b (c ∷ cs) e = rw e refl

module _ {lay : Layout} (ok_lay : IsLayout lay) {m : Mem} (ys : List Blk) (y : Blk) where
  prev_busy :
      (here : Ptr) (t : List Blk)
      → is_free y.state ≡ false
      → IsHeap lay m ((ys ++ y ∷ []) ++ t)
      → Returns
          (λ _ m'. IsHeap lay m' (ys ++ coalesce y t))
          (merge_prev lay.mem_blk_start (lay.mem_heap + total ys) here m)
  unfolding merge_prev get_state
  prev_busy here t e is =
      let row : (ys ++ y ∷ []) ++ t ≡ ys ++ coalesce y t =
        append_assoc ys (y ∷ []) t ∙ ap (λ u. ys ++ u) (sym (coalesce-first y t e)) in
      let is' : IsHeap lay m (ys ++ y ∷ t) = subst (IsHeap lay m) (append_assoc ys (y ∷ []) t) is in
      let s = (Seg-split m lay.mem_heap (lay.mem_heap + total ys) ys (y ∷ t) null refl is'.seg).1 in
      let ep : (lay.mem_heap + total ys == null) ≡ false = ground (arith, ok_lay.above) in
      rw (ep, s.1, e) (returns (subst (IsHeap lay m) row is))

  start_apart :
      (zs : List Blk) → IsHeap lay m (ys ++ y ∷ zs) → lay.mem_blk_start ≢ lay.mem_heap + total ys
  start_apart zs is e =
      absurd (omega (arith, e, ok_lay.start_apart, is.whole, total-append ys (y ∷ zs)))

  prev_free :
      (c d : Blk) (ds : List Blk)
      → is_free c.state ≡ true
      → is_free y.state ≡ true
      → IsHeap lay m ((ys ++ y ∷ []) ++ c ∷ d ∷ ds)
      → Returns
          (λ _ m'. IsHeap lay m' (ys ++ coalesce y (c ∷ d ∷ ds)))
          (merge_prev lay.mem_blk_start
            (lay.mem_heap + total ys)
            (lay.mem_heap + total (ys ++ y ∷ []))
            m)
  prev_free c d ds fc e is =
      let is' : IsHeap lay m (ys ++ y ∷ c ∷ d ∷ ds) =
        subst (IsHeap lay m) (append_assoc ys (y ∷ []) (c ∷ d ∷ ds)) is in
      let row : coalesce y (c ∷ d ∷ ds) ≡ glue y c ∷ d ∷ ds = rw (e, fc) refl in
      let at : lay.mem_heap + total (ys ++ y ∷ []) ≡ lay.mem_heap + total ys + (12 + y.size) =
        omega (arith, total-append ys (y ∷ [])) in
      subst
        (λ u.
          Returns (λ _ m'. IsHeap lay m' (ys ++ u))
            (merge_prev lay.mem_blk_start (lay.mem_heap + total ys)
              (lay.mem_heap + total (ys ++ y ∷ [])) m))
        (sym row)
        (subst
          (λ u.
            Returns (λ _ m'. IsHeap lay m' (ys ++ glue y c ∷ d ∷ ds))
              (merge_prev lay.mem_blk_start (lay.mem_heap + total ys) u m))
          (sym at)
          (merge_prev-coalesce ok_lay ys y e (lay.mem_heap + total ys) refl lay.mem_blk_start
            (start_apart (c ∷ d ∷ ds) is') c d ds fc is'))

  prev_any :
      (b : Blk) (post : List Blk)
      → EndStays (ys ++ y ∷ []) post
      → IsHeap lay m ((ys ++ y ∷ []) ++ coalesce (freed b) post)
      → Returns
          (λ _ m'. IsHeap lay m' (ys ++ coalesce y (coalesce (freed b) post)))
          (merge_prev lay.mem_blk_start
            (lay.mem_heap + total ys)
            (lay.mem_heap + total (ys ++ y ∷ []))
            m)
  prev_any b post stays is = elim (Bool-cases (is_free y.state)) [
    | inl e ↦
        let more : becomes_last post ≡ false =
          sym (ap (λ t. t && becomes_last post) (last_free-snoc ys y ∙ e)) ∙ stays in
        let f : Followed (coalesce (freed b) post) = coalesce-Followed b post more in
        subst
          (λ u.
            Returns (λ _ m'. IsHeap lay m' (ys ++ coalesce y u))
              (merge_prev lay.mem_blk_start (lay.mem_heap + total ys)
                (lay.mem_heap + total (ys ++ y ∷ [])) m))
          (sym f.split)
          (prev_free f.c f.d f.ds f.free e
            (subst (λ u. IsHeap lay m ((ys ++ y ∷ []) ++ u)) f.split is))
    | inr e ↦ prev_busy (lay.mem_heap + total (ys ++ y ∷ [])) (coalesce (freed b) post) e is
  ]

module _ {lay : Layout} (ok_lay : IsLayout lay) where
  abbrev Merged : List Blk → Blk → List Blk → Unit {0} → Mem → Type 0
  Merged pre b post _ m' = IsHeap lay m' (dealloc pre b post)

  -- the merge with the block before
  merge_prev-dealloc :
      {m : Mem} (pre : List Blk) (b : Blk) (post : List Blk)
      → EndStays pre post
      → IsHeap lay m (pre ++ coalesce (freed b) post)
      → Returns (Merged pre b post) (
          merge_prev lay.mem_blk_start
            (before lay.mem_blk_start lay.mem_heap pre)
            (lay.mem_heap + total pre)
            m)
  unfolding dealloc merge_prev get_state
  merge_prev-dealloc {m} [] b post stays is =
      let es : (lay.mem_blk_start == null) ≡ false = ground (arith, ok_lay.start_not_null) in
      elim (Bool-cases (is_free (m.state lay.mem_blk_start))) [
        | inl e ↦ rw (es, e, ==-refl lay.mem_blk_start) (returns is)
        | inr e ↦ rw (es, e) (returns is)
      ]
  merge_prev-dealloc {m} (x ∷ xs) b post stays is =
      let v : Snoc (x ∷ xs) = Snoc-view x xs in
      subst
        (λ t. Returns (Merged t b post) (
          merge_prev lay.mem_blk_start (before lay.mem_blk_start lay.mem_heap t)
            (lay.mem_heap + total t) m))
        (sym v.split)
        (rw (before-snoc lay.mem_blk_start lay.mem_heap v.init v.final) (
          subst
            (λ t.
              Returns (λ _ m'. IsHeap lay m' t)
                (merge_prev lay.mem_blk_start (lay.mem_heap + total v.init)
                  (lay.mem_heap + total (v.init ++ v.final ∷ [])) m))
            (sym (dealloc-snoc v.init v.final b post))
            (prev_any ok_lay v.init v.final b post (subst (λ t. EndStays t post) v.split stays)
              (subst (λ t. IsHeap lay m (t ++ coalesce (freed b) post)) v.split is))))

  release-dealloc :
      {m : Mem} (pre : List Blk) (b : Blk) (post : List Blk)
      → is_free b.state ≡ false
      → EndStays pre post
      → IsHeap lay m (pre ++ b ∷ post)
      → Returns (Merged pre b post) (
          release lay.mem_blk_start
            (before lay.mem_blk_start lay.mem_heap pre)
            (lay.mem_heap + total pre)
            m)
  unfolding release give_back get_size set_state
  release-dealloc {m} pre b post busy stays is =
      let here : Ptr = lay.mem_heap + total pre in
      let eh : (here == null) ≡ false = ground (arith, ok_lay.above) in
      let marked : IsHeap lay (after_mark ok_lay pre b post is busy here refl)
          (pre ++ freed b ∷ post) =
        mark-IsHeap ok_lay pre b post is busy here refl in
      rw (eh, eh, eh)
        (bind {P = λ _ m'. IsHeap lay m' (pre ++ coalesce (freed b) post)}
          (merge_next-coalesce ok_lay pre (freed b) refl here refl post marked)
          (λ _ m' is'. merge_prev-dealloc pre b post stays is'))

  -- `os_mem_free` of the payload of a busy block neither faults nor loops, and leaves the row in
  -- which that block is free and merged with its free neighbours on both sides, with the count of
  -- free bytes to match. This holds unless the block before it is free and the block, merged with
  -- the next if that is free, is the last. The heap's placement is as `IsLayout` asks.
  pub free-dealloc :
      {m : Mem} (pre : List Blk) (b : Blk) (post : List Blk)
      → is_free b.state ≡ false
      → EndStays pre post
      → IsHeap lay m (pre ++ b ∷ post)
      → Returns
          (λ _ m'. IsHeap lay m' (dealloc pre b post))
          (os_mem_free lay (lay.mem_heap + total pre + 12) m)
  free-dealloc pre b post busy stays is =
      rw (free-run ok_lay pre b post is busy (lay.mem_heap + total pre) refl)
        (release-dealloc pre b post busy stays is)
