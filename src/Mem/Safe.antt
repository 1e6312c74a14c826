-- ===== src/Mem/Safe.antt =====
-- What a caller of `os_mem_malloc` may rely on.
use mathlib.Core.Path.{subst}
use ak_m_os_the_simple_rtos.Base.{
  ℕ, ◌+◌, ◌-◌, ◌%◌, ◌^◌, ◌<◌, ◌≤◌, ◌≡◌, refl, sym, ap, ◌⊎◌, inl, inr, true, false, List, [], ◌∷◌,
  ◌++◌, arith, ◌==◌, ltb, Bool-cases, Returns, mono,
}
use ak_m_os_the_simple_rtos.Mem.{
  Ptr, null, mem_state_free, mem_state_busy, is_free, Mem, Layout, mem_align, os_mem_malloc,
}
use ak_m_os_the_simple_rtos.Mem.Blocks.{Blk, Aligned, IsLayout, IsHeap}
use ak_m_os_the_simple_rtos.Mem.Spec.{fits, carve, alloc}
use ak_m_os_the_simple_rtos.Mem.Search.{NoneFits}
use ak_m_os_the_simple_rtos.Mem.Malloc.{
  LastGuarded, request, request-zero, request-pos, malloc-Allocated, mem_align-mod,
}

-- The row `bs` from the address `a` on has a busy block with `k` bytes of payload at `p`.
abbrev pub Busy : Ptr → ℕ → Ptr → List Blk → Type 0
Busy p k a [] = ⊥
Busy p k a (b ∷ bs) =
    ((p ≡ a + 12) × (k ≡ b.size) × (is_free b.state ≡ false)) ⊎ Busy p k (a + (12 + b.size)) bs

-- The payloads do not meet, and neither one reaches into the header of the other.
abbrev pub Apart : Ptr → ℕ → Ptr → ℕ → Type 0
Apart p k q j = (q + j + 12 ≤ p) ⊎ (p + k + 12 ≤ q)

-- The row `cs` is the row `bs`, with a block at `p` given out that holds `n` bytes.
pub record Given (n : ℕ) (a : Ptr) (bs cs : List Blk) (p : Ptr) : Type 0 where
  pub k : ℕ
  pub enough : n ≤ k
  pub busy : Busy p k a cs
  pub kept : (q : Ptr) (j : ℕ) → Busy q j a bs → Busy q j a cs × Apart p k q j

pub Busy-above : (q : Ptr) (j : ℕ) (a : Ptr) (bs : List Blk) → Busy q j a bs → a + 12 ≤ q
Busy-above q j a [] h = elim h [ ]
Busy-above q j a (b ∷ bs) (inl h) = omega (arith, h.0)
Busy-above q j a (b ∷ bs) (inr h) = omega (arith, Busy-above q j (a + (12 + b.size)) bs h)

pub carve-split :
    (n : ℕ) (b : Blk)
    → ltb 8 (b.size - n) ≡ true
    → carve n b
      ≡ record { size = n; state = mem_state_busy }
        ∷ record { size = b.size - n - 12; state = mem_state_free }
        ∷ []
carve-split n b e = rw e refl

pub carve-take :
    (n : ℕ) (b : Blk)
    → ltb 8 (b.size - n) ≡ false
    → carve n b ≡ record { size = b.size; state = mem_state_busy } ∷ []
carve-take n b e = rw e refl

alloc-fit :
    (n : ℕ) (a : Ptr) (b : Blk) (bs : List Blk)
    → fits n b ≡ true
    → alloc n a (b ∷ bs) ≡ (a + 12, carve n b ++ bs)
unfolding alloc
alloc-fit n a b bs e = rw e refl

alloc-unfit :
    (n : ℕ) (a : Ptr) (b : Blk) (bs : List Blk)
    → fits n b ≡ false
    → alloc n a (b ∷ bs)
      ≡ ((alloc n (a + (12 + b.size)) bs).0, b ∷ (alloc n (a + (12 + b.size)) bs).1)
unfolding alloc
alloc-unfit n a b bs e = rw e refl

-- giving out the first block of the row
carve-Given :
    (n : ℕ) (a : Ptr) (b : Blk) (bs : List Blk)
    → fits n b ≡ true
    → n % 4 ≡ 0
    → b.size % 4 ≡ 0
    → Given n a (b ∷ bs) (carve n b ++ bs) (a + 12)
carve-Given n a b bs fit al al' = elim (Bool-cases (ltb 8 (b.size - n))) [
  | inl e ↦
      subst (λ t. Given n a (b ∷ bs) (t ++ bs) (a + 12)) (sym (carve-split n b e))
        (record {
          k = n;
          enough = omega arith;
          busy = inl (refl, refl, refl);
          kept = λ q j h. elim h [
            | inl g ↦ absurd (ground (arith, fit, g.2))
            | inr g ↦
                let at : a + (12 + b.size) ≡ a + (12 + n) + (12 + (b.size - n - 12)) =
                  ground (arith, e, al, al') in
                (
                  inr (inr (subst (λ t. Busy q j t bs) at g)),
                  inr (ground (arith, Busy-above q j (a + (12 + b.size)) bs g)),
                )
          ];
        })
  | inr e ↦
      subst (λ t. Given n a (b ∷ bs) (t ++ bs) (a + 12)) (sym (carve-take n b e))
        (record {
          k = b.size;
          enough = ground (arith, fit);
          busy = inl (refl, refl, refl);
          kept = λ q j h. elim h [
            | inl g ↦ absurd (ground (arith, fit, g.2))
            | inr g ↦ (inr g, inr (ground (arith, Busy-above q j (a + (12 + b.size)) bs g)))
          ];
        })
]

pass-Given :
    (n : ℕ) (a : Ptr) (b : Blk) (bs cs : List Blk) (p : Ptr)
    → Given n (a + (12 + b.size)) bs cs p
    → Given n a (b ∷ bs) (b ∷ cs) p
pass-Given n a b bs cs p g = record {
  k = g.k;
  enough = g.enough;
  busy = inr g.busy;
  kept = λ q j h. elim h [
    | inl here ↦ (
      inl here,
      inl (ground (arith, here.0, here.1, Busy-above p g.k (a + (12 + b.size)) cs g.busy)),
    )
    | inr there ↦ (inr (g.kept q j there).0, (g.kept q j there).1)
  ];
}

-- Either no block fits and nothing is given out, or a block is.
abbrev pub Outcome : ℕ → Ptr → List Blk → Ptr × List Blk → Type 0
Outcome n a bs t = ((t.0 ≡ null) × (t.1 ≡ bs) × NoneFits n bs) ⊎ Given n a bs t.1 t.0

pub alloc-Outcome :
    (n : ℕ) (a : Ptr) (bs : List Blk) → n % 4 ≡ 0 → Aligned bs → Outcome n a bs (alloc n a bs)
unfolding alloc
alloc-Outcome n a [] al als = inl (refl, refl, tt)
alloc-Outcome n a (b ∷ bs) al als = elim (Bool-cases (fits n b)) [
  | inl e ↦
      subst (Outcome n a (b ∷ bs)) (sym (alloc-fit n a b bs e))
        (inr (carve-Given n a b bs e al als.0))
  | inr e ↦
      subst (Outcome n a (b ∷ bs)) (sym (alloc-unfit n a b bs e))
        (elim (alloc-Outcome n (a + (12 + b.size)) bs al als.1) [
          | inl h ↦ inl (h.0, ap (λ t. b ∷ t) h.1, (e, h.2))
          | inr g ↦ inr (
              pass-Given n a b bs (alloc n (a + (12 + b.size)) bs).1
                (alloc n (a + (12 + b.size)) bs).0 g)
        ])
]

mem_align-bound :
    (wanted : ℕ) → wanted < 2 ^ 32 → (mem_align wanted ≡ 0) ⊎ (wanted ≤ mem_align wanted)
mem_align-bound wanted h = omega arith

-- What `os_mem_malloc` did: nothing, as the request is empty, or wraps to nothing, or no block is large enough;
-- or a block is given out.
abbrev pub Served : Layout → ℕ → List Blk → Ptr → List Blk → Type 0
Served lay wanted bs p cs =
    ((p ≡ null) × (cs ≡ bs) × ((mem_align wanted ≡ 0) ⊎ NoneFits (mem_align wanted) bs))
    ⊎ Given wanted lay.mem_heap bs cs p

request-Served :
    (lay : Layout) (wanted : ℕ) (bs : List Blk)
    → wanted < 2 ^ 32
    → Aligned bs
    → Served lay wanted bs
        (request (mem_align wanted) lay.mem_heap bs).0
        (request (mem_align wanted) lay.mem_heap bs).1
request-Served lay wanted bs small al = elim (Bool-cases (mem_align wanted == 0)) [
  | inl e ↦
      subst (λ t. Served lay wanted bs t.0 t.1)
        (sym (request-zero (mem_align wanted) lay.mem_heap bs e))
        (inl (refl, refl, inl (ground (arith, e))))
  | inr e ↦
      subst (λ t. Served lay wanted bs t.0 t.1)
        (sym (request-pos (mem_align wanted) lay.mem_heap bs e))
        (elim (alloc-Outcome (mem_align wanted) lay.mem_heap bs (mem_align-mod wanted) al) [
          | inl h ↦ inl (h.0, h.1, inr h.2)
          | inr g ↦ inr (record {
            k = g.k;
            enough = ground (arith, mem_align-bound wanted small, e, g.enough);
            busy = g.busy;
            kept = g.kept;
          })
        ])
]

-- A call of `os_mem_malloc` with a 32-bit size, on a heap whose headers are a row of blocks that
-- fills it, neither faults nor loops, and leaves such a row. Either it gives NULL and changes no
-- block, which it does only if the aligned size is 0 or no free block is that large; or it gives the
-- address of a busy block of at least the size asked for, and each block that was busy is still
-- there and apart from it. This holds if the last block is free or smaller than the aligned size.
-- The heap's placement is as `IsLayout` asks.
pub malloc-Served :
    {lay : Layout} {m : Mem} (wanted : ℕ) (bs : List Blk)
    → IsLayout lay
    → IsHeap lay m bs
    → LastGuarded (mem_align wanted) bs
    → wanted < 2 ^ 32
    → Returns
        (λ p m'. (cs : List Blk) × IsHeap lay m' cs × Served lay wanted bs p cs)
        (os_mem_malloc lay wanted m)
malloc-Served {lay} wanted bs ok_lay is guarded small =
    mono (malloc-Allocated wanted bs ok_lay is guarded) (λ p m' h. (
      (request (mem_align wanted) lay.mem_heap bs).1,
      h.1,
      subst (λ t. Served lay wanted bs t (request (mem_align wanted) lay.mem_heap bs).1) (sym h.0)
          (request-Served lay wanted bs small is.aligned),
    ))
