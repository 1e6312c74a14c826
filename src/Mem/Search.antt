-- ===== src/Mem/Search.antt =====
-- Where the search of `os_mem_malloc` stops, on any heap.
use native.Mathlib.Nat.{add-zero}
use ak_m_os_the_simple_rtos.Base.{
  ℕ, zero, suc, ◌+◌, ◌<◌, ◌≤◌, ◌≡◌, refl, ap, ◌∙◌, ◌⊎◌, inl, inr, true, false, not, ◌||◌, List, [],
  ◌∷◌, ◌++◌, arith, ◌==◌, ==-refl, length, ltb, Bool-cases, ok,
}
use ak_m_os_the_simple_rtos.Mem.{Ptr, null, is_free, Mem, first_fit, get_size, get_state, get_next}
use ak_m_os_the_simple_rtos.Mem.Blocks.{Blk, total, Seg, link, last_at}
use ak_m_os_the_simple_rtos.Mem.Spec.{fits}

abbrev pub NoneFits : ℕ → List Blk → Type 0
NoneFits n [] = Unit
NoneFits n (b ∷ bs) = (fits n b ≡ false) × NoneFits n bs

-- The search stops at `b`, which is the first block that fits, or else the last of all.
pub record Stop (n : ℕ) (bs : List Blk) : Type 0 where
  pub pre : List Blk
  pub b : Blk
  pub post : List Blk
  pub split : bs ≡ pre ++ b ∷ post
  pub passed : NoneFits n pre
  pub reason : (fits n b ≡ true) ⊎ (post ≡ [])

pub last_at-le : (a : Ptr) (b : Blk) (bs : List Blk) → a ≤ last_at a (b ∷ bs)
last_at-le a b [] = omega arith
last_at-le a b (c ∷ bs) = omega (arith, last_at-le (a + (12 + b.size)) c bs)

-- The place that the search stops at.
pub stop : (n : ℕ) (b : Blk) (bs : List Blk) → Stop n (b ∷ bs)
stop n b [] = record { pre = []; b = b; post = []; split = refl; passed = tt; reason = inr refl }
stop n b (c ∷ bs) = elim (Bool-cases (fits n b)) [
  | inl e ↦ record { pre = []; b = b; post = c ∷ bs; split = refl; passed = tt; reason = inl e }
  | inr e ↦
      let s : Stop n (c ∷ bs) = stop n c bs in
      record {
        pre = b ∷ s.pre;
        b = s.b;
        post = s.post;
        split = ap (λ t. b ∷ t) s.split;
        passed = (e, s.passed);
        reason = s.reason;
      }
]

unfit_test : (n : ℕ) (b : Blk) → (ltb b.size n || not (is_free b.state)) ≡ not (fits n b)
unfit_test n b = ground arith

link-middle :
    (a : Ptr) (pre : List Blk) (b : Blk) (post : List Blk) (z : Ptr)
    → link a (pre ++ b ∷ post) z ≡ a
link-middle a [] b post z = refl
link-middle a (x ∷ pre) b post z = refl

last_at-middle :
    (a : Ptr) (x : Blk) (pre : List Blk) (b : Blk) (post : List Blk)
    → last_at a (x ∷ (pre ++ b ∷ post)) ≡ last_at (a + (12 + x.size)) (pre ++ b ∷ post)
last_at-middle a x [] b post = refl
last_at-middle a x (y ∷ pre) b post = refl

-- A block that is not the last lies below the last.
below_last :
    (a : Ptr) (pre : List Blk) (b : Blk) (post : List Blk) → a ≤ last_at a (pre ++ b ∷ post)
below_last a [] b post = last_at-le a b post
below_last a (x ∷ pre) b post = last_at-le a x (pre ++ b ∷ post)

pub first_fit-pre :
    (k n : ℕ) (a : Ptr) (m : Mem) (pre : List Blk) (b : Blk) (post : List Blk)
    → Seg m a (pre ++ b ∷ post) null
    → m.end_ptr ≡ last_at a (pre ++ b ∷ post)
    → 0 < a
    → length pre < k
    → NoneFits n pre
    → (fits n b ≡ true) ⊎ (post ≡ [])
    → first_fit k n a m ≡ ok (a + total pre) m
unfolding first_fit get_size get_state get_next
first_fit-pre zero n a m pre b post s e pos lt passed reason = absurd (omega arith)
first_fit-pre (suc k) n a m [] b post s e pos lt passed (inr alone) =
    let at_end : (a == m.end_ptr) ≡ true = rw (e, alone) (==-refl a) in rw (at_end, add-zero)
first_fit-pre (suc k) n a m [] b post s e pos lt passed (inl fit) =
    let ea : (a == null) ≡ false = ground arith in
    elim (Bool-cases (a == m.end_ptr)) [
      | inl at_end ↦ rw (at_end, add-zero)
      | inr more ↦ rw (more, ea, s.0, ea, s.1, unfit_test n b, fit, add-zero)
    ]
first_fit-pre (suc k) n a m (x ∷ pre) b post s e pos lt passed reason =
    let ea : (a == null) ≡ false = ground arith in
    let end : m.end_ptr ≡ last_at (a + (12 + x.size)) (pre ++ b ∷ post) =
      e ∙ last_at-middle a x pre b post in
    let ne : (a == m.end_ptr) ≡ false = ground (arith, below_last (a + (12 + x.size)) pre b post) in
    let rest =
      first_fit-pre k n (a + (12 + x.size)) m pre b post s.3 end (omega arith) (omega arith)
        passed.1 reason in
    let sum : a + (12 + x.size + total pre) ≡ a + (12 + x.size) + total pre = omega arith in
    rw (ne, ea, ea, s.0, s.1, unfit_test n x, passed.0, ea, s.2, link-middle, sum) rest
