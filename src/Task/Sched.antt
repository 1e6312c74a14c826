-- ===== src/Task/Sched.antt =====
-- What holds of the scheduler between two of its operations.
use mathlib.Core.Path.{subst}
use ak_m_os_the_simple_rtos.Base.{
  ℕ, zero, suc, ◌+◌, ◌<◌, ◌≤◌, ◌≡◌, sym, ap, ◌∙◌, ◌≢◌, ◌⊎◌, inl, inr, Bool, true, false, List, [],
  ◌∷◌, arith, ◌==◌, eq_of_==, Bool-cases, ◌∈◌, Distinct, length,
}
use ak_m_os_the_simple_rtos.OsList.{Ptr, null}
use ak_m_os_the_simple_rtos.OsList.Sorted.{IsSorted}
use ak_m_os_the_simple_rtos.OsList.Store.{IsStore, not_in}
use ak_m_os_the_simple_rtos.OsList.Move.{IsLoose}
use ak_m_os_the_simple_rtos.Prio.{os_cfg_prio_max}
use ak_m_os_the_simple_rtos.Prio.Table.{IsTbl, is_ready}
use ak_m_os_the_simple_rtos.Task.{Kern, Place}

-- the addresses of the ready lists, `n` of them from the priority `prio` on
abbrev pub readies : Place → ℕ → ℕ → List Ptr
readies at zero prio = []
readies at (suc n) prio = at.rdy_task_list prio ∷ readies at n (prio + 1)

-- All lists of the scheduler.
unfoldable pub heads : Place → List Ptr
heads at =
    at.dly_task_list_1 ∷ at.dly_task_list_2 ∷ at.suspended_task_list ∷ readies at os_cfg_prio_max 0

abbrev pub some_item : List Ptr → Bool
some_item [] = false
some_item (x ∷ xs) = true

-- `c` says which items each list holds, `n` how many there are in all. A priority is marked if and only if its
-- list has an item; an item belongs to the TCB that owns it, and stands in the ready list of that TCB's priority if it
-- stands in one; the two lists of delayed tasks are sorted by the tick to wake at, and `next_tick_to_unblock`
-- is not behind the first of them.
pub record IsSched (at : Place) (s : Kern) (c : Ptr → List Ptr) (n : ℕ) : Type 0 where
  pub store : IsStore s.lists (heads at) c n
  pub table : IsTbl s.tbl
  pub rows : length s.tbl ≡ 2
  pub marks : (p : ℕ) → p < os_cfg_prio_max → is_ready s.tbl p ≡ some_item (c (at.rdy_task_list p))
  pub owned :
      (l x : Ptr)
      → l ∈ heads at
      → x ∈ c l
      → (s.lists.owner x ≢ null) × (at.state_list_item (s.lists.owner x) ≡ x)
  pub prios :
      (p : ℕ) (x : Ptr)
      → p < os_cfg_prio_max
      → x ∈ c (at.rdy_task_list p)
      → s.prio (s.lists.owner x) ≡ p
  pub delay :
      ((s.dly_task_list_ptr ≡ at.dly_task_list_1)
        × (s.overflow_dly_task_list_ptr ≡ at.dly_task_list_2))
      ⊎ ((s.dly_task_list_ptr ≡ at.dly_task_list_2)
          × (s.overflow_dly_task_list_ptr ≡ at.dly_task_list_1))
  pub sorted : IsSorted s.lists.value (c s.dly_task_list_ptr)
  pub sorted_over : IsSorted s.lists.value (c s.overflow_dly_task_list_ptr)
  pub wake : (x : Ptr) → x ∈ c s.dly_task_list_ptr → s.next_tick_to_unblock ≤ s.lists.value x

-- A task whose item is in no list.
pub record IsOut (at : Place) (s : Kern) (p : Ptr) : Type 0 where
  pub not_null : p ≢ null
  pub prio : s.prio p < os_cfg_prio_max
  pub item : IsLoose s.lists (heads at) (at.state_list_item p)
  pub owner : s.lists.owner (at.state_list_item p) ≡ p

readies-∈ : (at : Place) (n i p : ℕ) → i ≤ p → p < i + n → at.rdy_task_list p ∈ readies at n i
readies-∈ at zero i p ge lt = absurd (omega arith)
readies-∈ at (suc n) i p ge lt = elim (Bool-cases (p == i)) [
  | inl e ↦
      let same : at.rdy_task_list p ≡ at.rdy_task_list i = ap at.rdy_task_list (eq_of_== p i e) in
      ground (arith, same)
  | inr e ↦ ground (arith, readies-∈ at n (i + 1) p (ground (arith, e)) (omega arith))
]

module _ (at : Place) where
  pub ready-∈ : (p : ℕ) → p < os_cfg_prio_max → at.rdy_task_list p ∈ heads at
  unfolding heads
  ready-∈ p lt = ground (arith, readies-∈ at os_cfg_prio_max 0 p (omega arith) (omega (arith, lt)))

  pub suspended-∈ : at.suspended_task_list ∈ heads at
  unfolding heads
  suspended-∈ = ground arith

  readies-apart :
      (n i p q : ℕ)
      → Distinct (readies at n i)
      → i ≤ p
      → p < i + n
      → i ≤ q
      → q < i + n
      → p ≢ q
      → at.rdy_task_list p ≢ at.rdy_task_list q
  readies-apart zero i p q d ge lt ge' lt' ne = absurd (omega arith)
  readies-apart (suc n) i p q d ge lt ge' lt' ne = elim (Bool-cases (p == i)) [
    | inl e ↦
        subst (λ t. at.rdy_task_list t ≢ at.rdy_task_list q) (sym (eq_of_== p i e))
          (not_in (at.rdy_task_list i) (at.rdy_task_list q) (readies at n (i + 1)) d.0
            (readies-∈ at n (i + 1) q (ground (arith, e)) (omega arith)))
    | inr e ↦ elim (Bool-cases (q == i)) [
      | inl e' ↦
          subst (λ t. at.rdy_task_list p ≢ at.rdy_task_list t) (sym (eq_of_== q i e'))
            (λ f.
              not_in (at.rdy_task_list i) (at.rdy_task_list p) (readies at n (i + 1)) d.0
                (readies-∈ at n (i + 1) p (ground (arith, e)) (omega arith)) (sym f))
      | inr e' ↦
          readies-apart n (i + 1) p q d.1 (ground (arith, e)) (omega arith) (ground (arith, e'))
            (omega arith) ne
    ]
  ]

  module _ (d : Distinct (heads at)) where
    pub ready-apart :
        (p q : ℕ)
        → p < os_cfg_prio_max
        → q < os_cfg_prio_max
        → p ≢ q
        → at.rdy_task_list p ≢ at.rdy_task_list q
    unfolding heads
    ready-apart p q lt lt' ne =
        readies-apart os_cfg_prio_max 0 p q d.1.1.1 (omega arith) (omega (arith, lt)) (omega arith)
          (omega (arith, lt')) ne

    others :
        (p : ℕ)
        → p < os_cfg_prio_max
        → (at.rdy_task_list p ≢ at.dly_task_list_1)
          × (at.rdy_task_list p ≢ at.dly_task_list_2)
          × (at.rdy_task_list p ≢ at.suspended_task_list)
    unfolding heads
    others p lt =
        let m : at.rdy_task_list p ∈ readies at os_cfg_prio_max 0 =
          readies-∈ at os_cfg_prio_max 0 p (omega arith) (omega (arith, lt)) in
        (
          λ e.
              not_in at.dly_task_list_1 (at.rdy_task_list p) (readies at os_cfg_prio_max 0)
                (ground (arith, d.0)) m (sym e),
          λ e.
              not_in at.dly_task_list_2 (at.rdy_task_list p) (readies at os_cfg_prio_max 0)
                (ground (arith, d.1.0)) m (sym e),
          λ e.
              not_in at.suspended_task_list (at.rdy_task_list p) (readies at os_cfg_prio_max 0)
                d.1.1.0 m (sym e),
        )

    three :
        (at.dly_task_list_1 ≢ at.dly_task_list_2)
        × (at.dly_task_list_1 ≢ at.suspended_task_list)
        × (at.dly_task_list_2 ≢ at.suspended_task_list)
    unfolding heads
    three = (ground (arith, d.0), ground (arith, d.0), ground (arith, d.1.0))

-- The current list of delayed tasks, and that of the next round of the tick counter.
pub record IsDelay (at : Place) (s : Kern) : Type 0 where
  pub dly : s.dly_task_list_ptr ∈ heads at
  pub ovf : s.overflow_dly_task_list_ptr ∈ heads at
  pub apart : s.dly_task_list_ptr ≢ s.overflow_dly_task_list_ptr
  pub ready_dly : (p : ℕ) → p < os_cfg_prio_max → s.dly_task_list_ptr ≢ at.rdy_task_list p
  pub ready_ovf : (p : ℕ) → p < os_cfg_prio_max → s.overflow_dly_task_list_ptr ≢ at.rdy_task_list p
  pub ready_susp : (p : ℕ) → p < os_cfg_prio_max → at.suspended_task_list ≢ at.rdy_task_list p
  pub susp_dly : s.dly_task_list_ptr ≢ at.suspended_task_list
  pub susp_ovf : s.overflow_dly_task_list_ptr ≢ at.suspended_task_list

pub Sched-IsDelay :
    {at : Place} {s : Kern} {c : Ptr → List Ptr} {n : ℕ} → IsSched at s c n → IsDelay at s
unfolding heads
Sched-IsDelay {at} {s} is = elim is.delay [
  | inl e ↦ record {
    dly = ground (arith, e.0);
    ovf = ground (arith, e.1);
    apart = λ f. (three at is.store.different).0 (sym e.0 ∙ f ∙ e.1);
    ready_dly = λ p lt f. (others at is.store.different p lt).0 (sym f ∙ e.0);
    ready_ovf = λ p lt f. (others at is.store.different p lt).1 (sym f ∙ e.1);
    ready_susp = λ p lt f. (others at is.store.different p lt).2 (sym f);
    susp_dly = λ f. (three at is.store.different).1 (sym e.0 ∙ f);
    susp_ovf = λ f. (three at is.store.different).2 (sym e.1 ∙ f);
  }
  | inr e ↦ record {
    dly = ground (arith, e.0);
    ovf = ground (arith, e.1);
    apart = λ f. (three at is.store.different).0 (sym e.1 ∙ sym f ∙ e.0);
    ready_dly = λ p lt f. (others at is.store.different p lt).1 (sym f ∙ e.0);
    ready_ovf = λ p lt f. (others at is.store.different p lt).0 (sym f ∙ e.1);
    ready_susp = λ p lt f. (others at is.store.different p lt).2 (sym f);
    susp_dly = λ f. (three at is.store.different).2 (sym e.0 ∙ f);
    susp_ovf = λ f. (three at is.store.different).1 (sym e.1 ∙ f);
  }
]
