-- ===== src/Task/Advance.antt =====
-- The next tick, and the change of the two lists of delayed tasks when the count wraps.
use mathlib.Core.Path.{subst}
use ak_m_os_the_simple_rtos.Base.{
  ℕ, ◌≤◌, ◌≡◌, refl, sym, inl, inr, false, List, [], ◌∷◌, arith, ◌==◌, if◌then◌else◌, ◌∈◌, add32,
  ok,
}
use ak_m_os_the_simple_rtos.OsList.{Ptr, null, read}
use ak_m_os_the_simple_rtos.OsList.Ring.{IsList}
use ak_m_os_the_simple_rtos.OsList.Sorted.{IsSorted}
use ak_m_os_the_simple_rtos.Task.{Kern, Place, list_is_empty, task_switch_delay_lists}
use ak_m_os_the_simple_rtos.Task.Sched.{IsSched, Sched-IsDelay}
use ak_m_os_the_simple_rtos.Task.Choose.{head_owner}
use ak_m_os_the_simple_rtos.Task.Wake.{first_value, sorted-head}

-- The state in which the new round of the tick counter begins.
abbrev pub turned_over : Kern → (Ptr → List Ptr) → Kern
turned_over s c = record s {
  dly_task_list_ptr = s.overflow_dly_task_list_ptr;
  overflow_dly_task_list_ptr = s.dly_task_list_ptr;
  next_tick_to_unblock = first_value s.lists.value (c s.overflow_dly_task_list_ptr);
}

module _ (at : Place) (s : Kern) (c : Ptr → List Ptr) (n : ℕ) (is : IsSched at s c n) where
  first_least :
      (x : Ptr) (xs : List Ptr)
      → IsSorted s.lists.value xs
      → x ∈ xs
      → first_value s.lists.value xs ≤ s.lists.value x
  first_least x [] sorted m = cc
  first_least x (y ∷ xs) sorted m = sorted-head s.lists.value y xs x sorted m

  pub turned-Sched : IsSched at (turned_over s c) c n
  turned-Sched = record {
    store = is.store;
    table = is.table;
    rows = is.rows;
    marks = is.marks;
    owned = is.owned;
    prios = is.prios;
    delay = elim is.delay [ inl e ↦ inr (e.1, e.0) | inr e ↦ inl (e.1, e.0) ];
    sorted = is.sorted_over;
    sorted_over = is.sorted;
    wake = λ x m. first_least x (c s.overflow_dly_task_list_ptr) is.sorted_over m;
  }

  pub switch_delay_lists-turns : task_switch_delay_lists at s ≡ ok tt (turned_over s c)
  unfolding task_switch_delay_lists list_is_empty read
  switch_delay_lists-turns = go (c s.overflow_dly_task_list_ptr) refl
    where
      go :
          (xs : List Ptr)
          → c s.overflow_dly_task_list_ptr ≡ xs
          → task_switch_delay_lists at s ≡ ok tt (turned_over s c)
      go [] here =
          let l : IsList s.lists s.overflow_dly_task_list_ptr [] =
            subst (IsList s.lists s.overflow_dly_task_list_ptr) here
              (is.store.lists s.overflow_dly_task_list_ptr (Sched-IsDelay is).ovf) in
          let nn : (s.overflow_dly_task_list_ptr == null) ≡ false = ground (arith, l.not_null) in
          rw (nn, l.count, here) refl
      go (x ∷ xs) here =
          let l : IsList s.lists s.overflow_dly_task_list_ptr (x ∷ xs) =
            subst (IsList s.lists s.overflow_dly_task_list_ptr) here
              (is.store.lists s.overflow_dly_task_list_ptr (Sched-IsDelay is).ovf) in
          let nn : (s.overflow_dly_task_list_ptr == null) ≡ false = ground (arith, l.not_null) in
          let full : (s.lists.num s.overflow_dly_task_list_ptr == 0) ≡ false =
            ground (arith, l.count) in
          let nx : (x == null) ≡ false = ground (arith, l.not_null) in
          let mine : at.state_list_item (s.lists.owner x) ≡ x =
            (is.owned s.overflow_dly_task_list_ptr x (Sched-IsDelay is).ovf
              (subst (λ u. x ∈ u) (sym here) (ground arith))).1 in
          rw (nn, full, head_owner x xs l, mine, nx, here) refl

-- The state with the next tick, in a new round if the count has wrapped.
abbrev pub next_tick : Kern → ℕ
next_tick s = add32 s.tick_count 1

abbrev pub advanced : Kern → (Ptr → List Ptr) → Kern
advanced s c =
    if next_tick s == 0
    then turned_over (record s { tick_count = next_tick s }) c
    else record s { tick_count = next_tick s }
