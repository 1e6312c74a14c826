-- ===== src/Task/Change.antt =====
-- The scheduler's invariant after one of its lists has changed.
use mathlib.Core.Path.{subst}
use ak_m_os_the_simple_rtos.Base.{
  ℕ, ◌<◌, ◌≤◌, ◌≡◌, refl, sym, ap, ◌∙◌, ◌≢◌, ◌⊎◌, inl, inr, List, ◌==◌, eq_of_==, ne_of_==,
  Bool-cases, if◌then◌else◌, ◌∈◌, length, update,
}
use ak_m_os_the_simple_rtos.OsList.{Ptr, null, Items}
use ak_m_os_the_simple_rtos.OsList.Sorted.{IsSorted, IsSorted-same}
use ak_m_os_the_simple_rtos.OsList.Store.{update_self, update_else}
use ak_m_os_the_simple_rtos.OsList.Move.{Moved}
use ak_m_os_the_simple_rtos.Prio.{Tbl, os_cfg_prio_max}
use ak_m_os_the_simple_rtos.Prio.Table.{IsTbl, is_ready}
use ak_m_os_the_simple_rtos.Task.{TaskState, Kern, Place}
use ak_m_os_the_simple_rtos.Task.Sched.{heads, some_item, IsSched, ready-apart}

-- The bitmap agrees with the ready lists.
pub record Marks (at : Place) (c : Ptr → List Ptr) (t : Tbl) : Type 0 where
  pub table : IsTbl t
  pub rows : length t ≡ 2
  pub marks : (p : ℕ) → p < os_cfg_prio_max → is_ready t p ≡ some_item (c (at.rdy_task_list p))

-- The lists of delayed tasks agree with the next tick to wake at.
pub record Delays (s : Kern) (c : Ptr → List Ptr) (w : ℕ) : Type 0 where
  pub sorted : IsSorted s.lists.value (c s.dly_task_list_ptr)
  pub sorted_over : IsSorted s.lists.value (c s.overflow_dly_task_list_ptr)
  pub wake : (x : Ptr) → x ∈ c s.dly_task_list_ptr → w ≤ s.lists.value x

-- An item of a task that may stand in the list `l`.
pub record MayStand (at : Place) (s : Kern) (l item : Ptr) : Type 0 where
  pub owned : (s.lists.owner item ≢ null) × (at.state_list_item (s.lists.owner item) ≡ item)
  pub prio :
      (q : ℕ) → q < os_cfg_prio_max → at.rdy_task_list q ≡ l → s.prio (s.lists.owner item) ≡ q

module _ {at : Place} {s : Kern} {c : Ptr → List Ptr} {n : ℕ} (is : IsSched at s c n) (l item : Ptr)
    (xs : List Ptr) where
  -- The marks and the delays, where the list is neither a ready list nor that of delayed tasks.
  pub Marks-else :
      ((q : ℕ) → q < os_cfg_prio_max → l ≢ at.rdy_task_list q) → Marks at (update c l xs) s.tbl
  Marks-else ne = record {
    table = is.table;
    rows = is.rows;
    marks =
        λ q lt. rw (update_else c l (at.rdy_task_list q) xs (λ e. ne q lt (sym e))) (is.marks q lt);
  }

  pub Marks-at :
      (prio : ℕ) (t : Tbl)
      → prio < os_cfg_prio_max
      → l ≡ at.rdy_task_list prio
      → IsTbl t
      → length t ≡ 2
      → ((q : ℕ) → is_ready t q ≡ (if q == prio then some_item xs else is_ready s.tbl q))
      → Marks at (update c l xs) t
  Marks-at prio t bound same table rows marked = record {
    table = table;
    rows = rows;
    marks = λ q lt. elim (Bool-cases (q == prio)) [
      | inl e ↦
          let here : update c l xs (at.rdy_task_list q) ≡ xs =
            ap (update c l xs) (ap at.rdy_task_list (eq_of_== q prio e) ∙ sym same)
            ∙ update_self c l xs in
          rw (marked q, e, here) refl
      | inr e ↦
          let ne : at.rdy_task_list q ≢ l =
            λ f. ready-apart at is.store.different q prio lt bound (ne_of_== q prio e) (f ∙ same) in
          rw (marked q, e, update_else c l (at.rdy_task_list q) xs ne) (is.marks q lt)
    ];
  }

  pub Delays-else :
      l ≢ s.dly_task_list_ptr
      → l ≢ s.overflow_dly_task_list_ptr
      → Delays s (update c l xs) s.next_tick_to_unblock
  Delays-else nd nv =
      let d : update c l xs s.dly_task_list_ptr ≡ c s.dly_task_list_ptr =
        update_else c l s.dly_task_list_ptr xs (λ e. nd (sym e)) in
      let o : update c l xs s.overflow_dly_task_list_ptr ≡ c s.overflow_dly_task_list_ptr =
        update_else c l s.overflow_dly_task_list_ptr xs (λ e. nv (sym e)) in
      record {
        sorted = subst (IsSorted s.lists.value) (sym d) is.sorted;
        sorted_over = subst (IsSorted s.lists.value) (sym o) is.sorted_over;
        wake = λ x m. is.wake x (subst (λ u. x ∈ u) d m);
      }

  module _ (n' : ℕ) (h : Items) (m : Moved (heads at) c l item xs n' s.lists h)
      (from : (x : Ptr) → x ∈ xs → (x ∈ c l) ⊎ (x ≡ item)) (may : MayStand at s l item) where
    -- Where an item of a list was before.
    member : (k x : Ptr) → x ∈ update c l xs k → (x ∈ c k) ⊎ ((k ≡ l) × (x ≡ item))
    member k x mx = elim (Bool-cases (k == l)) [
      | inr e ↦ inl (subst (λ u. x ∈ u) (update_else c l k xs (ne_of_== k l e)) mx)
      | inl e ↦
          let same : k ≡ l = eq_of_== k l e in
          elim (from x (subst (λ u. x ∈ u) (ap (update c l xs) same ∙ update_self c l xs) mx)) [
            | inl old ↦ inl (subst (λ u. x ∈ c u) (sym same) old)
            | inr new ↦ inr (same, new)
          ]
    ]

    pub change-Sched :
        (t : Tbl) (w : ℕ) (st : Ptr → TaskState)
        → Marks at (update c l xs) t
        → Delays s (update c l xs) w
        → IsSched at
            (record s { lists = h; tbl = t; state = st; next_tick_to_unblock = w })
            (update c l xs)
            n'
    change-Sched t w st marks delays = record {
      store = m.store;
      table = marks.table;
      rows = marks.rows;
      marks = marks.marks;
      owned = λ k x mk mx.
          subst (λ u. (u ≢ null) × (at.state_list_item u ≡ x)) (sym (m.contents x).1)
            (elim (member k x mx) [
              | inl old ↦ is.owned k x mk old
              | inr new ↦
                  subst (λ u. (s.lists.owner u ≢ null) × (at.state_list_item (s.lists.owner u) ≡ u))
                    (sym new.1) may.owned
            ]);
      prios = λ q x lt mx. ap s.prio (m.contents x).1 ∙ elim (member (at.rdy_task_list q) x mx) [
        | inl old ↦ is.prios q x lt old
        | inr new ↦ ap (λ u. s.prio (s.lists.owner u)) new.1 ∙ may.prio q lt new.0
      ];
      delay = is.delay;
      sorted =
          IsSorted-same s.lists.value h.value (update c l xs s.dly_task_list_ptr)
            (λ a. (m.contents a).0) delays.sorted;
      sorted_over =
          IsSorted-same s.lists.value h.value (update c l xs s.overflow_dly_task_list_ptr)
            (λ a. (m.contents a).0) delays.sorted_over;
      wake = λ x mx. subst (λ u. w ≤ u) (sym (m.contents x).0) (delays.wake x mx);
    }
