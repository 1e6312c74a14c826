-- ===== src/Task/Robin.antt =====
-- The round robin among the tasks of the highest priority.
use mathlib.Core.Path.{subst}
use ak_m_os_the_simple_rtos.Base.{
  ℕ, ◌%◌, ◌^◌, ◌<◌, ◌≤◌, ◌≡◌, refl, sym, ap, ◌⊎◌, inl, inr, Bool, true, false, List, [], ◌∷◌, arith,
  ◌==◌, Bool-cases, ltb, if◌then◌else◌, ◌∈◌, length, Returns, returns, part-bind,
}
use ak_m_os_the_simple_rtos.OsList.{Ptr, null, Items, read}
use ak_m_os_the_simple_rtos.OsList.Ring.{IsList}
use ak_m_os_the_simple_rtos.Prio.{os_cfg_prio_max}
use ak_m_os_the_simple_rtos.Task.{Kern, Place}
use ak_m_os_the_simple_rtos.OsList.Cursor.{next_item-NextTurn, at_cursor-IsStore}
use ak_m_os_the_simple_rtos.OsList.Turn.{at_cursor}
use ak_m_os_the_simple_rtos.Task.Sched.{heads, some_item, IsSched, ready-∈}
use ak_m_os_the_simple_rtos.Task.Choose.{HasHead, find_list}
use ak_m_os_the_simple_rtos.Task.Tick.{next_of_highest}

-- What it leaves: if several tasks have the highest priority, one of them is to run next.
pub record Shared (at : Place) (c : Ptr → List Ptr) (n : ℕ) (s : Kern) (was now : Bool) (s' : Kern)
    : Type 0 where
  pub sched : IsSched at s' c n
  pub prio : ℕ
  pub bound : prio < os_cfg_prio_max
  pub top : some_item (c (at.rdy_task_list prio)) ≡ true
  pub above : (q : ℕ) → q < prio → c (at.rdy_task_list q) ≡ []
  pub switch : now ≡ (if ltb 1 (length (c (at.rdy_task_list prio))) then true else was)
  pub high :
      ((length (c (at.rdy_task_list prio)) ≤ 1) × (s'.tcb_high_rdy_ptr ≡ s.tcb_high_rdy_ptr))
      ⊎ ((x : Ptr) × (x ∈ c (at.rdy_task_list prio)) × (s'.tcb_high_rdy_ptr ≡ s.lists.owner x))
  pub only : s' ≡ record s {
    lists = record s.lists { curr = s'.lists.curr };
    tcb_high_rdy_ptr = s'.tcb_high_rdy_ptr;
  }

head_some : (xs : List Ptr) → HasHead xs → some_item xs ≡ true
head_some [] h = absurd (nil_cons h.whole)
  where
    nil_cons : [] ≡ h.head ∷ h.rest → ⊥
    nil_cons e = cc
head_some (x ∷ xs) h = refl

module _ (at : Place) (s : Kern) (c : Ptr → List Ptr) (n : ℕ) (is : IsSched at s c n) where
  cursor-Sched :
      (l x hi : Ptr)
      → l ∈ heads at
      → x ∈ c l
      → IsSched at (record s { lists = at_cursor s.lists l x; tcb_high_rdy_ptr = hi }) c n
  cursor-Sched l x hi ml mx = record {
    store = at_cursor-IsStore l x ml mx is.store;
    table = is.table;
    rows = is.rows;
    marks = is.marks;
    owned = is.owned;
    prios = is.prios;
    delay = is.delay;
    sorted = is.sorted;
    sorted_over = is.sorted_over;
    wake = is.wake;
  }

  -- The cursor of a list that is not empty is in it, or at its end marker.
  cursor_in : (l x : Ptr) (xs : List Ptr) → IsList s.lists l (x ∷ xs) → s.lists.curr l ∈ l ∷ x ∷ xs
  cursor_in l x xs li = elim li.cursor [ inl e ↦ cc | inr m ↦ m ]

  pub next_of_highest-Shared :
      (was : Bool) (q : ℕ)
      → q < os_cfg_prio_max
      → some_item (c (at.rdy_task_list q)) ≡ true
      → Returns (Shared at c n s was) (next_of_highest at was s)
  unfolding next_of_highest read
  next_of_highest-Shared was q bound one =
      find_list at s c n is q bound one (λ h. h % 2 ^ 8) (λ m lt. omega (arith, lt)) _
        (λ p fm.
          let l : Ptr = at.rdy_task_list fm.prio in
          let ml : l ∈ heads at = ready-∈ at fm.prio fm.bound in
          let li : IsList s.lists l (c l) = is.store.lists l ml in
          let nn : (l == null) ≡ false = ground (arith, li.not_null) in
          rw (nn, li.count)
            (elim (Bool-cases (ltb 1 (length (c l)))) [
              | inr e ↦ rw e (
                  returns (record {
                    sched = is;
                    prio = fm.prio;
                    bound = fm.bound;
                    top = head_some (c l) fm.first;
                    above = fm.above;
                    switch = rw e refl;
                    high = inl (ground (arith, e), refl);
                    only = refl;
                  }))
              | inl e ↦ rw e (
                  part-bind (λ h s. record s { lists = h }) s _
                    (next_item-NextTurn fm.first.head fm.first.rest
                      (subst (IsList s.lists l) fm.first.whole li)
                      (cursor_in l fm.first.head fm.first.rest
                        (subst (IsList s.lists l) fm.first.whole li)))
                    (λ o h t.
                      let mx : t.item ∈ c l =
                        subst (λ u. t.item ∈ u) (sym fm.first.whole) t.inside in
                      let put : Items → Kern = λ u. record s {
                        lists = record u { curr = h.curr };
                        tcb_high_rdy_ptr = o;
                      } in
                      returns (record {
                        sched =
                            subst
                              (λ u. IsSched at (record s { lists = u; tcb_high_rdy_ptr = o }) c n)
                              (sym t.store) (cursor-Sched l t.item o ml mx);
                        prio = fm.prio;
                        bound = fm.bound;
                        top = head_some (c l) fm.first;
                        above = fm.above;
                        switch = rw e refl;
                        high = inr (t.item, mx, t.owner);
                        only = ap put t.store;
                      })))
            ]))
