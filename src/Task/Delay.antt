-- ===== src/Task/Delay.antt =====
-- A task that blocks goes to the list of delayed or of suspended tasks that fits its delay.
use mathlib.Core.Path.{subst}
use ak_m_os_the_simple_rtos.Base.{
  ℕ, ◌+◌, ◌^◌, ◌<◌, ◌≤◌, ◌≡◌, refl, sym, ◌∙◌, ◌≢◌, inl, inr, List, arith, ==_of_ne, Bool-cases, ltb,
  if◌then◌else◌, ◌∈◌, update, Returns, returns, part-bind, part-last,
}
use ak_m_os_the_simple_rtos.OsList.{Ptr, null, Items, write, os_list_insert}
use ak_m_os_the_simple_rtos.OsList.Ring.{SameContents}
use ak_m_os_the_simple_rtos.OsList.Sorted.{placed, IsSorted, placed-IsSorted}
use ak_m_os_the_simple_rtos.OsList.Store.{update_self, update_else}
use ak_m_os_the_simple_rtos.OsList.Move.{Moved, insert-Moved}
use ak_m_os_the_simple_rtos.Prio.{os_cfg_prio_max}
use ak_m_os_the_simple_rtos.Task.{Kern, Place, wait_until}
use native.Mathlib.Nat.{mod-eq_of_lt}
use ak_m_os_the_simple_rtos.Task.Change.{Delays, Marks-else, change-Sched}
use ak_m_os_the_simple_rtos.Task.Sched.{heads, IsSched, IsOut, IsDelay, Sched-IsDelay}
use ak_m_os_the_simple_rtos.Task.Wait.{valued, value-Sched, value-IsOut, stands, placed_from}

-- The invariant reads the lists, the bitmap, the priorities and where and when the delayed tasks wake.
pub Sched-same :
    {at : Place} {s : Kern} {c : Ptr → List Ptr} {n : ℕ} (t : Kern)
    → IsSched at s c n
    → IsSched at
        (record t {
          lists = s.lists;
          tbl = s.tbl;
          prio = s.prio;
          dly_task_list_ptr = s.dly_task_list_ptr;
          overflow_dly_task_list_ptr = s.overflow_dly_task_list_ptr;
          next_tick_to_unblock = s.next_tick_to_unblock;
        })
        c
        n
Sched-same t is = record {
  store = is.store;
  table = is.table;
  rows = is.rows;
  marks = is.marks;
  owned = is.owned;
  prios = is.prios;
  delay = is.delay;
  sorted = is.sorted;
  sorted_over = is.sorted_over;
  wake = is.wake;
}

-- Where a task goes that is to wake at `wake`.
abbrev pub waits_in : Kern → ℕ → Ptr
waits_in s wake =
    if ltb wake s.tick_count then s.overflow_dly_task_list_ptr else s.dly_task_list_ptr

-- Values and owners but the value of the item of `p`, which is to wake at `wake`.
pub record Woken (item wake : ℕ) (s s' : Kern) : Type 0 where
  pub value : s'.lists.value item ≡ wake
  pub others : (x : Ptr) → x ≢ item → s'.lists.value x ≡ s.lists.value x
  pub owner : (x : Ptr) → s'.lists.owner x ≡ s.lists.owner x

-- Only the lists and the next tick to wake at have changed.
abbrev pub OnlyWait : Kern → Kern → Type 0
OnlyWait s s' = s' ≡ record s { lists = s'.lists; next_tick_to_unblock = s'.next_tick_to_unblock }

-- A task is inserted into a list that is no ready list.
module _ (at : Place) (s : Kern) (c : Ptr → List Ptr) (n : ℕ) (is : IsSched at s c n) (p : Ptr)
    (out : IsOut at s p) (room : n + 1 < 2 ^ 16) where
  abbrev item : Ptr
  item = at.state_list_item p

  abbrev into : Ptr → Ptr → List Ptr
  into l = update c l (placed s.lists item (c l))

  into_dly :
      (w : ℕ)
      → w ≤ s.next_tick_to_unblock
      → w ≤ s.lists.value item
      → Delays s (into s.dly_task_list_ptr) w
  into_dly w le le' =
      let d : IsDelay at s = Sched-IsDelay is in
      let l : Ptr = s.dly_task_list_ptr in
      let here : into l l ≡ placed s.lists item (c l) =
        update_self c l (placed s.lists item (c l)) in
      let o : into l s.overflow_dly_task_list_ptr ≡ c s.overflow_dly_task_list_ptr =
        update_else c l s.overflow_dly_task_list_ptr (placed s.lists item (c l))
          (λ e. d.apart (sym e)) in
      record {
        sorted =
            subst (IsSorted s.lists.value) (sym here)
              (placed-IsSorted s.lists.value item (c l) is.sorted);
        sorted_over = subst (IsSorted s.lists.value) (sym o) is.sorted_over;
        wake = λ x m. elim (placed_from at s c n is p out l x (subst (λ u. x ∈ u) here m)) [
          | inl old ↦ omega (arith, is.wake x old, le)
          | inr new ↦ subst (λ u. w ≤ s.lists.value u) (sym new) le'
        ];
      }

  into_ovf : Delays s (into s.overflow_dly_task_list_ptr) s.next_tick_to_unblock
  into_ovf =
      let d : IsDelay at s = Sched-IsDelay is in
      let l : Ptr = s.overflow_dly_task_list_ptr in
      let here : into l l ≡ placed s.lists item (c l) =
        update_self c l (placed s.lists item (c l)) in
      let o : into l s.dly_task_list_ptr ≡ c s.dly_task_list_ptr =
        update_else c l s.dly_task_list_ptr (placed s.lists item (c l)) d.apart in
      record {
        sorted = subst (IsSorted s.lists.value) (sym o) is.sorted;
        sorted_over =
            subst (IsSorted s.lists.value) (sym here)
              (placed-IsSorted s.lists.value item (c l) is.sorted_over);
        wake = λ x m. is.wake x (subst (λ u. x ∈ u) o m);
      }

  into-Sched :
      (l : Ptr) (h : Items)
      → Moved (heads at) c l item (placed s.lists item (c l)) (n + 1) s.lists h
      → ((q : ℕ) → q < os_cfg_prio_max → l ≢ at.rdy_task_list q)
      → (w : ℕ) → Delays s (into l) w
      → IsSched at (record s { lists = h; next_tick_to_unblock = w }) (into l) (n + 1)
  into-Sched l h m ne w delays =
      change-Sched is l item (placed s.lists item (c l)) (n + 1) h m
        (placed_from at s c n is p out l) (stands at s c n is p out l ne) s.tbl w s.state
        (Marks-else is l item (placed s.lists item (c l)) ne) delays

module _ (at : Place) (s : Kern) (c : Ptr → List Ptr) (n : ℕ) (is : IsSched at s c n) (p : Ptr)
    (out : IsOut at s p) (room : n + 1 < 2 ^ 16) (wake : ℕ) (word : wake < 2 ^ 32) where
  -- the state in which the item has its value
  abbrev timed : Kern
  timed = record s { lists = valued at s c n is p out wake }

  timed-Sched : IsSched at timed c n
  timed-Sched = value-Sched at s c n is p out wake

  timed-IsOut : IsOut at timed p
  timed-IsOut = value-IsOut at s c n is p out wake word

  abbrev in_list : Ptr → Ptr → List Ptr
  in_list l = update c l (placed timed.lists (at.state_list_item p) (c l))

  -- What the insertion into the list `l` leaves.
  inserted :
      (l : Ptr)
      → l ∈ heads at
      → Returns
          (λ _.
            Moved
              (heads at)
              c
              l
              (at.state_list_item p)
              (placed timed.lists (at.state_list_item p) (c l))
              (n + 1)
              timed.lists)
          (os_list_insert l (at.state_list_item p) timed.lists)
  inserted l ml = insert-Moved timed-Sched.store l (at.state_list_item p) ml timed-IsOut.item room

  inserted-Woken :
      {h : Items} (w : ℕ)
      → SameContents timed.lists h
      → Woken (at.state_list_item p) wake s (record s { lists = h; next_tick_to_unblock = w })
  inserted-Woken w same = record {
    value = (same (at.state_list_item p)).0 ∙ update_self s.lists.value (at.state_list_item p) wake;
    others = λ x ne. (same x).0 ∙ update_else s.lists.value (at.state_list_item p) x wake ne;
    owner = λ x. (same x).1;
  }

  abbrev Waits : Ptr → Unit {0} → Kern → Type 0
  Waits l u s' =
      IsSched at s' (in_list l) (n + 1) × Woken (at.state_list_item p) wake s s' × OnlyWait s s'

  pub wait_until-Waits : Returns (Waits (waits_in s wake)) (wait_until at p s.tick_count wake s)
  unfolding wait_until write
  wait_until-Waits =
      let d : IsDelay at s = Sched-IsDelay is in
      rw (==_of_ne (at.state_list_item p) null out.item.not_null, mod-eq_of_lt word)
        (elim (Bool-cases (ltb wake s.tick_count)) [
          | inl e ↦ rw e (
              part-last (λ h s. record s { lists = h }) timed
                (inserted s.overflow_dly_task_list_ptr d.ovf)
                (λ _ h m. (
                  into-Sched at timed c n timed-Sched p timed-IsOut room
                      s.overflow_dly_task_list_ptr h m d.ready_ovf s.next_tick_to_unblock
                      (into_ovf at timed c n timed-Sched p timed-IsOut room),
                  inserted-Woken s.next_tick_to_unblock m.contents,
                  refl,
                )))
          | inr e ↦ rw e (
              part-bind (λ h s. record s { lists = h }) timed _ (inserted s.dly_task_list_ptr d.dly)
                (λ _ h m.
                  let done : (w : ℕ)
                      → w ≤ s.next_tick_to_unblock
                      → w ≤ wake
                      → Waits s.dly_task_list_ptr tt
                          (record s { lists = h; next_tick_to_unblock = w }) =
                    λ w le le'. (
                      into-Sched at timed c n timed-Sched p timed-IsOut room s.dly_task_list_ptr h m
                          d.ready_dly w
                          (into_dly at timed c n timed-Sched p timed-IsOut room w le (
                            subst (λ u. w ≤ u)
                              (sym (update_self s.lists.value (at.state_list_item p) wake)) le')),
                      inserted-Woken w m.contents,
                      refl,
                    ) in
                  elim (Bool-cases (ltb wake s.next_tick_to_unblock)) [
                    | inl f ↦ rw f (returns (done wake (ground (arith, f)) (omega arith)))
                    | inr f ↦
                        rw f
                          (returns (done s.next_tick_to_unblock (omega arith) (ground (arith, f))))
                  ]))
        ])
