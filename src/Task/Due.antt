-- ===== src/Task/Due.antt =====
-- The rounds of the loop of `os_task_increment_tick`, which end.
use mathlib.Core.Path.{subst}
use ak_m_os_the_simple_rtos.Base.{
  ℕ, zero, suc, ◌+◌, ◌^◌, ◌<◌, ◌≤◌, ◌≡◌, refl, sym, ap, ◌∙◌, ◌≢◌, inl, inr, Bool, true, false, ◌||◌,
  List, [], ◌∷◌, ◌++◌, arith, ◌==◌, Bool-cases, leb, ltb, ◌-◌, ◌∈◌, length, update, Returns,
  returns, bind, mono,
}
use ak_m_os_the_simple_rtos.OsList.{Ptr, null, os_cfg_delay_max, read}
use ak_m_os_the_simple_rtos.OsList.Ring.{IsList}
use ak_m_os_the_simple_rtos.OsList.Sorted.{IsSorted}
use ak_m_os_the_simple_rtos.OsList.Store.{length-le-population, update_self, update_else}
use ak_m_os_the_simple_rtos.Prio.{os_cfg_prio_max}
use ak_m_os_the_simple_rtos.Task.{Kern, Place, list_is_empty}
use ak_m_os_the_simple_rtos.OsList.Sorted.{before, behind}
use ak_m_os_the_simple_rtos.Task.Sched.{heads, IsSched, IsDelay, Sched-IsDelay}
use ak_m_os_the_simple_rtos.Task.Choose.{head_owner}
use ak_m_os_the_simple_rtos.Task.Tick.{wake_due, wake_all}
use ak_m_os_the_simple_rtos.Task.Awake.{NoEvents, moved, Awake, wake_task-Awake}
use ak_m_os_the_simple_rtos.Task.Wake.{Woke, sorted-head, stop-Woke}
use ak_m_os_the_simple_rtos.Task.First.{first-Woke}

module _ (at : Place) (ts : List Ptr) (tick : ℕ) where
  delayed_list :
      (s : Kern) (c : Ptr → List Ptr) (n : ℕ)
      → IsSched at s c n
      → (xs : List Ptr) → c s.dly_task_list_ptr ≡ xs
      → IsList s.lists s.dly_task_list_ptr xs
  delayed_list s c n is xs here =
      subst (IsList s.lists s.dly_task_list_ptr) here
        (is.store.lists s.dly_task_list_ptr (Sched-IsDelay is).dly)

  not_empty :
      (s : Kern) (c : Ptr → List Ptr) (n : ℕ)
      → IsSched at s c n
      → (x : Ptr) (xs : List Ptr) → c s.dly_task_list_ptr ≡ x ∷ xs
      → 1 ≤ n
  not_empty s c n is x xs here = omega (
    arith,
    ap (λ u. length u) here,
    length-le-population (heads at) c s.dly_task_list_ptr (Sched-IsDelay is).dly,
    is.store.census,
  )

  moved-delayed :
      (s : Kern) (c : Ptr → List Ptr) (p : Ptr) (xs : List Ptr)
      → IsDelay at s
      → s.prio p < os_cfg_prio_max
      → moved at s c p xs s.dly_task_list_ptr ≡ xs
  moved-delayed s c p xs d bound =
      let l : Ptr = at.rdy_task_list (s.prio p) in
      update_else (update c s.dly_task_list_ptr xs) l s.dly_task_list_ptr
        (update c s.dly_task_list_ptr xs l ++ at.state_list_item p ∷ [])
        (d.ready_dly (s.prio p) bound)
      ∙ update_self c s.dly_task_list_ptr xs

  pub wake_due-Woke :
      (k : ℕ) (xs : List Ptr) (s : Kern) (c : Ptr → List Ptr) (n : ℕ) (b : Bool)
      → IsSched at s c n
      → NoEvents at s ts
      → c s.dly_task_list_ptr ≡ xs
      → ((x : Ptr) → x ∈ xs → s.lists.owner x ∈ ts)
      → ((x : Ptr) → x ∈ xs → s.prio (s.lists.owner x) < os_cfg_prio_max)
      → s.tcb_curr_ptr ≢ null
      → n < 2 ^ 16
      → length xs < k
      → Returns (Woke at ts tick c xs n s b) (wake_due at k tick b s)
  unfolding wake_due list_is_empty read before behind
  wake_due-Woke zero xs s c n b is none here known bound curr room more = absurd (omega arith)
  wake_due-Woke (suc k) [] s c n b is none here known bound curr room more =
      let l : IsList s.lists s.dly_task_list_ptr [] = delayed_list s c n is [] here in
      let nn : (s.dly_task_list_ptr == null) ≡ false = ground (arith, l.not_null) in
      let empty : (s.lists.num s.dly_task_list_ptr == 0) ≡ true = ground (arith, l.count) in
      rw (nn, empty)
        (returns (
          stop-Woke at ts tick s c n is none b [] os_cfg_delay_max here refl refl refl (λ x m. cc)))
  wake_due-Woke (suc k) (x ∷ xs) s c n b is none here known bound curr room more =
      let l : IsList s.lists s.dly_task_list_ptr (x ∷ xs) = delayed_list s c n is (x ∷ xs) here in
      let nn : (s.dly_task_list_ptr == null) ≡ false = ground (arith, l.not_null) in
      let full : (s.lists.num s.dly_task_list_ptr == 0) ≡ false = ground (arith, l.count) in
      let nx : (x == null) ≡ false = ground (arith, l.not_null) in
      let some_n : n ≡ suc (n - 1) = omega (arith, not_empty s c n is x xs here) in
      let is1 : IsSched at s c (suc (n - 1)) = subst (IsSched at s c) some_n is in
      let mine : at.state_list_item (s.lists.owner x) ≡ x =
        (is.owned s.dly_task_list_ptr x (Sched-IsDelay is).dly
          (subst (λ u. x ∈ u) (sym here) (ground arith))).1 in
      let bx : s.prio (s.lists.owner x) < os_cfg_prio_max = bound x (ground arith) in
      rw (nn, full, head_owner x xs l, mine, nx)
        (elim (Bool-cases (ltb tick (s.lists.value x))) [
          | inl e ↦
              let later : leb (s.lists.value x) tick ≡ false = ground (arith, e) in
              rw e (
                returns (
                  stop-Woke at ts tick s c n is none b (x ∷ xs) (s.lists.value x) here
                    (rw later refl) (rw later refl) refl
                    (λ y m.
                      sorted-head s.lists.value x xs y
                        (subst (IsSorted s.lists.value) here is.sorted) m)))
          | inr e ↦
              let soon : leb (s.lists.value x) tick ≡ true = ground (arith, e) in
              rw e (
                bind
                  (wake_task-Awake at ts s c (n - 1) is1 none x xs here bx (known x (ground arith))
                    curr (omega (arith, room, some_n)))
                  (λ ahead s2 aw1.
                    let aw : Awake at ts c (s.lists.owner x) xs n s ahead s2 =
                      subst (λ u. Awake at ts c (s.lists.owner x) xs u s ahead s2)
                        (omega (arith, some_n)) aw1 in
                    mono
                      (wake_due-Woke k xs s2 (moved at s c (s.lists.owner x) xs) n (b || ahead)
                        aw.sched aw.none
                        (ap (λ u. moved at s c (s.lists.owner x) xs u.dly_task_list_ptr) aw.only
                          ∙ moved-delayed s c (s.lists.owner x) xs (Sched-IsDelay is) bx)
                        (λ y m.
                          subst (λ u. u ∈ ts) (sym (aw.contents y).1) (known y (ground (arith, m))))
                        (λ y m.
                          subst (λ u. u < os_cfg_prio_max)
                            (sym (
                              ap (λ u. u.prio (s2.lists.owner y)) aw.only
                              ∙ ap s.prio (aw.contents y).1))
                            (bound y (ground (arith, m))))
                        (λ f. curr (sym (ap (λ u. u.tcb_curr_ptr) aw.only) ∙ f)) room
                        (omega (arith, more)))
                      (λ now s' wk.
                        first-Woke at ts tick c x xs n s s2 s' b ahead now is mine bx soon aw wk)))
        ])

  -- The loop of `os_task_increment_tick` ends without a fault and keeps the scheduler's invariant:
  -- the delayed tasks whose tick has come, and no others, stand behind the others in the ready lists
  -- of their priorities, in the order of their ticks, and are ready; the next tick to wake at is
  -- that of the first one that is left, or the greatest number. A switch is asked for if and only if
  -- one of them goes before the current task, and the task to run next is then the last one that
  -- does. The delayed tasks are among the tasks `ts`, none of which waits for an event, before or
  -- after: the event item of each is in no list, and is neither at NULL nor at the address of a
  -- list. The priorities of the delayed tasks are in range, the current task is not NULL, and the
  -- lists hold less than 2 ^ 16 items.
  pub wake_all-Woke :
      (s : Kern) (c : Ptr → List Ptr) (n : ℕ)
      → IsSched at s c n
      → NoEvents at s ts
      → ((x : Ptr) → x ∈ c s.dly_task_list_ptr → s.lists.owner x ∈ ts)
      → ((x : Ptr) → x ∈ c s.dly_task_list_ptr → s.prio (s.lists.owner x) < os_cfg_prio_max)
      → s.tcb_curr_ptr ≢ null
      → n < 2 ^ 16
      → Returns (Woke at ts tick c (c s.dly_task_list_ptr) n s false) (wake_all at tick s)
  unfolding wake_all read
  wake_all-Woke s c n is none known bound curr room =
      let l : IsList s.lists s.dly_task_list_ptr (c s.dly_task_list_ptr) =
        delayed_list s c n is (c s.dly_task_list_ptr) refl in
      let nn : (s.dly_task_list_ptr == null) ≡ false = ground (arith, l.not_null) in
      rw nn (
        wake_due-Woke (s.lists.num s.dly_task_list_ptr + 1) (c s.dly_task_list_ptr) s c n false is
          none refl known bound curr room (omega (arith, l.count)))
