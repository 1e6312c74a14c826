-- ===== src/Task/Park.antt =====
-- A task that is in no list blocks: it is suspended, or it waits.
use mathlib.Core.Path.{subst}
use ak_m_os_the_simple_rtos.Base.{
  ℕ, ◌+◌, ◌^◌, ◌<◌, ◌≡◌, refl, sym, ap, ◌≢◌, ◌⊎◌, inl, inr, Bool, ◌&&◌, List, [], ◌∷◌, ◌++◌, arith,
  ◌==◌, eq_of_==, ==_of_ne, Bool-cases, ltb, if◌then◌else◌, has-append, ◌∈◌, update, add32, Returns,
  returns, bind, part-bind,
}
use ak_m_os_the_simple_rtos.OsList.{Ptr, null, Items, os_cfg_delay_max}
use ak_m_os_the_simple_rtos.OsList.Store.{update_else}
use ak_m_os_the_simple_rtos.OsList.Move.{Moved, insert_end-Moved}
use ak_m_os_the_simple_rtos.Prio.{os_cfg_prio_max}
use ak_m_os_the_simple_rtos.Task.{TaskState, delayed, suspended, Kern, Place, set_state, block}
use ak_m_os_the_simple_rtos.OsList.Sorted.{before, behind}
use ak_m_os_the_simple_rtos.Task.Change.{Marks-else, Delays-else, change-Sched}
use ak_m_os_the_simple_rtos.Task.Sched.{heads, IsSched, IsOut, IsDelay, Sched-IsDelay, suspended-∈}
use ak_m_os_the_simple_rtos.Task.Wait.{stands}
use ak_m_os_the_simple_rtos.Task.Delay.{Sched-same, waits_in, wait_until-Waits}

-- Whether a task is suspended, and not only delayed.
abbrev pub is_endless : ℕ → Bool → Bool
is_endless delay indefinitely = delay == os_cfg_delay_max && indefinitely

-- `xs` with the item of the value `v p`, by the values `v`.
abbrev pub by_time : (Ptr → ℕ) → Ptr → List Ptr → List Ptr
by_time v p xs = before v (v p) xs ++ p ∷ behind v (v p) xs

-- The lists `c` with the item of a task that waits until the tick `wake`.
abbrev pub waiting : (Ptr → ℕ) → (Ptr → List Ptr) → Ptr → Ptr → ℕ → Ptr → List Ptr
waiting value c l item wake = update c l (by_time (update value item wake) item (c l))

-- The lists `c` with the item of a task that blocks.
abbrev pub parked : Place → Kern → (Ptr → List Ptr) → Ptr → ℕ → Bool → Ptr → List Ptr
parked at s c p delay indefinitely =
    if is_endless delay indefinitely
    then update c at.suspended_task_list (c at.suspended_task_list ++ at.state_list_item p ∷ [])
    else waiting s.lists.value c (waits_in s (add32 s.tick_count delay)) (at.state_list_item p)
        (add32 s.tick_count delay)

abbrev pub blocked_state : ℕ → Bool → TaskState
blocked_state delay indefinitely = if is_endless delay indefinitely then suspended else delayed

-- Blocking adds to no ready list.
pub parked-ready :
    (at : Place) (s : Kern) (c : Ptr → List Ptr) (p : Ptr) (delay : ℕ) (indefinitely : Bool)
    → IsDelay at s
    → (q : ℕ) → q < os_cfg_prio_max
    → parked at s c p delay indefinitely (at.rdy_task_list q) ≡ c (at.rdy_task_list q)
parked-ready at s c p delay indefinitely d q lt =
    elim (Bool-cases (is_endless delay indefinitely)) [
      | inl e ↦ rw e (
          update_else c at.suspended_task_list (at.rdy_task_list q)
            (c at.suspended_task_list ++ at.state_list_item p ∷ [])
            (λ f. d.ready_susp q lt (sym f)))
      | inr e ↦ rw e (elim (Bool-cases (ltb (add32 s.tick_count delay) s.tick_count)) [
        | inl f ↦ rw f (
            update_else c s.overflow_dly_task_list_ptr (at.rdy_task_list q)
              (items s.overflow_dly_task_list_ptr) (λ g. d.ready_ovf q lt (sym g)))
        | inr f ↦ rw f (
            update_else c s.dly_task_list_ptr (at.rdy_task_list q) (items s.dly_task_list_ptr)
              (λ g. d.ready_dly q lt (sym g)))
      ])
    ]
  where
    items : Ptr → List Ptr
    items l =
        by_time (update s.lists.value (at.state_list_item p) (add32 s.tick_count delay))
          (at.state_list_item p) (c l)

-- What `block` leaves, for a task that is in no list.
pub record Parked (at : Place) (c : Ptr → List Ptr) (p : Ptr) (n delay : ℕ) (indefinitely : Bool)
    (s s' : Kern) : Type 0 where
  pub sched : IsSched at s' (parked at s c p delay indefinitely) (n + 1)
  pub owner : (x : Ptr) → s'.lists.owner x ≡ s.lists.owner x
  pub value : (x : Ptr) → x ≢ at.state_list_item p → s'.lists.value x ≡ s.lists.value x
  pub state : s'.state ≡ update s.state p (blocked_state delay indefinitely)
  pub only : s' ≡ record s {
    lists = s'.lists;
    next_tick_to_unblock = s'.next_tick_to_unblock;
    state = s'.state;
  }

module _ (at : Place) (s : Kern) (c : Ptr → List Ptr) (n : ℕ) (is : IsSched at s c n) (p : Ptr)
    (out : IsOut at s p) (room : n + 1 < 2 ^ 16) where
  abbrev item : Ptr
  item = at.state_list_item p

  end_from : (l x : Ptr) → x ∈ c l ++ item ∷ [] → (x ∈ c l) ⊎ (x ≡ item)
  end_from l x m = elim (Bool-cases (x == item)) [
    | inl e ↦ inr (eq_of_== x item e)
    | inr e ↦ inl (ground (arith, has-append x (c l) (item ∷ []), e))
  ]

  abbrev Done : ℕ → Bool → Unit {0} → Kern → Type 0
  Done delay indefinitely u s' = Parked at c p n delay indefinitely s s'

  -- A suspended task stands behind the others.
  suspend-Sched :
      (h : Items)
      → Moved
          (heads at)
          c
          at.suspended_task_list
          item
          (c at.suspended_task_list ++ item ∷ [])
          (n + 1)
          s.lists
          h
      → IsSched at
          (record s { lists = h })
          (update c at.suspended_task_list (c at.suspended_task_list ++ item ∷ []))
          (n + 1)
  suspend-Sched h m =
      let d : IsDelay at s = Sched-IsDelay is in
      let l : Ptr = at.suspended_task_list in
      change-Sched is l item (c l ++ item ∷ []) (n + 1) h m (end_from l)
        (stands at s c n is p out l d.ready_susp) s.tbl s.next_tick_to_unblock s.state
        (Marks-else is l item (c l ++ item ∷ []) d.ready_susp)
        (Delays-else is l item (c l ++ item ∷ []) (λ e. d.susp_dly (sym e))
          (λ e. d.susp_ovf (sym e)))

  pub block-Parked :
      (delay : ℕ) (indefinitely : Bool)
      → Returns (λ _. Parked at c p n delay indefinitely s) (block at p delay indefinitely s)
  unfolding block set_state
  block-Parked delay indefinitely = elim (Bool-cases (is_endless delay indefinitely)) [
    | inl e ↦
        let fits : parked at s c p delay indefinitely
            ≡ update c at.suspended_task_list (c at.suspended_task_list ++ item ∷ []) =
          rw e refl in
        rw e (
          part-bind (λ h s. record s { lists = h }) s _
            (insert_end-Moved is.store at.suspended_task_list item (suspended-∈ at) out.item room)
            (λ _ h m. rw (==_of_ne p null out.not_null) (
              returns (record {
                sched =
                    subst
                      (λ u.
                        IsSched at (record s { lists = h; state = update s.state p suspended }) u
                          (n + 1))
                      (sym fits)
                      (Sched-same (record s { state = update s.state p suspended })
                        (suspend-Sched h m));
                owner = λ x. (m.contents x).1;
                value = λ x _. (m.contents x).0;
                state = rw e refl;
                only = refl;
              }))))
    | inr e ↦
        let fits : parked at s c p delay indefinitely
            ≡ waiting s.lists.value c (waits_in s (add32 s.tick_count delay)) item
                (add32 s.tick_count delay) =
          rw e refl in
        rw e (
          bind (wait_until-Waits at s c n is p out room (add32 s.tick_count delay) (omega arith))
            (λ _ s' w.
              let put : Kern → Kern = λ u. record u {
                lists = s'.lists;
                next_tick_to_unblock = s'.next_tick_to_unblock;
                state = update s'.state p delayed;
              } in
              rw (==_of_ne p null out.not_null) (
                returns (record {
                  sched =
                      subst
                        (λ u.
                          IsSched at (record s' { state = update s'.state p delayed }) u (n + 1))
                        (sym fits)
                        (Sched-same (record s' { state = update s'.state p delayed }) w.0);
                  owner = w.1.owner;
                  value = w.1.others;
                  state = rw e (ap (λ u. update u.state p delayed) w.2);
                  only = ap put w.2;
                }))))
  ]
