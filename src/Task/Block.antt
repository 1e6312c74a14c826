-- ===== src/Task/Block.antt =====
-- What blocking the current task does: `add_curr_task_to_delay_list` and `os_task_delay`.
use mathlib.Core.Path.{subst, fun_ext}
use ak_m_os_the_simple_rtos.Base.{
  ℕ, suc, ◌+◌, ◌^◌, ◌<◌, ◌≡◌, sym, ap, ◌∙◌, ◌≢◌, Bool, true, List, ◌++◌, arith, update, Returns,
  bind, mono,
}
use ak_m_os_the_simple_rtos.OsList.{Ptr}
use ak_m_os_the_simple_rtos.Prio.{os_cfg_prio_max}
use ak_m_os_the_simple_rtos.Task.{running, Kern, Place, add_curr_task_to_delay_list}
use ak_m_os_the_simple_rtos.Task.Sched.{some_item, IsSched, Sched-IsDelay}
use ak_m_os_the_simple_rtos.Task.Leave.{IsReady, left, Left, leave_ready-Left}
use ak_m_os_the_simple_rtos.Task.Delay.{Sched-same}
use ak_m_os_the_simple_rtos.Task.Choose.{Foremost, choose_highest-Chosen}
use ak_m_os_the_simple_rtos.Task.Park.{parked, blocked_state, Parked, parked-ready, block-Parked}

-- What `add_curr_task_to_delay_list` leaves.
pub record Blocked (at : Place) (c : Ptr → List Ptr) (rest : List Ptr) (n delay : ℕ)
    (indefinitely : Bool) (s s' : Kern) : Type 0 where
  pub sched :
      IsSched at s'
        (parked at s (left at s c s.tcb_curr_ptr rest) s.tcb_curr_ptr delay indefinitely)
        (n + 1)
  pub next :
      Foremost at
        (parked at s (left at s c s.tcb_curr_ptr rest) s.tcb_curr_ptr delay indefinitely)
        s'
        s'.tcb_high_rdy_ptr
  pub owner : (x : Ptr) → s'.lists.owner x ≡ s.lists.owner x
  pub value : (x : Ptr) → x ≢ at.state_list_item s.tcb_curr_ptr → s'.lists.value x ≡ s.lists.value x
  pub state :
      s'.state
      ≡ update
          (update s.state s.tcb_curr_ptr (blocked_state delay indefinitely))
          s'.tcb_high_rdy_ptr
          running
  pub only : s' ≡ record s {
    lists = s'.lists;
    tbl = s'.tbl;
    next_tick_to_unblock = s'.next_tick_to_unblock;
    state = s'.state;
    tcb_high_rdy_ptr = s'.tcb_high_rdy_ptr;
  }

module _ (at : Place) (s : Kern) (c : Ptr → List Ptr) (n : ℕ) (is : IsSched at s c (suc n))
    (xs ys : List Ptr) (rd : IsReady at s c s.tcb_curr_ptr xs ys) (room : suc n < 2 ^ 16) where
  abbrev p : Ptr
  p = s.tcb_curr_ptr

  abbrev rest : Ptr → List Ptr
  rest = left at s c p (xs ++ ys)

  -- A task that is ready beside the current one.
  module _ (delay : ℕ) (indefinitely : Bool) (q : ℕ) (bound : q < os_cfg_prio_max)
      (one : some_item (rest (at.rdy_task_list q)) ≡ true) where
    abbrev then_ : Ptr → List Ptr
    then_ = parked at s rest p delay indefinitely

    still_ready : some_item (then_ (at.rdy_task_list q)) ≡ true
    still_ready =
        ap some_item (parked-ready at s rest p delay indefinitely (Sched-IsDelay is) q bound) ∙ one

    -- The removal has left alone what decides where the task goes.
    same_place :
        (s1 : Kern)
        → ((x : Ptr) → s1.lists.value x ≡ s.lists.value x)
        → s1 ≡ record s { lists = s1.lists; tbl = s1.tbl }
        → parked at s1 rest p delay indefinitely ≡ then_
    same_place s1 values only =
        ap (λ u. parked at u rest p delay indefinitely) only
        ∙ ap
            (λ v.
              parked at (record s { lists = record s.lists { value = v } }) rest p delay
                indefinitely)
            (fun_ext values)

    chosen :
        (s1 s2 s3 : Kern)
        → Left at c p (xs ++ ys) n s s1
        → Parked at rest p n delay indefinitely s1 s2
        → IsSched at s2 then_ (n + 1)
        → Foremost at then_ s3 s3.tcb_high_rdy_ptr
        → s3 ≡ record s2 {
          tcb_high_rdy_ptr = s3.tcb_high_rdy_ptr;
          state = update s2.state s3.tcb_high_rdy_ptr running;
        }
        → Blocked at c (xs ++ ys) n delay indefinitely s s3
    chosen s1 s2 s3 lf pk sched next only =
        let put : Kern → Kern = λ u. record u {
          lists = s3.lists;
          tbl = s3.tbl;
          next_tick_to_unblock = s3.next_tick_to_unblock;
          state = s3.state;
          tcb_high_rdy_ptr = s3.tcb_high_rdy_ptr;
        } in
        record {
          sched =
              subst (λ u. IsSched at u then_ (n + 1)) (sym only)
                (Sched-same
                  (record s2 {
                    tcb_high_rdy_ptr = s3.tcb_high_rdy_ptr;
                    state = update s2.state s3.tcb_high_rdy_ptr running;
                  })
                  sched);
          next = next;
          owner = λ x. ap (λ u. u.lists.owner x) only ∙ pk.owner x ∙ (lf.contents x).1;
          value = λ x ne. ap (λ u. u.lists.value x) only ∙ pk.value x ne ∙ (lf.contents x).0;
          state =
              ap (λ u. u.state) only
              ∙ ap (λ f. update f s3.tcb_high_rdy_ptr running)
                  (pk.state
                    ∙ ap (λ u. update u.state p (blocked_state delay indefinitely)) lf.only);
          only = ap put only ∙ ap put pk.only ∙ ap put lf.only;
        }

    -- `add_curr_task_to_delay_list`, called by a ready task while another one is ready, neither
    -- faults nor loops and keeps the scheduler's invariant: the task has left its ready list, and
    -- stands last in the list of suspended tasks if it may block for ever and asks for the greatest
    -- delay, and otherwise, by the tick to wake at, in the list of delayed tasks, or of those of the
    -- next round of the tick counter if the sum wraps. The task to run next is the first of the
    -- highest priority that has a ready task. Nothing but lists, bitmap, the next tick to wake at,
    -- the states of the two tasks and that choice changes. The lists hold less than 2 ^ 16 items.
    pub add_curr_task-Blocked :
        Returns
          (λ _. Blocked at c (xs ++ ys) n delay indefinitely s)
          (add_curr_task_to_delay_list at delay indefinitely s)
    unfolding add_curr_task_to_delay_list
    add_curr_task-Blocked = bind (leave_ready-Left at s c n is p xs ys rd) (λ _ s1 lf.
        bind (block-Parked at s1 rest n lf.sched p lf.out (omega (arith, room)) delay indefinitely)
          (λ _ s2 pk.
            let sched : IsSched at s2 then_ (n + 1) =
              subst (λ u. IsSched at s2 u (n + 1)) (same_place s1 (λ x. (lf.contents x).0) lf.only)
                pk.sched in
            mono (choose_highest-Chosen at s2 then_ (n + 1) sched q bound still_ready)
              (λ _ s3 ch. chosen s1 s2 s3 lf pk sched ch.0 ch.1)))
