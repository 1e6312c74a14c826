-- ===== src/Task/Sleep.antt =====
-- `os_task_delay` blocks the task inside a critical section, and asks for a switch.
use ak_m_os_the_simple_rtos.Base.{
  ℕ, suc, ◌^◌, ◌<◌, ◌≡◌, ap, ◌∙◌, ◌≢◌, true, false, List, ◌++◌, ==_of_ne, Returns, returns, bind,
}
use ak_m_os_the_simple_rtos.Kernel.{
  Critical, IsCritical, os_critical_enter, os_critical_exit, exit-enter,
}
use ak_m_os_the_simple_rtos.OsList.{Ptr}
use ak_m_os_the_simple_rtos.Prio.{os_cfg_prio_max}
use ak_m_os_the_simple_rtos.Task.{Kern, Place, os_task_delay}
use ak_m_os_the_simple_rtos.Task.Sched.{some_item, IsSched}
use ak_m_os_the_simple_rtos.Task.Leave.{IsReady, left}
use ak_m_os_the_simple_rtos.Task.Delay.{Sched-same}
use ak_m_os_the_simple_rtos.Task.Choose.{Foremost-same}
use ak_m_os_the_simple_rtos.Task.Block.{Blocked, add_curr_task-Blocked}

abbrev in_critical : Kern → Kern
in_critical s = record s { msgs = record s.msgs { critical = os_critical_enter s.msgs.critical } }

abbrev leave_critical : Kern → Kern
leave_critical s = record s {
  pend_sv = true;
  msgs = record s.msgs { critical = os_critical_exit s.msgs.critical };
}

module _ (at : Place) (c : Ptr → List Ptr) (n : ℕ) (xs ys : List Ptr) (s : Kern)
    (is : IsSched at s c (suc n)) (rd : IsReady at s c s.tcb_curr_ptr xs ys) (room : suc n < 2 ^ 16)
    (crit : IsCritical s.msgs.critical) (delay q : ℕ) (some_delay : delay ≢ 0)
    (bound : q < os_cfg_prio_max)
    (one : some_item (left at s c s.tcb_curr_ptr (xs ++ ys) (at.rdy_task_list q)) ≡ true) where
  out_Blocked :
      (s2 : Kern)
      → Blocked at c (xs ++ ys) n delay false (in_critical s) s2
      → Blocked at c (xs ++ ys) n delay false (record s { pend_sv = true }) (leave_critical s2)
  out_Blocked s2 b =
      let with_critical : Critical → Kern = λ k. record s {
        lists = s2.lists;
        tbl = s2.tbl;
        next_tick_to_unblock = s2.next_tick_to_unblock;
        state = s2.state;
        tcb_high_rdy_ptr = s2.tcb_high_rdy_ptr;
        pend_sv = true;
        msgs = record s.msgs { critical = k };
      } in
      record {
        sched = Sched-same (leave_critical s2) b.sched;
        next = Foremost-same (leave_critical s2) b.next;
        owner = b.owner;
        value = b.value;
        state = b.state;
        only = ap leave_critical b.only ∙ ap with_critical (exit-enter s.msgs.critical crit);
      }

  -- `os_task_delay` of a delay other than 0, called by a ready task while another one is ready, asks
  -- for a context switch, leaves the state of the critical sections as it was, and for the rest does
  -- what `add_curr_task_to_delay_list` does to a task that may not block for ever: the scheduler's
  -- invariant is kept, the task waits in the list of delayed tasks that fits the tick to wake at,
  -- and the first task of the highest priority is to run next. A delay of `os_cfg_delay_max` is no
  -- exception. The lists hold less than 2 ^ 16 items. The state of the critical sections is as
  -- `IsCritical` asks.
  pub os_task_delay-Blocked :
      Returns
        (λ _. Blocked at c (xs ++ ys) n delay false (record s { pend_sv = true }))
        (os_task_delay at delay s)
  unfolding os_task_delay
  os_task_delay-Blocked = rw (==_of_ne delay 0 some_delay) (
      bind
        (add_curr_task-Blocked at (in_critical s) c n (Sched-same (in_critical s) is) xs ys
          (record { not_null = rd.not_null; prio = rd.prio; owner = rd.owner; here = rd.here }) room
          delay false q bound one)
        (λ _ s2 b. returns (out_Blocked s2 b)))
