-- ===== src/Task/Await.antt =====
-- A task waits for a message while its queue is empty.
use mathlib.Core.Path.{subst}
use ak_m_os_the_simple_rtos.Base.{
  ℕ, suc, ◌+◌, ◌^◌, ◌<◌, ◌≡◌, refl, sym, ap, ◌∙◌, ◌≢◌, true, false, List, ◌++◌, arith, ◌==◌, ltb,
  if◌then◌else◌, update, ==_of_ne, ok, Returns, returns, bind,
}
use ak_m_os_the_simple_rtos.Kernel.{
  Critical, IsCritical, os_critical_enter, os_critical_exit, exit-enter,
}
use ak_m_os_the_simple_rtos.OsList.{Ptr, null, os_cfg_delay_max}
use ak_m_os_the_simple_rtos.Prio.{os_cfg_prio_max}
use ak_m_os_the_simple_rtos.Msg.{os_msg_queue_get}
use ak_m_os_the_simple_rtos.Msg
use ak_m_os_the_simple_rtos.Task.{
  TaskState, running, suspended_on_msg, delayed_on_msg, Kern, Place, field, set_state,
}
use ak_m_os_the_simple_rtos.Task.Message.{task_of, get_msg, os_task_wait_for_msg}
use ak_m_os_the_simple_rtos.Task.Sched.{some_item, IsSched}
use ak_m_os_the_simple_rtos.Task.Leave.{IsReady, left}
use ak_m_os_the_simple_rtos.Task.Delay.{Sched-same}
use ak_m_os_the_simple_rtos.Task.Choose.{Foremost, Foremost-same}
use ak_m_os_the_simple_rtos.Task.Park.{parked, blocked_state}
use ak_m_os_the_simple_rtos.Task.Block.{Blocked, add_curr_task-Blocked}

-- The queue of the task `p` is empty; the task is entered in the table under its number.
pub record IsEmpty (at : Place) (s : Kern) (p : Ptr) : Type 0 where
  pub number : s.id p < at.task_eot_id + 2
  pub entry : s.task_tcb_list (s.id p) ≡ p
  pub queue : at.msg_queue p ≢ null
  pub none : s.msgs.size_curr (at.msg_queue p) ≡ 0

abbrev pub awaiting : ℕ → TaskState
awaiting time_out = if time_out == os_cfg_delay_max then suspended_on_msg else delayed_on_msg

-- What `os_task_wait_for_msg` leaves when it blocks.
pub record Awaits (at : Place) (c : Ptr → List Ptr) (rest : List Ptr) (n time_out : ℕ) (s s' : Kern)
    : Type 0 where
  pub sched :
      IsSched at s'
        (parked at s (left at s c s.tcb_curr_ptr rest) s.tcb_curr_ptr time_out true)
        (n + 1)
  pub next :
      Foremost at
        (parked at s (left at s c s.tcb_curr_ptr rest) s.tcb_curr_ptr time_out true)
        s'
        s'.tcb_high_rdy_ptr
  pub state :
      s'.state
      ≡ update
          (update
            (update s.state s.tcb_curr_ptr (blocked_state time_out true))
            s'.tcb_high_rdy_ptr
            running)
          s.tcb_curr_ptr
          (awaiting time_out)
  pub only : s' ≡ record s {
    lists = s'.lists;
    tbl = s'.tbl;
    next_tick_to_unblock = s'.next_tick_to_unblock;
    state = s'.state;
    tcb_high_rdy_ptr = s'.tcb_high_rdy_ptr;
    pend_sv = true;
  }

abbrev in_critical : Kern → Kern
in_critical s = record s { msgs = record s.msgs { critical = os_critical_enter s.msgs.critical } }

get_msg-null :
    (at : Place) (s : Kern)
    → s.tcb_curr_ptr ≢ null
    → IsEmpty at s s.tcb_curr_ptr
    → get_msg at s ≡ ok null s
unfolding get_msg field task_of os_msg_queue_get Msg.read
get_msg-null at s ne empty =
    let number : ltb (s.id s.tcb_curr_ptr) (at.task_eot_id + 2) ≡ true =
      ground (arith, empty.number) in
    rw
      (
        ==_of_ne s.tcb_curr_ptr null ne,
        number,
        empty.entry,
        ==_of_ne (at.msg_queue s.tcb_curr_ptr) null empty.queue,
        empty.none,
      )
      refl

module _ (at : Place) (c : Ptr → List Ptr) (n : ℕ) (xs ys : List Ptr) (s : Kern)
    (is : IsSched at s c (suc n)) (rd : IsReady at s c s.tcb_curr_ptr xs ys) (room : suc n < 2 ^ 16)
    (crit : IsCritical s.msgs.critical) (empty : IsEmpty at s s.tcb_curr_ptr) (time_out q : ℕ)
    (some_time : time_out ≢ 0) (bound : q < os_cfg_prio_max)
    (one : some_item (left at s c s.tcb_curr_ptr (xs ++ ys) (at.rdy_task_list q)) ≡ true) where
  -- the last steps
  abbrev leave : Kern → Kern
  leave u = record u {
    state = update u.state s.tcb_curr_ptr (awaiting time_out);
    pend_sv = true;
    msgs = record u.msgs { critical = os_critical_exit u.msgs.critical };
  }

  Blocked-Awaits :
      (s2 : Kern)
      → Blocked at c (xs ++ ys) n time_out true (in_critical s) s2
      → Awaits at c (xs ++ ys) n time_out s (leave s2)
  Blocked-Awaits s2 b =
      let with_critical : Critical → Kern = λ k. record s {
        lists = s2.lists;
        tbl = s2.tbl;
        next_tick_to_unblock = s2.next_tick_to_unblock;
        state = update s2.state s.tcb_curr_ptr (awaiting time_out);
        tcb_high_rdy_ptr = s2.tcb_high_rdy_ptr;
        pend_sv = true;
        msgs = record s.msgs { critical = k };
      } in
      record {
        sched = Sched-same (leave s2) b.sched;
        next = Foremost-same (leave s2) b.next;
        state = ap (λ f. update f s.tcb_curr_ptr (awaiting time_out)) b.state;
        only = ap leave b.only ∙ ap with_critical (exit-enter s.msgs.critical crit);
      }

  -- `os_task_wait_for_msg` with a time out other than 0, called by a ready task whose queue is empty
  -- while another one is ready, blocks: the task stands last in the list of suspended tasks if the
  -- time out is the greatest number, and waits in the list of delayed tasks that fits the tick to
  -- wake at otherwise, its state says that it does so for a message, the first task of the highest
  -- priority is to run next, and a context switch is asked for. The scheduler's invariant and the
  -- state of the critical sections are kept. The task is entered in the table of tasks under its
  -- number, and the lists hold less than 2 ^ 16 items. The state of the critical sections is as
  -- `IsCritical` asks.
  pub wait_for_msg-Awaits :
      Returns
        (λ r s'. (r ≡ (true, null)) × Awaits at c (xs ++ ys) n time_out s s')
        (os_task_wait_for_msg at time_out s)
  unfolding os_task_wait_for_msg set_state
  wait_for_msg-Awaits =
      let positive : ltb 0 time_out ≡ true = ground (arith, some_time) in
      rw (get_msg-null at s rd.not_null empty, positive)
        (bind
          (add_curr_task-Blocked at (in_critical s) c n (Sched-same (in_critical s) is) xs ys
            (record { not_null = rd.not_null; prio = rd.prio; owner = rd.owner; here = rd.here })
            room time_out true q bound one)
          (λ _ s2 b.
            let cu : s2.tcb_curr_ptr ≡ s.tcb_curr_ptr = ap (λ u. u.tcb_curr_ptr) b.only in
            let ne : (s2.tcb_curr_ptr == null) ≡ false =
              ap (λ u. u == null) cu ∙ ==_of_ne s.tcb_curr_ptr null rd.not_null in
            rw ne (
              returns (
                refl,
                subst
                    (λ u. Awaits at c (xs ++ ys) n time_out s (record s2 {
                      state = update s2.state u (awaiting time_out);
                      pend_sv = true;
                      msgs = record s2.msgs { critical = os_critical_exit s2.msgs.critical };
                    }))
                    (sym cu) (Blocked-Awaits s2 b),
              ))))
