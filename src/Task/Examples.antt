-- ===== src/Task/Examples.antt =====
-- The theorems on tasks at those of Task/Board.
use ak_m_os_the_simple_rtos.Base.{◌+◌, ◌≡◌, refl, true, false, [], arith, Returns}
use ak_m_os_the_simple_rtos.Kernel.{IsCritical}
use ak_m_os_the_simple_rtos.OsList.{
  null, os_cfg_delay_max, read, write, os_list_insert_end, link_first, count_up, os_list_remove,
  unlink, step_back, detach, os_list_insert,
}
use ak_m_os_the_simple_rtos.Prio.{
  os_prio_insert, read_row, write_row, os_prio_remove, os_prio_get_highest, skip_rows, find_bit,
}
use ak_m_os_the_simple_rtos.Task.{
  Kern, add_task_to_rdy_list, add_curr_task_to_delay_list, os_task_start, field, ready_list,
  set_state, leave_ready, block, wait_until, choose_highest,
}
use ak_m_os_the_simple_rtos.Task.Choose.{Foremost, os_task_start-Foremost}
use ak_m_os_the_simple_rtos.Task.Block.{Blocked, add_curr_task-Blocked}
use ak_m_os_the_simple_rtos.Task.Wake.{Woke}
use ak_m_os_the_simple_rtos.Task.Tick.{wake_all, os_task_increment_tick}
use ak_m_os_the_simple_rtos.Task.{os_task_delay}
use ak_m_os_the_simple_rtos.Task.Delay.{Sched-same}
use ak_m_os_the_simple_rtos.Task.Message.{os_task_wait_for_msg}
use ak_m_os_the_simple_rtos.Task.Await.{IsEmpty, Awaits, wait_for_msg-Awaits}
use ak_m_os_the_simple_rtos.Task.Sleep.{os_task_delay-Blocked}
use ak_m_os_the_simple_rtos.Task.Clock.{Ticked, os_task_increment_tick-Ticked}
use ak_m_os_the_simple_rtos.Task.Create.{init_stack}
use ak_m_os_the_simple_rtos.Task.Stack.{Framed, init_stack-Framed, init_stack-below}
use ak_m_os_the_simple_rtos.Task.Due.{wake_all-Woke}
use ak_m_os_the_simple_rtos.Task.Ready.{Joined, add_task-Joined}
use ak_m_os_the_simple_rtos.Task.Board.{
  place, msgs, idle, task, empty, no_items, empty-Sched, idle-IsOut, with_task, both_listed,
  with_task-Sched, task-IsReady, with_delay, with_delay-Blocked, tasks, with_delay-NoEvents,
  delayed_listed,
}

add_task-Joined_example :
    Returns (λ _. Joined place no_items idle 0 empty) (add_task_to_rdy_list place idle empty)
add_task-Joined_example =
    add_task-Joined place empty no_items 0 empty-Sched idle idle-IsOut (omega arith)

add_curr_task-Blocked_example :
    Returns
      (λ _. Blocked place both_listed [] 1 5 false with_task)
      (add_curr_task_to_delay_list place 5 false with_task)
unfolding add_task_to_rdy_list field ready_list set_state read os_list_insert_end write link_first
    count_up os_prio_insert read_row write_row
add_curr_task-Blocked_example =
    add_curr_task-Blocked place with_task both_listed 1 with_task-Sched [] [] task-IsReady
      (omega arith) 5 false 9 (omega arith) refl

os_task_start-Foremost_example :
    Returns
      (λ _ s'.
        Foremost place both_listed with_task s'.tcb_curr_ptr
        × (s' ≡ record with_task {
          tcb_high_rdy_ptr = s'.tcb_curr_ptr;
          tcb_curr_ptr = s'.tcb_curr_ptr;
          tick_count = 0;
          next_tick_to_unblock = os_cfg_delay_max;
          sched_is_running = true;
        }))
      (os_task_start place with_task)
unfolding add_task_to_rdy_list field ready_list set_state read os_list_insert_end write link_first
    count_up os_prio_insert read_row write_row
os_task_start-Foremost_example =
    os_task_start-Foremost place with_task both_listed 2 9 with_task-Sched (omega arith) refl

wake_all-Woke_example :
    Returns
      (Woke place tasks 20 delayed_listed
        (delayed_listed with_delay.dly_task_list_ptr)
        2
        with_delay
        false)
      (wake_all place 20 with_delay)
unfolding add_task_to_rdy_list field ready_list set_state read os_list_insert_end write link_first
    count_up os_prio_insert read_row write_row add_curr_task_to_delay_list leave_ready
    os_list_remove unlink step_back detach os_prio_remove block wait_until os_list_insert
    choose_highest os_prio_get_highest skip_rows find_bit
wake_all-Woke_example =
    wake_all-Woke place tasks 20 with_delay delayed_listed 2 with_delay-Blocked.sched
      with_delay-NoEvents (λ x m. ground arith) (λ x m. ground arith) (omega arith) (omega arith)

init_stack-Framed_example :
    Returns (Framed 0x2f00 20 0x401 7 empty) (init_stack 0x2f00 20 0x401 7 empty)
init_stack-Framed_example =
    init_stack-Framed 0x2f00 20 0x401 7 empty (omega arith) refl (omega arith) (omega arith)

init_stack-below_example : Returns (λ stk _. stk + 4 ≡ 0x2f04) (init_stack 0x2f04 17 0x401 7 empty)
init_stack-below_example = init_stack-below 0x2f04 0x401 7 empty (omega arith) refl

msgs-IsCritical : IsCritical msgs.critical
msgs-IsCritical = record { room = omega arith; off = refl }

os_task_delay-Blocked_example :
    Returns
      (λ _. Blocked place both_listed [] 1 5 false (record with_task { pend_sv = true }))
      (os_task_delay place 5 with_task)
unfolding add_task_to_rdy_list field ready_list set_state read os_list_insert_end write link_first
    count_up os_prio_insert read_row write_row
os_task_delay-Blocked_example =
    os_task_delay-Blocked place both_listed 1 [] [] with_task with_task-Sched task-IsReady
      (omega arith) msgs-IsCritical 5 9 (omega arith) (omega arith) refl

-- The clock is about to reach the tick at which the task wakes.
abbrev before_wake : Kern
before_wake = record with_delay { tick_count = 14; tcb_curr_ptr = idle }

os_task_increment_tick-Ticked_example :
    Returns
      (Ticked place tasks delayed_listed 2 before_wake)
      (os_task_increment_tick place before_wake)
unfolding add_task_to_rdy_list field ready_list set_state read os_list_insert_end write link_first
    count_up os_prio_insert read_row write_row add_curr_task_to_delay_list leave_ready
    os_list_remove unlink step_back detach os_prio_remove block wait_until os_list_insert
    choose_highest os_prio_get_highest skip_rows find_bit
os_task_increment_tick-Ticked_example =
    os_task_increment_tick-Ticked place tasks before_wake delayed_listed 2
      (Sched-same before_wake with_delay-Blocked.sched) with_delay-NoEvents
      (λ l x ml mx. ground arith) (λ l x ml mx. ground arith) (omega arith) (omega arith)
      (omega arith) 9 (omega arith) refl

task-IsEmpty : IsEmpty place with_task task
unfolding add_task_to_rdy_list field ready_list set_state read os_list_insert_end write link_first
    count_up os_prio_insert read_row write_row
task-IsEmpty = record { number = omega arith; entry = refl; queue = omega arith; none = refl }

wait_for_msg-Awaits_example :
    Returns
      (λ r s'. (r ≡ (true, null)) × Awaits place both_listed [] 1 5 with_task s')
      (os_task_wait_for_msg place 5 with_task)
unfolding add_task_to_rdy_list field ready_list set_state read os_list_insert_end write link_first
    count_up os_prio_insert read_row write_row
wait_for_msg-Awaits_example =
    wait_for_msg-Awaits place both_listed 1 [] [] with_task with_task-Sched task-IsReady
      (omega arith) msgs-IsCritical task-IsEmpty 5 9 (omega arith) (omega arith) refl
