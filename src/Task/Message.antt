-- ===== src/Task/Message.antt =====
-- AK-mOS/Src/os_task.c: posting a message to a task, and waiting for one.
use ak_m_os_the_simple_rtos.Base.{
  ℕ, ◌+◌, Bool, true, false, ◌&&◌, Cmd, ok, fault, ◌>>=◌, ◌>>◌, pure, ◌==◌, ltb, if◌then◌else◌,
}
use ak_m_os_the_simple_rtos.OsList.{Ptr, null, os_cfg_delay_max}
use ak_m_os_the_simple_rtos.Msg.{os_msg_queue_put_dynamic, os_msg_queue_put_pure, os_msg_queue_get}
use ak_m_os_the_simple_rtos.Task.{
  running, suspended_on_msg, delayed_on_msg, Kern, Place, on_msgs, get, field, set_state, set_high,
  enter_critical, exit_critical, os_cpu_trigger_pend_sv, add_task_to_rdy_list,
  add_curr_task_to_delay_list,
}
use ak_m_os_the_simple_rtos.Task.Tick.{leave_list}

module _ (at : Place) where
  -- `task_tcb_list[id]`, an array of `TASK_EOT_ID + 2` entries
  unfoldable pub task_of : ℕ → Cmd Kern Ptr
  task_of id s = if ltb id (at.task_eot_id + 2) then ok (s.task_tcb_list id) s else fault

  -- The receiver becomes ready, and goes before the current task if its priority is higher.
  unfoldable pub awaken : Ptr → Cmd Kern (Unit {0})
  awaken p = do
    add_task_to_rdy_list at p
    a ← field (λ s. s.prio) p
    c ← get (λ s. s.tcb_curr_ptr)
    b ← field (λ s. s.prio) c
    if ltb a b then (do set_high p; set_state p running; os_cpu_trigger_pend_sv) else pure tt

  -- The lists that the receiver leaves in each state, after `put` has put the message in its queue. Only
  -- `os_task_post_msg_pure` also takes a delayed receiver from an event list.
  unfoldable pub deliver : Bool → Ptr → Cmd Kern (Unit {0}) → Cmd Kern (Unit {0})
  deliver both p put = do
    st ← field (λ s. s.state) p
    put
    elim st [
      | suspended_on_msg ↦ do leave_list (at.event_list_item p); awaken p
      | delayed_on_msg ↦ do
        leave_list (at.state_list_item p)
        if both then leave_list (at.event_list_item p) else pure tt
        awaken p
      | _ ↦ pure tt
    ]
    exit_critical

  unfoldable pub os_task_post_msg_dynamic : ℕ → ℕ → Ptr → ℕ → Cmd Kern (Unit {0})
  os_task_post_msg_dynamic des_task_id sig content size = do
    enter_critical
    p ← task_of des_task_id
    c ← get (λ s. s.tcb_curr_ptr)
    if p == c
        then exit_critical
        else deliver false p
            (on_msgs (os_msg_queue_put_dynamic at.layout (at.msg_queue p) sig content size))

  unfoldable pub os_task_post_msg_pure : ℕ → ℕ → Cmd Kern (Unit {0})
  os_task_post_msg_pure des_task_id sig = do
    enter_critical
    p ← task_of des_task_id
    deliver true p (on_msgs (os_msg_queue_put_pure (at.msg_queue p) sig))

  -- The message at the head of the current task's queue.
  unfoldable pub get_msg : Cmd Kern Ptr
  get_msg = do
    c ← get (λ s. s.tcb_curr_ptr)
    i ← field (λ s. s.id) c
    p ← task_of i
    on_msgs (os_msg_queue_get (at.msg_queue p))

  -- `os_task_wait_for_msg` up to the return of a message, or up to the request for a context switch: then the task goes on
  -- with `get_msg` as soon as it is the current one again. The flag says which.
  unfoldable pub os_task_wait_for_msg : ℕ → Cmd Kern (Bool × Ptr)
  os_task_wait_for_msg time_out = do
    m ← get_msg
    if ltb 0 time_out && m == null
        then (do
          enter_critical
          add_curr_task_to_delay_list at time_out true
          c ← get (λ s. s.tcb_curr_ptr)
          set_state c (if time_out == os_cfg_delay_max then suspended_on_msg else delayed_on_msg)
          os_cpu_trigger_pend_sv
          exit_critical
          pure (true, null))
        else pure (false, m)
