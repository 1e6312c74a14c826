-- ===== src/System.antt =====
-- AK-mOS/Src/os_timer.c on the tasks: the timer task, starting and resetting a timer; and AK-mOS/Src/os_kernel.c: `os_init`.
-- The state joins that of Task and that of Timer; a timer's callback, a function of the application, is a parameter. The two
-- stores of list items have no item in common, and share the tick count and the critical sections, which Task keeps.
mod Examples
pub mod Init
use ak_m_os_the_simple_rtos.Base.{
  ℕ, zero, suc, ◌+◌, ◌%◌, ◌^◌, Bool, true, false, Run, Cmd, ok, fault, hang, ◌>>=◌, ◌>>◌, pure,
  ◌==◌, leb, ltb, if◌then◌else◌, add32, sub32, on_part,
}
use ak_m_os_the_simple_rtos.OsList.{
  Ptr, null, os_cfg_delay_max, os_list_remove, list_get_num_item, list_get_owner_of_head_item,
  list_item_get_value, list_item_set_value, list_item_get_list_contain,
}
use ak_m_os_the_simple_rtos.Prio.{os_prio_init}
use ak_m_os_the_simple_rtos.Msg.{os_msg_init, os_msg_free}
use ak_m_os_the_simple_rtos.Timer.{
  Timers, Statics, add_timer_to_list, update_next_tick_to_unblock, os_timer_remove, os_timer_init,
  timer_switch_lists,
}
use ak_m_os_the_simple_rtos.Timer
use ak_m_os_the_simple_rtos.Task.{Kern, Place, on_msgs, on_table}
use ak_m_os_the_simple_rtos.Task.Message.{os_task_post_msg_pure, os_task_wait_for_msg, get_msg}

-- `last_time` is the static variable of `os_timer_processing`.
pub record System : Type 0 where
  pub kern : Kern
  pub timers : Timers
  pub last_time : ℕ

abbrev pub put_timers : Timers → System → System
put_timers t s = record s {
  timers = t;
  kern = record s.kern { msgs = record s.kern.msgs { critical = t.critical } };
}

abbrev pub shared_timers : System → Timers
shared_timers s = record s.timers { os_tick = s.kern.tick_count; critical = s.kern.msgs.critical }

module _ {A : Type 0} where
  abbrev pub on_kern : Cmd Kern A → Cmd System A
  on_kern = on_part (λ k s. record s { kern = k }) (λ s. s.kern)

  abbrev pub on_timers : Cmd Timers A → Cmd System A
  on_timers = on_part put_timers shared_timers

  abbrev pub timer_field : (Timers → Ptr → A) → Ptr → Cmd System A
  timer_field f p = on_timers (Timer.read f p)

-- `os_task_get_tick`
unfoldable pub os_task_get_tick : Cmd System ℕ
os_task_get_tick s = ok s.kern.tick_count s

-- `next_tick_to_unblock_timer`
abbrev next_wake : Cmd System ℕ
next_wake s = ok s.timers.next_tick_to_unblock_timer s

module _ (at : Place) (st : Statics) (call : Ptr → Cmd System (Unit {0})) where
  -- A dummy signal for the timer task.
  unfoldable pub notify_timer_task : Cmd System (Unit {0})
  notify_timer_task = on_kern (os_task_post_msg_pure at ((at.task_eot_id + 1) % 2 ^ 8) 0)

  -- A timer that has been taken out of its list starts its next period, or is given back.
  unfoldable pub renew : Ptr → ℕ → Cmd System (Unit {0})
  renew p time_now = do
    period ← timer_field (λ t. t.period) p
    if period == 0 then on_timers (os_timer_remove st p) else (do
      on_timers
          (Timer.on_lists (list_item_set_value (st.timer_list_item p) (add32 period time_now)))
      on_timers (add_timer_to_list st p))
    on_timers (update_next_tick_to_unblock st)

  -- The rest of a round of the loop, for a timer whose time has come.
  unfoldable pub expire : Ptr → ℕ → Cmd System (Unit {0})
  expire p time_now = do
    _ ← on_timers (Timer.on_lists (os_list_remove (st.timer_list_item p)))
    func_cb ← timer_field (λ t. t.func_cb) p
    if func_cb == null
        then (do
          des ← timer_field (λ t. t.des_task_id) p
          sig ← timer_field (λ t. t.sig) p
          on_kern (os_task_post_msg_pure at des sig))
        else call func_cb
    renew p time_now

  -- The loop of `os_timer_processing`, given its number of rounds.
  unfoldable pub expire_due : ℕ → ℕ → Cmd System (Unit {0})
  expire_due zero time_now = λ _. hang
  expire_due (suc k) time_now = do
    l ← on_timers (Timer.get (λ t. t.timer_list_ptr))
    e ← on_timers (Timer.list_is_empty l)
    if e then on_timers (Timer.set_unblock os_cfg_delay_max) else do
      p ← on_timers (Timer.on_lists (list_get_owner_of_head_item l))
      v ← on_timers (Timer.on_lists (list_item_get_value (st.timer_list_item p)))
      if ltb time_now v
          then on_timers (Timer.set_unblock v)
          else do expire p time_now; expire_due k time_now

  -- `os_timer_processing` up to the return of `os_task_wait_for_msg`, or up to its request for a context switch, as the result says.
  unfoldable pub os_timer_processing : ℕ → Cmd System Bool
  os_timer_processing rounds = do
    time_now ← os_task_get_tick
    last ← λ s. ok s.last_time s
    if ltb time_now last then on_timers timer_switch_lists else pure tt
    n ← next_wake
    if leb n time_now then expire_due rounds time_now else pure tt
    λ s. ok tt (record s { last_time = time_now })
    n ← next_wake
    (blocked, m) ← on_kern (os_task_wait_for_msg at (sub32 n time_now))
    if blocked then pure true else do
      if m == null then pure tt else on_kern (on_msgs (os_msg_free at.layout m))
      pure false

  -- The rest of it, when the timer task has been switched to again.
  unfoldable pub timer_task_resumes : Cmd System (Unit {0})
  timer_task_resumes = do
    m ← on_kern (get_msg at)
    if m == null then pure tt else on_kern (on_msgs (os_msg_free at.layout m))

  unfoldable pub os_timer_start : Ptr → ℕ → Cmd System (Unit {0})
  os_timer_start p tick_to_wait = do
    time_now ← os_task_get_tick
    on_timers
        (Timer.on_lists (list_item_set_value (st.timer_list_item p) (add32 tick_to_wait time_now)))
    on_timers (add_timer_to_list st p)
    on_timers (update_next_tick_to_unblock st)
    notify_timer_task

  unfoldable pub os_timer_reset : Ptr → Cmd System (Unit {0})
  os_timer_reset p = do
    l ← on_timers (Timer.on_lists (list_item_get_list_contain (st.timer_list_item p)))
    if l == null then pure tt else do
      time_now ← os_task_get_tick
      _ ← on_timers (Timer.on_lists (os_list_remove (st.timer_list_item p)))
      renew p time_now
      notify_timer_task

  -- Without a task it stays in an endless loop.
  unfoldable pub os_init : (ℕ → Ptr) → Cmd System (Unit {0})
  os_init pool = if ltb at.task_eot_id 1 then (λ _. hang) else do
    on_kern (on_table os_prio_init)
    on_kern (on_msgs (os_msg_init pool))
    on_timers (os_timer_init st)
