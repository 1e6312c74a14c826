-- ===== src/Task/Tick.antt =====
-- AK-mOS/Src/os_task.c: `os_task_increment_tick`, which the tick interrupt calls.
use ak_m_os_the_simple_rtos.Base.{
  ℕ, zero, suc, ◌+◌, ◌%◌, ◌^◌, Bool, true, false, ◌||◌, Cmd, hang, ◌>>=◌, ◌>>◌, pure, ◌==◌, leb,
  ltb, if◌then◌else◌, add32,
}
use ak_m_os_the_simple_rtos.OsList.{
  Ptr, null, os_cfg_delay_max, os_list_remove, list_get_num_item, list_get_owner_of_head_item,
  list_get_owner_of_next_item, list_item_get_value, list_item_get_list_contain,
}
use ak_m_os_the_simple_rtos.Prio.{os_prio_get_highest}
use ak_m_os_the_simple_rtos.Task.{
  running, Kern, Place, on_lists, on_table, get, modify, field, set_state, set_unblock, set_high,
  list_is_empty, ready_list, task_switch_delay_lists, add_task_to_rdy_list,
}

-- `if (list_item_get_list_contain(p_item) != NULL) os_list_remove(p_item);`
unfoldable pub leave_list : Ptr → Cmd Kern (Unit {0})
leave_list item = do
  l ← on_lists (list_item_get_list_contain item)
  if l == null then pure tt else (do _ ← on_lists (os_list_remove item); pure tt)

module _ (at : Place) where
  -- The rest of a round of the loop, for a task whose delay is over: whether it goes before the current one.
  unfoldable pub wake_task : Ptr → Cmd Kern Bool
  wake_task p = do
    _ ← on_lists (os_list_remove (at.state_list_item p))
    leave_list (at.event_list_item p)
    add_task_to_rdy_list at p
    a ← field (λ s. s.prio) p
    c ← get (λ s. s.tcb_curr_ptr)
    b ← field (λ s. s.prio) c
    if ltb a b then (do set_high p; pure true) else pure false

  -- The loop, given its number of rounds.
  unfoldable pub wake_due : ℕ → ℕ → Bool → Cmd Kern Bool
  wake_due zero tick is_switch_needed = λ _. hang
  wake_due (suc k) tick is_switch_needed = do
    l ← get (λ s. s.dly_task_list_ptr)
    e ← list_is_empty l
    if e then (do set_unblock os_cfg_delay_max; pure is_switch_needed) else do
      p ← on_lists (list_get_owner_of_head_item l)
      v ← on_lists (list_item_get_value (at.state_list_item p))
      if ltb tick v
          then (do set_unblock v; pure is_switch_needed)
          else do first ← wake_task p; wake_due k tick (is_switch_needed || first)

  -- Every round but the last takes a task from the list.
  unfoldable pub wake_all : ℕ → Cmd Kern Bool
  wake_all tick = do
    l ← get (λ s. s.dly_task_list_ptr)
    n ← on_lists (list_get_num_item l)
    wake_due (n + 1) tick false

  -- The round robin among the tasks of the highest priority.
  unfoldable pub next_of_highest : Bool → Cmd Kern Bool
  next_of_highest is_switch_needed = do
    h ← on_table os_prio_get_highest
    l ← ready_list at (h % 2 ^ 8)
    n ← on_lists (list_get_num_item l)
    if ltb 1 n
        then (do p ← on_lists (list_get_owner_of_next_item l); set_high p; pure true)
        else pure is_switch_needed

  unfoldable pub os_task_increment_tick : Cmd Kern Bool
  os_task_increment_tick = do
    modify (λ s. record s { tick_count = add32 s.tick_count 1 })
    tick ← get (λ s. s.tick_count)
    if tick == 0 then task_switch_delay_lists at else pure tt
    n ← get (λ s. s.next_tick_to_unblock)
    woken ← if leb n tick then wake_all tick else pure false
    switch ← next_of_highest woken
    if switch then (do p ← get (λ s. s.tcb_high_rdy_ptr); set_state p running) else pure tt
    pure switch
