-- ===== src/Task.antt =====
-- AK-mOS/Src/os_task.c and AK-mOS/Inc/os_task.h: the state of the scheduler, and how it moves tasks between its
-- lists. The state holds the fields of each task's control block (TCB) by its address, the list items (OsList), the
-- bitmap of ready priorities (Prio), the messages with the heap and the critical sections (Msg), the words of the
-- stacks, and the registers that a context switch saves. Where compiler and linker put the lists, and the items and the queue
-- inside a TCB, how large a TCB is and how many tasks there are, is a parameter.
mod Examples
mod Board
pub mod Sched
pub mod Change
pub mod Ready
pub mod Leave
pub mod Wait
pub mod Delay
pub mod Choose
pub mod Park
pub mod Block
pub mod Sleep
pub mod Robin
pub mod Pass
pub mod Advance
pub mod Clock
pub mod Tick
pub mod Awake
pub mod Wake
pub mod First
pub mod Due
pub mod Create
pub mod Stack
pub mod Message
pub mod Await
use ak_m_os_the_simple_rtos.Base.{
  ℕ, zero, suc, ◌+◌, ◌-◌, ◌%◌, ◌^◌, Bool, true, false, not, ◌&&◌, ◌||◌, Run, Cmd, ok, fault, hang,
  ◌>>=◌, ◌>>◌, pure, ◌==◌, leb, ltb, if◌then◌else◌, update, add32, sub32, on_part,
}
use ak_m_os_the_simple_rtos.OsList.{
  Ptr, null, Items, os_cfg_delay_max, os_list_init, os_list_insert, os_list_insert_end,
  os_list_remove, list_get_num_item, list_get_owner_of_head_item, list_get_owner_of_next_item,
  list_item_get_value, list_item_set_value,
}
use ak_m_os_the_simple_rtos.Prio.{
  Tbl, os_cfg_prio_max, os_prio_insert, os_prio_remove, os_prio_get_highest,
}
use ak_m_os_the_simple_rtos.Mem.{Layout}
use ak_m_os_the_simple_rtos.Msg.{Msgs}
use ak_m_os_the_simple_rtos.Msg

-- `task_state_t`
pub data TaskState : Type 0 where
  running ready delayed suspended suspended_on_msg delayed_on_msg : TaskState

pub record Kern : Type 0 where
  pub lists : Items
  pub tbl : Tbl
  pub msgs : Msgs
  pub prio : Ptr → ℕ
  pub id : Ptr → ℕ
  pub state : Ptr → TaskState
  pub stk_ptr : Ptr → Ptr
  pub stk_limit_ptr : Ptr → Ptr
  pub stk_size : Ptr → ℕ
  pub task_tcb_list : ℕ → Ptr
  pub tcb_curr_ptr : Ptr
  pub tcb_high_rdy_ptr : Ptr
  pub dly_task_list_ptr : Ptr
  pub overflow_dly_task_list_ptr : Ptr
  pub num_of_tasks : ℕ
  pub tick_count : ℕ
  pub next_tick_to_unblock : ℕ
  pub sched_is_running : Bool
  pub pend_sv : Bool
  pub words : Ptr → ℕ
  pub regs : ℕ → ℕ
  pub psp : Ptr

-- The addresses of the lists and of the parts of a TCB, the size of a TCB, `TASK_EOT_ID`, and the two tasks of the kernel.
pub record Place : Type 0 where
  pub rdy_task_list : ℕ → Ptr
  pub dly_task_list_1 : Ptr
  pub dly_task_list_2 : Ptr
  pub suspended_task_list : Ptr
  pub state_list_item : Ptr → Ptr
  pub event_list_item : Ptr → Ptr
  pub msg_queue : Ptr → Ptr
  pub size_of_tcb : ℕ
  pub task_eot_id : ℕ
  pub task_idle_func : Ptr
  pub task_timer_func : Ptr
  pub layout : Layout

module _ {A : Type 0} where
  abbrev pub on_lists : Cmd Items A → Cmd Kern A
  on_lists = on_part (λ h s. record s { lists = h }) (λ s. s.lists)

  abbrev pub on_table : Cmd Tbl A → Cmd Kern A
  on_table = on_part (λ t s. record s { tbl = t }) (λ s. s.tbl)

  abbrev pub on_msgs : Cmd Msgs A → Cmd Kern A
  on_msgs = on_part (λ m s. record s { msgs = m }) (λ s. s.msgs)

  abbrev pub get : (Kern → A) → Cmd Kern A
  get f s = ok (f s) s

  -- a field of a TCB
  unfoldable pub field : (Kern → Ptr → A) → Ptr → Cmd Kern A
  field f p s = if p == null then fault else ok (f s p) s

abbrev pub modify : (Kern → Kern) → Cmd Kern (Unit {0})
modify f s = ok tt (f s)

unfoldable pub set_state : Ptr → TaskState → Cmd Kern (Unit {0})
set_state p t s = if p == null then fault else ok tt (record s { state = update s.state p t })

abbrev pub enter_critical : Cmd Kern (Unit {0})
enter_critical = on_msgs Msg.enter_critical

abbrev pub exit_critical : Cmd Kern (Unit {0})
exit_critical = on_msgs Msg.exit_critical

-- `os_cpu_trigger_pend_sv` of os_cpu.h
abbrev pub os_cpu_trigger_pend_sv : Cmd Kern (Unit {0})
os_cpu_trigger_pend_sv = modify (λ s. record s { pend_sv = true })

abbrev pub set_unblock : ℕ → Cmd Kern (Unit {0})
set_unblock n = modify (λ s. record s { next_tick_to_unblock = n })

abbrev pub set_high : Ptr → Cmd Kern (Unit {0})
set_high p = modify (λ s. record s { tcb_high_rdy_ptr = p })

-- `list_is_empty`
unfoldable pub list_is_empty : Ptr → Cmd Kern Bool
list_is_empty l = do n ← on_lists (list_get_num_item l); pure (n == 0)

module _ (at : Place) where
  -- `&rdy_task_list[prio]`
  unfoldable pub ready_list : ℕ → Cmd Kern Ptr
  ready_list prio s = if ltb prio os_cfg_prio_max then ok (at.rdy_task_list prio) s else fault

  -- the loop of `init_task_lists` over `n` priorities from `prio` on
  unfoldable pub init_ready : ℕ → ℕ → Cmd Kern (Unit {0})
  init_ready zero prio = pure tt
  init_ready (suc n) prio = do
    on_lists (os_list_init (at.rdy_task_list prio))
    init_ready n (prio + 1)

  unfoldable pub init_task_lists : Cmd Kern (Unit {0})
  init_task_lists = do
    init_ready os_cfg_prio_max 0
    on_lists (os_list_init at.dly_task_list_1)
    on_lists (os_list_init at.dly_task_list_2)
    on_lists (os_list_init at.suspended_task_list)
    modify (λ s. record s {
      dly_task_list_ptr = at.dly_task_list_1;
      overflow_dly_task_list_ptr = at.dly_task_list_2;
    })

  unfoldable pub task_switch_delay_lists : Cmd Kern (Unit {0})
  task_switch_delay_lists = do
    modify (λ s. record s {
      dly_task_list_ptr = s.overflow_dly_task_list_ptr;
      overflow_dly_task_list_ptr = s.dly_task_list_ptr;
    })
    l ← get (λ s. s.dly_task_list_ptr)
    e ← list_is_empty l
    if e then set_unblock os_cfg_delay_max else do
      p ← on_lists (list_get_owner_of_head_item l)
      v ← on_lists (list_item_get_value (at.state_list_item p))
      set_unblock v

  unfoldable pub add_task_to_rdy_list : Ptr → Cmd Kern (Unit {0})
  add_task_to_rdy_list p = do
    prio ← field (λ s. s.prio) p
    l ← ready_list prio
    on_lists (os_list_insert_end l (at.state_list_item p))
    n ← on_lists (list_get_num_item l)
    if n == 1 then on_table (os_prio_insert prio) else pure tt
    set_state p ready

  unfoldable pub add_new_task_to_rdy_list : Ptr → Cmd Kern (Unit {0})
  add_new_task_to_rdy_list p = do
    enter_critical
    modify (λ s. record s { num_of_tasks = (s.num_of_tasks + 1) % 2 ^ 16 })
    n ← get (λ s. s.num_of_tasks)
    if n == 1 then (do init_task_lists; modify (λ s. record s { tcb_curr_ptr = p })) else (do
      c ← get (λ s. s.tcb_curr_ptr)
      a ← field (λ s. s.prio) c
      b ← field (λ s. s.prio) p
      if leb a b then modify (λ s. record s { tcb_curr_ptr = p }) else pure tt)
    add_task_to_rdy_list p
    exit_critical

  -- The current task leaves its ready list.
  unfoldable pub leave_ready : Ptr → Cmd Kern (Unit {0})
  leave_ready c = do
    n ← on_lists (os_list_remove (at.state_list_item c))
    prio ← field (λ s. s.prio) c
    if n == 0 then on_table (os_prio_remove prio) else pure tt

  -- It waits until the tick `wake`, which lies in the next round of the tick counter if it has wrapped.
  unfoldable pub wait_until : Ptr → ℕ → ℕ → Cmd Kern (Unit {0})
  wait_until c tick wake = do
    on_lists (list_item_set_value (at.state_list_item c) wake)
    if ltb wake tick
        then (do
          l ← get (λ s. s.overflow_dly_task_list_ptr)
          on_lists (os_list_insert l (at.state_list_item c)))
        else (do
          l ← get (λ s. s.dly_task_list_ptr)
          on_lists (os_list_insert l (at.state_list_item c))
          n ← get (λ s. s.next_tick_to_unblock)
          if ltb wake n then set_unblock wake else pure tt)

  unfoldable pub block : Ptr → ℕ → Bool → Cmd Kern (Unit {0})
  block c tick_to_delay can_block_indefinitely = do
    tick ← get (λ s. s.tick_count)
    if tick_to_delay == os_cfg_delay_max && can_block_indefinitely
        then (do
          on_lists (os_list_insert_end at.suspended_task_list (at.state_list_item c))
          set_state c suspended)
        else (do wait_until c tick (add32 tick tick_to_delay); set_state c delayed)

  unfoldable pub choose_highest : Cmd Kern (Unit {0})
  choose_highest = do
    h ← on_table os_prio_get_highest
    l ← ready_list (h % 2 ^ 8)
    p ← on_lists (list_get_owner_of_head_item l)
    set_high p
    set_state p running

  unfoldable pub add_curr_task_to_delay_list : ℕ → Bool → Cmd Kern (Unit {0})
  add_curr_task_to_delay_list tick_to_delay can_block_indefinitely = do
    c ← get (λ s. s.tcb_curr_ptr)
    leave_ready c
    block c tick_to_delay can_block_indefinitely
    choose_highest

  unfoldable pub os_task_delay : ℕ → Cmd Kern (Unit {0})
  os_task_delay tick_to_delay = if tick_to_delay == 0 then pure tt else do
    enter_critical
    add_curr_task_to_delay_list tick_to_delay false
    os_cpu_trigger_pend_sv
    exit_critical

  unfoldable pub os_task_start : Cmd Kern (Unit {0})
  os_task_start = do
    h ← on_table os_prio_get_highest
    l ← ready_list h
    p ← on_lists (list_get_owner_of_head_item l)
    set_high p
    modify (λ s. record s {
      tcb_curr_ptr = s.tcb_high_rdy_ptr;
      tick_count = 0;
      next_tick_to_unblock = os_cfg_delay_max;
      sched_is_running = true;
    })
