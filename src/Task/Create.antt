-- ===== src/Task/Create.antt =====
-- AK-mOS/Src/os_task.c: the creation of tasks, before the scheduler runs. A TCB, once zeroed, has a zero in each field; the
-- addresses of the functions of the two kernel tasks are parameters.
use Prim.Native.Nat.{bit_and}
use ak_m_os_the_simple_rtos.Base.{
  ℕ, ◌+◌, ◌-◌, ◌*◌, ◌%◌, ◌^◌, Bool, true, List, [], ◌∷◌, Cmd, ok, fault, ◌>>=◌, ◌>>◌, pure, ◌==◌,
  ltb, if◌then◌else◌, update, add32, sub32,
}
use ak_m_os_the_simple_rtos.OsList.{
  Ptr, null, Items, os_list_item_init, list_item_set_owner, list_item_set_value,
}
use ak_m_os_the_simple_rtos.Prio.{os_cfg_prio_max}
use ak_m_os_the_simple_rtos.Mem.{os_mem_malloc, os_mem_free}
use ak_m_os_the_simple_rtos.Msg.{Msgs, on_heap, os_msg_queue_init}
use ak_m_os_the_simple_rtos.Task.{
  running, Kern, Place, on_lists, on_msgs, get, modify, add_new_task_to_rdy_list,
}

-- `task_t`
pub record Task : Type 0 where
  pub id : ℕ
  pub pf_task : Ptr
  pub p_arg : Ptr
  pub prio : ℕ
  pub queue_size : ℕ
  pub stack_size : ℕ

-- `OS_CFG_TASK_STK_SIZE_MIN`, `OS_CFG_TASK_MSG_Q_SIZE_NORMAL` and `OS_CFG_TIMER_TASK_PRI` of os_cfg.h
abbrev pub os_cfg_task_stk_size_min : ℕ
os_cfg_task_stk_size_min = 17

abbrev pub os_cfg_task_msg_q_size_normal : ℕ
os_cfg_task_msg_q_size_normal = 8

abbrev pub os_cfg_timer_task_pri : ℕ
os_cfg_timer_task_pri = 0

abbrev pub task_timer_stk_size : ℕ
task_timer_stk_size = 100

abbrev pub value_initial_xpsr : ℕ
value_initial_xpsr = 0x01000000

abbrev pub value_start_address_mask : ℕ
value_start_address_mask = 0xfffffffe

abbrev zero_item : Ptr → Items → Items
zero_item p h = record h {
  next = update h.next p null;
  prev = update h.prev p null;
  value = update h.value p 0;
  owner = update h.owner p null;
  list = update h.list p null;
}

abbrev zero_queue : Ptr → Msgs → Msgs
zero_queue q m = record m {
  head_ptr = update m.head_ptr q null;
  tail_ptr = update m.tail_ptr q null;
  size_max = update m.size_max q 0;
  size_curr = update m.size_curr q 0;
}

-- `*p = v`
unfoldable pub set_word : Ptr → ℕ → Cmd Kern (Unit {0})
set_word p v s = if p == null then fault else ok tt (record s { words = update s.words p v })

-- The first stack frame, in the `stack_size` words from `p_stack` on: where the stack pointer ends.
unfoldable pub init_stack : Ptr → ℕ → Ptr → Ptr → Cmd Kern Ptr
init_stack p_stack stack_size pf_task p_arg = do
  let top : Ptr = add32 p_stack (4 * (stack_size - 1))
  let aligned : Ptr = top - top % 8
  set_word (sub32 aligned 4) value_initial_xpsr
  set_word (sub32 aligned 8) (bit_and pf_task value_start_address_mask)
  set_word (sub32 aligned 12) 0x0E
  set_word (sub32 aligned 32) p_arg
  pure (sub32 aligned 64)

module _ (at : Place) where
  -- `memset((void *)p_new_tcb, 0x00, SIZE_OF_TCB)`
  unfoldable pub zero_tcb : Ptr → Cmd Kern (Unit {0})
  zero_tcb p s = ok tt (record s {
    stk_ptr = update s.stk_ptr p null;
    stk_limit_ptr = update s.stk_limit_ptr p null;
    prio = update s.prio p 0;
    stk_size = update s.stk_size p 0;
    id = update s.id p 0;
    state = update s.state p running;
    lists = zero_item (at.event_list_item p) (zero_item (at.state_list_item p) s.lists);
    msgs = zero_queue (at.msg_queue p) s.msgs;
  })

  -- The memory of a task: its stack and its TCB, or none of the two.
  unfoldable pub alloc_task : ℕ → Cmd Kern (Ptr × Ptr)
  alloc_task stack_size = do
    p_stack ← on_msgs (on_heap (os_mem_malloc at.layout (stack_size * 4 % 2 ^ 32)))
    if p_stack == null then pure (null, null) else do
      p ← on_msgs (on_heap (os_mem_malloc at.layout at.size_of_tcb))
      if p == null
          then (do on_msgs (on_heap (os_mem_free at.layout p_stack)); pure (null, null))
          else (do
            zero_tcb p
            modify (λ s. record s { stk_limit_ptr = update s.stk_limit_ptr p p_stack })
            pure (p_stack, p))

  unfoldable pub fill_tcb : Ptr → Ptr → Task → Cmd Kern (Unit {0})
  fill_tcb p stk t = do
    modify (λ s. record s { stk_ptr = update s.stk_ptr p stk })
    modify (λ s. record s { stk_size = update s.stk_size p t.stack_size })
    modify (λ s. record s { id = update s.id p t.id })
    modify (λ s. record s { prio = update s.prio p t.prio })
    on_msgs (os_msg_queue_init (at.msg_queue p) (t.queue_size % 2 ^ 8))
    on_lists (os_list_item_init (at.state_list_item p))
    on_lists (os_list_item_init (at.event_list_item p))
    on_lists (list_item_set_owner (at.state_list_item p) p)
    on_lists (list_item_set_owner (at.event_list_item p) p)
    on_lists (list_item_set_value (at.state_list_item p) t.prio)

  -- The guards of `os_task_create`.
  abbrev pub is_refused : Task → Kern → Bool
  is_refused t s =
      if s.sched_is_running
      then true
      else if ltb (os_cfg_prio_max - 1) t.prio
      then true
      else if t.pf_task == null
      then true
      else ltb t.stack_size os_cfg_task_stk_size_min

  unfoldable pub os_task_create : Task → Cmd Kern Ptr
  os_task_create t = do
    refused ← get (is_refused t)
    if refused then pure null else do
      (p_stack, p) ← alloc_task t.stack_size
      if p == null then pure null else do
        stk ← init_stack p_stack t.stack_size t.pf_task t.p_arg
        fill_tcb p stk t
        add_new_task_to_rdy_list at p
        pure p

  -- `task_tcb_list[id] = p`
  unfoldable pub list_task : ℕ → Ptr → Cmd Kern (Unit {0})
  list_task id p s =
      if ltb id (at.task_eot_id + 2)
      then ok tt (record s { task_tcb_list = update s.task_tcb_list id p })
      else fault

  -- The loop of `os_task_create_list` over the entries that are left.
  unfoldable pub create_entries : List Task → Cmd Kern (Unit {0})
  create_entries [] = pure tt
  create_entries (t ∷ rest) = do p ← os_task_create t; list_task t.id p; create_entries rest

  abbrev pub task_timer : Task
  task_timer = record {
    id = (at.task_eot_id + 1) % 2 ^ 8;
    pf_task = at.task_timer_func;
    p_arg = null;
    prio = os_cfg_timer_task_pri;
    queue_size = os_cfg_task_msg_q_size_normal;
    stack_size = task_timer_stk_size;
  }

  abbrev pub task_idle : Task
  task_idle = record {
    id = at.task_eot_id % 2 ^ 8;
    pf_task = at.task_idle_func;
    p_arg = null;
    prio = os_cfg_prio_max - 1;
    queue_size = 0;
    stack_size = os_cfg_task_stk_size_min;
  }

  unfoldable pub os_task_create_list : List Task → Cmd Kern (Unit {0})
  os_task_create_list task_tbl = do
    create_entries task_tbl
    p ← os_task_create task_timer
    list_task (at.task_eot_id % 2 ^ 8 + 1) p
    p ← os_task_create task_idle
    list_task (at.task_eot_id % 2 ^ 8) p
