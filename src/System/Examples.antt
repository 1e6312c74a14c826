-- ===== src/System/Examples.antt =====
-- The kernel's start at concrete addresses. Task/Board is private to the tasks, so the state is written out.
use ak_m_os_the_simple_rtos.Base.{ℕ, ◌+◌, ◌*◌, refl, true, false, [], ◌∷◌, arith, pure, Returns}
use ak_m_os_the_simple_rtos.Kernel.{IsCritical}
use ak_m_os_the_simple_rtos.Mem.{mem_state_free}
use ak_m_os_the_simple_rtos.Msg.{Msgs, msg_type_pure}
use ak_m_os_the_simple_rtos.Msg.Pool.{IsArray}
use ak_m_os_the_simple_rtos.OsList.{Ptr, null, Items}
use ak_m_os_the_simple_rtos.Timer.{Statics}
use ak_m_os_the_simple_rtos.Task.{Place, ready}
use ak_m_os_the_simple_rtos.System.{System, os_init}
use ak_m_os_the_simple_rtos.System.Init.{IsPlaced, Initial, os_init-Initial}

abbrev place : Place
place = record {
  rdy_task_list = λ p. 100 + p;
  dly_task_list_1 = 200;
  dly_task_list_2 = 201;
  suspended_task_list = 202;
  state_list_item = λ p. 2 * p + 10000;
  event_list_item = λ p. 2 * p + 10001;
  msg_queue = λ p. p + 60;
  size_of_tcb = 80;
  task_eot_id = 3;
  task_idle_func = 0x401;
  task_timer_func = 0x501;
  layout = record { mem_heap = 0x1000; mem_blk_start = 0x2000 };
}

abbrev statics : Statics
statics = record {
  timer_pool = λ i. 3000 + i;
  timer_list_item = λ p. p + 100;
  timer_list_1 = 300;
  timer_list_2 = 301;
  task_eot_id = 3;
}

abbrev array : ℕ → Ptr
array i = 2000 + 24 * i

abbrev items : Items
items = record {
  next = λ x. 7;
  prev = λ x. 7;
  value = λ x. 7;
  owner = λ x. 7;
  list = λ x. 7;
  curr = λ x. 7;
  num = λ x. 7;
}

abbrev msgs : Msgs
msgs = record {
  next = λ p. null;
  size = λ p. 0;
  sig = λ p. 0;
  content_ptr = λ p. null;
  type = λ p. msg_type_pure;
  head_ptr = λ p. null;
  tail_ptr = λ p. null;
  size_max = λ p. 8;
  size_curr = λ p. 0;
  free_list_msg_pool = null;
  msg_pool_used = 0;
  heap = record {
    size = λ p. 0;
    state = λ p. mem_state_free;
    next = λ p. null;
    end_ptr = null;
    byte_available = 0;
  };
  bytes = λ p. 0;
  critical = record { critical_nesting_count = 0; interrupts = true };
}

-- the memory as it may be before the start
abbrev raw : System
raw = record {
  kern = record {
    lists = items;
    tbl = 255 ∷ 7 ∷ [];
    msgs = msgs;
    prio = λ p. 0;
    id = λ p. 0;
    state = λ p. ready;
    stk_ptr = λ p. null;
    stk_limit_ptr = λ p. null;
    stk_size = λ p. 0;
    task_tcb_list = λ i. null;
    tcb_curr_ptr = null;
    tcb_high_rdy_ptr = null;
    dly_task_list_ptr = null;
    overflow_dly_task_list_ptr = null;
    num_of_tasks = 0;
    tick_count = 0;
    next_tick_to_unblock = 0;
    sched_is_running = false;
    pend_sv = false;
    words = λ a. 0;
    regs = λ r. 0;
    psp = 0;
  };
  timers = record {
    next = λ x. 0;
    id = λ x. 0;
    sig = λ x. 0;
    des_task_id = λ x. 0;
    func_cb = λ x. null;
    period = λ x. 0;
    free_list_timer_pool = null;
    timer_pool_used = 3;
    timer_list_ptr = null;
    overflow_timer_list_ptr = null;
    next_tick_to_unblock_timer = 0;
    lists = items;
    os_tick = 0;
    critical = msgs.critical;
  };
  last_time = 0;
}

statics-IsPlaced : IsPlaced statics
statics-IsPlaced = record {
  entry = λ i lt. omega arith;
  one = omega arith;
  two = omega arith;
  apart = omega arith;
}

array-IsArray : IsArray array
array-IsArray = record {
  not_null = λ i lt e. omega (arith, e);
  apart = λ i j lt lt' e. omega (arith, e, lt);
}

raw-IsCritical : IsCritical msgs.critical
raw-IsCritical = record { room = omega arith; off = refl }

os_init-Initial_example :
    Returns (λ _. Initial array statics raw) (os_init place statics (λ cb. pure tt) array raw)
os_init-Initial_example =
    os_init-Initial place statics (λ cb. pure tt) array raw statics-IsPlaced array-IsArray
      (omega arith) refl raw-IsCritical
