-- ===== src/Task/Board.antt =====
-- Concrete tasks, for the examples: an idle task, and a task of the priority 3 that runs and is then delayed by five ticks.
use mathlib.Core.Path.{subst}
use ak_m_os_the_simple_rtos.Base.{
  ◌+◌, ◌*◌, ◌≡◌, refl, sym, ◌≢◌, inl, inr, true, false, List, [], ◌∷◌, arith, ◌==◌, eq_of_==,
  Bool-cases, ltb, if◌then◌else◌, ◌∈◌, Run, ok, fault, hang, Returns, result_of,
}
use ak_m_os_the_simple_rtos.Mem.{mem_state_free}
use ak_m_os_the_simple_rtos.Msg.{Msgs, msg_type_pure}
use ak_m_os_the_simple_rtos.OsList.{
  Ptr, null, Items, os_cfg_delay_max, read, write, os_list_insert_end, link_first, count_up,
  os_list_remove, unlink, step_back, detach, os_list_insert,
}
use ak_m_os_the_simple_rtos.OsList.Ring.{IsList}
use ak_m_os_the_simple_rtos.Prio.{
  os_prio_insert, read_row, write_row, os_prio_remove, os_prio_get_highest, skip_rows, find_bit,
}
use ak_m_os_the_simple_rtos.Prio.Table.{cleared, cleared-IsTbl, not-ready-cleared}
use ak_m_os_the_simple_rtos.Task.{
  ready, Kern, Place, add_task_to_rdy_list, add_curr_task_to_delay_list, field, ready_list,
  set_state, leave_ready, block, wait_until, choose_highest,
}
use ak_m_os_the_simple_rtos.Task.Sched.{heads, IsSched, IsOut}
use ak_m_os_the_simple_rtos.Task.Leave.{IsReady, left}
use ak_m_os_the_simple_rtos.Task.Block.{Blocked, add_curr_task-Blocked}
use ak_m_os_the_simple_rtos.Task.Park.{parked}
use ak_m_os_the_simple_rtos.Task.Awake.{NoEvent, NoEvents}
use ak_m_os_the_simple_rtos.Task.Ready.{joined, Joined, add_task-Joined}

-- A list takes 28 bytes, a TCB 80, with its items 4 and 24 bytes from its start.
abbrev pub place : Place
place = record {
  rdy_task_list = λ p. 28 * p + 256;
  dly_task_list_1 = 536;
  dly_task_list_2 = 564;
  suspended_task_list = 592;
  state_list_item = λ p. p + 4;
  event_list_item = λ p. p + 24;
  msg_queue = λ p. p + 64;
  size_of_tcb = 80;
  task_eot_id = 3;
  task_idle_func = 0x401;
  task_timer_func = 0x501;
  layout = record { mem_heap = 0x1000; mem_blk_start = 0x2000 };
}

-- A store in which every address is that of an empty list, and an item of none.
abbrev pub blank : Items
blank = record {
  next = λ x. x;
  prev = λ x. x;
  value = λ x. os_cfg_delay_max;
  owner = λ x. if ltb x 9000 then 5000 else 9000;
  list = λ x. null;
  curr = λ x. null;
  num = λ x. 0;
}

abbrev pub msgs : Msgs
msgs = record {
  next = λ p. null;
  size = λ p. 0;
  sig = λ p. 0;
  content_ptr = λ p. null;
  type = λ p. msg_type_pure;
  head_ptr = λ p. null;
  tail_ptr = λ p. null;
  size_max = λ p. 8;
  size_curr = λ p. 0;
  free_list_msg_pool = null;
  msg_pool_used = 0;
  heap = record {
    size = λ p. 0;
    state = λ p. mem_state_free;
    next = λ p. null;
    end_ptr = null;
    byte_available = 0;
  };
  bytes = λ p. 0;
  critical = record { critical_nesting_count = 0; interrupts = true };
}

abbrev pub idle : Ptr
idle = 9000

abbrev pub task : Ptr
task = 5000

abbrev pub empty : Kern
empty = record {
  lists = blank;
  tbl = cleared;
  msgs = msgs;
  prio = λ p. if p == idle then 9 else 3;
  id = λ p. if p == idle then 3 else 0;
  state = λ p. ready;
  stk_ptr = λ p. 0x3000;
  stk_limit_ptr = λ p. 0x2f00;
  stk_size = λ p. 100;
  task_tcb_list = λ i. if i == 3 then idle else task;
  tcb_curr_ptr = task;
  tcb_high_rdy_ptr = idle;
  dly_task_list_ptr = 536;
  overflow_dly_task_list_ptr = 564;
  num_of_tasks = 2;
  tick_count = 10;
  next_tick_to_unblock = os_cfg_delay_max;
  sched_is_running = true;
  pend_sv = false;
  words = λ a. 0;
  regs = λ r. r;
  psp = 0x3000;
}

abbrev pub no_items : Ptr → List Ptr
no_items l = []

pub blank_list : (l : Ptr) → l ≢ null → IsList blank l []
blank_list l ne = record {
  links = (refl, refl);
  distinct = ground arith;
  not_null = ground (arith, ne);
  count = refl;
  small = omega arith;
  inside = λ p m. cc;
  words = λ p m. cc;
  mark = refl;
  cursor = inl refl;
}

pub nowhere : ¬ (null ∈ heads place)
unfolding heads
nowhere m = cc

pub empty-Sched : IsSched place empty no_items 0
unfolding heads
empty-Sched = record {
  store = record {
    lists = λ l m. blank_list l (λ e. nowhere (subst (λ t. t ∈ heads place) e m));
    heads = λ l k ml mk. refl;
    different = ground arith;
    census = refl;
  };
  table = cleared-IsTbl;
  rows = refl;
  marks = λ p lt. not-ready-cleared p;
  owned = λ l x ml mx. cc;
  prios = λ p x lt mx. cc;
  delay = inl (refl, refl);
  sorted = tt;
  sorted_over = tt;
  wake = λ x m. cc;
}

-- the state in which a run ends
abbrev pub final : {A : Type 0} → Run Kern A → Kern
final (ok a s) = s
final fault = empty
final hang = empty

pub idle-IsOut : IsOut place empty idle
unfolding heads
idle-IsOut = record {
  not_null = omega arith;
  prio = omega arith;
  item = record { not_null = omega arith; out = refl; free = refl; word = omega arith };
  owner = refl;
}

abbrev pub with_idle : Kern
with_idle = final (add_task_to_rdy_list place idle empty)

pub idle_runs : add_task_to_rdy_list place idle empty ≡ ok tt with_idle
unfolding add_task_to_rdy_list field ready_list set_state read os_list_insert_end write link_first
    count_up os_prio_insert read_row write_row
idle_runs = refl

pub with_idle-Joined : Joined place no_items idle 0 empty with_idle
with_idle-Joined =
    result_of (add_task-Joined place empty no_items 0 empty-Sched idle idle-IsOut (omega arith))
      idle_runs

pub task-IsOut : IsOut place with_idle task
unfolding heads add_task_to_rdy_list field ready_list set_state read os_list_insert_end write
    link_first count_up os_prio_insert read_row write_row
task-IsOut = record {
  not_null = omega arith;
  prio = omega arith;
  item = record { not_null = omega arith; out = refl; free = refl; word = omega arith };
  owner = refl;
}

abbrev pub idle_listed : Ptr → List Ptr
idle_listed = joined place empty no_items idle

abbrev pub with_task : Kern
with_task = final (add_task_to_rdy_list place task with_idle)

pub task_runs : add_task_to_rdy_list place task with_idle ≡ ok tt with_task
unfolding add_task_to_rdy_list field ready_list set_state read os_list_insert_end write link_first
    count_up os_prio_insert read_row write_row
task_runs = refl

pub with_task-Joined : Joined place idle_listed task 1 with_idle with_task
with_task-Joined =
    result_of
      (add_task-Joined place with_idle idle_listed 1 with_idle-Joined.sched task task-IsOut
        (omega arith))
      task_runs

abbrev pub both_listed : Ptr → List Ptr
both_listed = joined place with_idle idle_listed task

pub with_task-Sched : IsSched place with_task both_listed 2
with_task-Sched = with_task-Joined.sched

pub task-IsReady : IsReady place with_task both_listed task [] []
unfolding add_task_to_rdy_list field ready_list set_state read os_list_insert_end write link_first
    count_up os_prio_insert read_row write_row
task-IsReady = record { not_null = omega arith; prio = omega arith; owner = refl; here = refl }

abbrev pub with_delay : Kern
with_delay = final (add_curr_task_to_delay_list place 5 false with_task)

with_task_blocks :
    Returns
      (λ _. Blocked place both_listed [] 1 5 false with_task)
      (add_curr_task_to_delay_list place 5 false with_task)
unfolding add_task_to_rdy_list field ready_list set_state read os_list_insert_end write link_first
    count_up os_prio_insert read_row write_row
with_task_blocks =
    add_curr_task-Blocked place with_task both_listed 1 with_task-Sched [] [] task-IsReady
      (omega arith) 5 false 9 (omega arith) refl

pub delay_runs : add_curr_task_to_delay_list place 5 false with_task ≡ ok tt with_delay
unfolding add_task_to_rdy_list field ready_list set_state read os_list_insert_end write link_first
    count_up os_prio_insert read_row write_row add_curr_task_to_delay_list leave_ready
    os_list_remove unlink step_back detach os_prio_remove block wait_until os_list_insert
    choose_highest os_prio_get_highest skip_rows find_bit
delay_runs = refl

pub with_delay-Blocked : Blocked place both_listed [] 1 5 false with_task with_delay
with_delay-Blocked = result_of with_task_blocks delay_runs

abbrev pub tasks : List Ptr
tasks = idle ∷ task ∷ []

every_task : (P : Ptr → Type 0) → P idle → P task → (p : Ptr) → p ∈ tasks → P p
every_task P a b p m = elim (Bool-cases (p == idle)) [
  | inl e ↦ subst P (sym (eq_of_== p idle e)) a
  | inr e ↦ let last : p ≡ task = ground (arith, m, e) in subst P (sym last) b
]

pub with_delay-NoEvents : NoEvents place with_delay tasks
unfolding heads add_task_to_rdy_list field ready_list set_state read os_list_insert_end write
    link_first count_up os_prio_insert read_row write_row add_curr_task_to_delay_list leave_ready
    os_list_remove unlink step_back detach os_prio_remove block wait_until os_list_insert
    choose_highest os_prio_get_highest skip_rows find_bit
with_delay-NoEvents =
    every_task (λ p. NoEvent place with_delay.lists p)
      (record { not_null = omega arith; head = refl; free = refl })
      (record { not_null = omega arith; head = refl; free = refl })

abbrev pub delayed_listed : Ptr → List Ptr
delayed_listed =
    parked place with_task (left place with_task both_listed with_task.tcb_curr_ptr [])
      with_task.tcb_curr_ptr 5 false
