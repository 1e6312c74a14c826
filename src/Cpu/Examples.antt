-- ===== src/Cpu/Examples.antt =====
-- Two tasks at concrete addresses that take turns on the processor.
use ak_m_os_the_simple_rtos.Base.{
  ◌≡◌, refl, inr, true, [], ◌∷◌, arith, Run, ok, fault, hang, Returns,
}
use ak_m_os_the_simple_rtos.Mem.{mem_state_free}
use ak_m_os_the_simple_rtos.Msg.{Msgs, msg_type_pure}
use ak_m_os_the_simple_rtos.OsList.{Ptr, null}
use ak_m_os_the_simple_rtos.Task.{Kern, ready, field}
use ak_m_os_the_simple_rtos.Task.Create.{init_stack, set_word}
use ak_m_os_the_simple_rtos.Cpu.{
  os_cpu_pend_sv_handler, os_cpu_svc_handler, save_context, load_context, store_regs, load_regs,
  set_stk_ptr,
}
use ak_m_os_the_simple_rtos.Cpu.Switch.{
  CanSwitch, Switched, SameRegs, pend_sv-Switched, pend_sv-back,
}
use ak_m_os_the_simple_rtos.Cpu.Start.{Started, svc-Started}

abbrev msgs : Msgs
msgs = record {
  next = λ p. null;
  size = λ p. 0;
  sig = λ p. 0;
  content_ptr = λ p. null;
  type = λ p. msg_type_pure;
  head_ptr = λ p. null;
  tail_ptr = λ p. null;
  size_max = λ p. 8;
  size_curr = λ p. 0;
  free_list_msg_pool = null;
  msg_pool_used = 0;
  heap = record {
    size = λ p. 0;
    state = λ p. mem_state_free;
    next = λ p. null;
    end_ptr = null;
    byte_available = 0;
  };
  bytes = λ p. 0;
  critical = record { critical_nesting_count = 0; interrupts = true };
}

-- The task 5000 runs on a stack below 0x3000, the task 9000 waits with its registers at 0x3f00.
abbrev board : Kern
board = record {
  lists = record {
    next = λ x. x;
    prev = λ x. x;
    value = λ x. 0;
    owner = λ x. null;
    list = λ x. null;
    curr = λ x. null;
    num = λ x. 0;
  };
  tbl = 0 ∷ 0 ∷ [];
  msgs = msgs;
  prio = λ p. 3;
  id = λ p. 0;
  state = λ p. ready;
  stk_ptr = λ p. 0x3f00;
  stk_limit_ptr = λ p. 0x2f00;
  stk_size = λ p. 100;
  task_tcb_list = λ i. null;
  tcb_curr_ptr = 5000;
  tcb_high_rdy_ptr = 9000;
  dly_task_list_ptr = 200;
  overflow_dly_task_list_ptr = 201;
  num_of_tasks = 2;
  tick_count = 10;
  next_tick_to_unblock = 20;
  sched_is_running = true;
  pend_sv = true;
  words = λ a. 0;
  regs = λ r. r;
  psp = 0x3000;
}

board-CanSwitch : CanSwitch board
board-CanSwitch = record {
  curr = omega arith;
  high = omega arith;
  room = omega arith;
  word = omega arith;
  next = omega arith;
}

pend_sv-Switched_example : Returns (λ _. Switched board) (os_cpu_pend_sv_handler board)
pend_sv-Switched_example = pend_sv-Switched board board-CanSwitch

abbrev final : Run Kern (Unit {0}) → Kern
final (ok a s) = s
final fault = board
final hang = board

-- the other task runs, and is to be switched out for the first one
abbrev other : Kern
other = record (final (os_cpu_pend_sv_handler board)) { tcb_high_rdy_ptr = 5000; regs = λ r. 77 }

switch_runs : os_cpu_pend_sv_handler board ≡ ok tt (final (os_cpu_pend_sv_handler board))
unfolding os_cpu_pend_sv_handler save_context load_context store_regs load_regs set_stk_ptr field
switch_runs = refl

other-CanSwitch : CanSwitch other
unfolding os_cpu_pend_sv_handler save_context load_context store_regs load_regs set_stk_ptr field
other-CanSwitch = record {
  curr = omega arith;
  high = omega arith;
  room = omega arith;
  word = omega arith;
  next = omega arith;
}

pend_sv-back_example :
    Returns
      (λ _ s3. (s3.tcb_curr_ptr ≡ 5000) × (s3.psp ≡ 0x3000) × SameRegs board s3)
      (os_cpu_pend_sv_handler other)
unfolding os_cpu_pend_sv_handler save_context load_context store_regs load_regs set_stk_ptr field
pend_sv-back_example =
    pend_sv-back board (final (os_cpu_pend_sv_handler board)) other board-CanSwitch switch_runs
      other-CanSwitch refl (omega arith) refl (λ a ge lt. refl) (inr (omega arith))

-- the stack of a new task, with the function 0x401 and the argument 7
abbrev stacked : Run Kern Ptr → Kern
stacked (ok a s) = record s { stk_ptr = λ p. a }
stacked fault = board
stacked hang = board

abbrev fresh : Kern
fresh = stacked (init_stack 0x2f00 20 0x401 7 board)

svc-Started_example : Returns (λ _. Started 0x2f00 20 0x401 7 fresh) (os_cpu_svc_handler fresh)
unfolding init_stack set_word
svc-Started_example =
    svc-Started 0x2f00 20 0x401 7 board (record fresh { stk_ptr = board.stk_ptr }) fresh 0x2f08
      (omega arith) (omega arith) (omega arith) refl refl (omega arith) refl (λ a ge lt. refl)
