-- ===== src/Cpu/Start.antt =====
-- The start of the first task: what `os_task_create` has put on its stack is what the SVC handler leaves to the processor.
use Prim.Native.Nat.{bit_and}
use ak_m_os_the_simple_rtos.Base.{
  ℕ, ◌+◌, ◌*◌, ◌%◌, ◌^◌, ◌<◌, ◌≤◌, ◌≡◌, refl, true, false, ap, ◌∙◌, ◌≢◌, arith, ==_of_ne, add32, ok,
  Returns, returns, result_of, bind,
}
use ak_m_os_the_simple_rtos.OsList.{Ptr, null}
use ak_m_os_the_simple_rtos.Task.{Kern, field}
use ak_m_os_the_simple_rtos.Task.Create.{init_stack, value_initial_xpsr, value_start_address_mask}
use ak_m_os_the_simple_rtos.Task.Stack.{Framed, init_stack-Framed}
use ak_m_os_the_simple_rtos.Cpu.{os_cpu_svc_handler}
use ak_m_os_the_simple_rtos.Cpu.Registers.{load_regs-Loaded}

-- The processor is about to call the function `pf` with the argument `arg`: it reads R0, PC and xPSR from the frame at `psp`.
pub record Started (base size : ℕ) (pf arg : Ptr) (s s' : Kern) : Type 0 where
  pub curr : s'.tcb_curr_ptr ≡ s.tcb_curr_ptr
  pub interrupts : s'.msgs.critical.interrupts ≡ true
  pub low : base ≤ s'.psp
  pub high : s'.psp + 32 ≤ base + 4 * size
  pub aligned : s'.psp % 8 ≡ 0
  pub r0 : s'.words s'.psp ≡ arg
  pub pc : s'.words (s'.psp + 24) ≡ bit_and pf value_start_address_mask
  pub xpsr : s'.words (s'.psp + 28) ≡ value_initial_xpsr

-- If the stack of the current task holds what its creation has put there, `os_cpu_svc_handler`
-- leaves the process stack pointer inside that stack, at a multiple of 8, on a frame from which the
-- processor loads the argument, the address of the task's function with bit 0 clear, and the initial
-- xPSR, and the interrupts on. The stack has at least 18 words, begins at a multiple of 4 other than
-- 0 and lies below 2 ^ 32.
pub svc-Started :
    (base size : ℕ) (pf arg : Ptr) (s s1 s2 : Kern) (stk : Ptr)
    → 18 ≤ size
    → 0 < base
    → base + 4 * size < 2 ^ 32
    → base % 4 ≡ 0
    → init_stack base size pf arg s ≡ ok stk s1
    → s2.tcb_curr_ptr ≢ null
    → s2.stk_ptr s2.tcb_curr_ptr ≡ stk
    → ((a : Ptr) → base ≤ a → a < base + 4 * size → s2.words a ≡ s1.words a)
    → Returns (λ _. Started base size pf arg s2) (os_cpu_svc_handler s2)
unfolding os_cpu_svc_handler field
svc-Started base size pf arg s s1 s2 stk min low whole words run ne at same =
    rw (==_of_ne s2.tcb_curr_ptr null ne, at)
      (bind (load_regs-Loaded 8 4 stk masked (omega (arith, fr.high))) (λ _ s' ld. returns (record {
        curr = ap (λ u. u.tcb_curr_ptr) ld.0;
        interrupts = refl;
        low = omega (arith, psp, fr.low);
        high = omega (arith, psp, fr.high);
        aligned = omega (arith, psp, fr.aligned);
        r0 =
            ap (λ u. u.words (add32 stk 0x20)) ld.0
            ∙ ap s2.words psp
            ∙ word 32 (omega arith)
            ∙ fr.r0;
        pc =
            ap (λ u. u.words (add32 stk 0x20 + 24)) ld.0
            ∙ ap s2.words at24
            ∙ word 56 (omega arith)
            ∙ fr.pc;
        xpsr =
            ap (λ u. u.words (add32 stk 0x20 + 28)) ld.0
            ∙ ap s2.words at28
            ∙ word 60 (omega arith)
            ∙ fr.xpsr;
      })))
  where
    -- the state with the interrupts off
    masked : Kern
    masked = record s2 {
      msgs = record s2.msgs { critical = record s2.msgs.critical { interrupts = false } };
    }

    fr : Framed base size pf arg s stk s1
    fr = result_of (init_stack-Framed base size pf arg s whole words min low) run

    psp : add32 stk 0x20 ≡ stk + 32
    psp = omega (arith, fr.high)

    at24 : add32 stk 0x20 + 24 ≡ stk + 56
    at24 = omega (arith, psp)

    at28 : add32 stk 0x20 + 28 ≡ stk + 60
    at28 = omega (arith, psp)

    word : (i : ℕ) → i < 64 → s2.words (stk + i) ≡ s1.words (stk + i)
    word i lt = same (stk + i) (omega (arith, fr.low)) (omega (arith, fr.high))
