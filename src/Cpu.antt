-- ===== src/Cpu.antt =====
-- AK-mOS/Src/os_cpu.c and AK-mOS/Inc/os_cpu.h: the interrupt handlers. The assembly of the context switch is read
-- instruction by instruction: `regs` holds R4 to R11, `words` the words of the stacks, `psp` the process stack pointer. The
-- processor itself saves and restores the other registers, below `psp`; the first word of a TCB is its `stk_ptr`.
mod Examples
pub mod Registers
pub mod Switch
pub mod Start
use ak_m_os_the_simple_rtos.Base.{
  ℕ, zero, suc, ◌+◌, ◌-◌, Bool, true, false, Run, Cmd, ok, fault, hang, ◌>>=◌, ◌>>◌, pure, ◌==◌,
  if◌then◌else◌, update, add32, sub32,
}
use ak_m_os_the_simple_rtos.OsList.{Ptr, null}
use ak_m_os_the_simple_rtos.Kernel.{Critical}
use ak_m_os_the_simple_rtos.Msg.{Msgs}
use ak_m_os_the_simple_rtos.Task.{Kern, Place, get, modify, field, os_cpu_trigger_pend_sv}
use ak_m_os_the_simple_rtos.Task.Tick.{os_task_increment_tick}

-- `STM`: `n` registers from `r` on go to the words from `p` on.
unfoldable pub store_regs : ℕ → ℕ → Ptr → Cmd Kern (Unit {0})
store_regs zero r p = pure tt
store_regs (suc n) r p = do
  modify (λ s. record s { words = update s.words p (s.regs r) })
  store_regs n (r + 1) (add32 p 4)

-- `LDM`
unfoldable pub load_regs : ℕ → ℕ → Ptr → Cmd Kern (Unit {0})
load_regs zero r p = pure tt
load_regs (suc n) r p = do
  modify (λ s. record s { regs = update s.regs r (s.words p) })
  load_regs n (r + 1) (add32 p 4)

-- `STR R0, [R1]`, with R1 the address of a TCB
unfoldable pub set_stk_ptr : Ptr → Ptr → Cmd Kern (Unit {0})
set_stk_ptr p r0 s =
    if p == null then fault else ok tt (record s { stk_ptr = update s.stk_ptr p r0 })

abbrev pub set_psp : Ptr → Cmd Kern (Unit {0})
set_psp r0 = modify (λ s. record s { psp = r0 })

-- Save the registers of the task that is switched out, the first time excepted.
unfoldable pub save_context : Cmd Kern (Unit {0})
save_context = do
  r0 ← get (λ s. s.psp)
  if r0 == 0 then pure tt else do
    store_regs 8 4 (sub32 r0 0x20)
    r1 ← get (λ s. s.tcb_curr_ptr)
    set_stk_ptr r1 (sub32 r0 0x20)

-- `OS_CPU_PendSVHandler_nosave`
unfoldable pub load_context : Cmd Kern (Unit {0})
load_context = do
  modify (λ s. record s { tcb_curr_ptr = s.tcb_high_rdy_ptr })
  r2 ← get (λ s. s.tcb_curr_ptr)
  r0 ← field (λ s. s.stk_ptr) r2
  load_regs 8 4 r0
  set_psp (add32 r0 0x20)

unfoldable pub os_cpu_pend_sv_handler : Cmd Kern (Unit {0})
os_cpu_pend_sv_handler = do modify (λ s. record s { pend_sv = false }); save_context; load_context

-- `CPSID I` and `CPSIE I`
abbrev pub set_interrupts : Bool → Cmd Kern (Unit {0})
set_interrupts b = modify (λ s. record s {
  msgs = record s.msgs { critical = record s.msgs.critical { interrupts = b } };
})

unfoldable pub os_cpu_svc_handler : Cmd Kern (Unit {0})
os_cpu_svc_handler = do
  set_interrupts false
  r1 ← get (λ s. s.tcb_curr_ptr)
  r0 ← field (λ s. s.stk_ptr) r1
  load_regs 8 4 r0
  set_psp (add32 r0 0x20)
  set_interrupts true

unfoldable pub os_cpu_sys_tick_handler : Place → Cmd Kern (Unit {0})
os_cpu_sys_tick_handler at = do
  set_interrupts false
  needed ← os_task_increment_tick at
  if needed then os_cpu_trigger_pend_sv else pure tt
  set_interrupts true
