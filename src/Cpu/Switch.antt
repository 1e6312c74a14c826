-- ===== src/Cpu/Switch.antt =====
-- The context switch of os_cpu.c: what it saves, what it loads, and that a task goes on with the registers that it had.
use mathlib.Core.Path.{subst}
use ak_m_os_the_simple_rtos.Base.{
  ℕ, ◌+◌, ◌*◌, ◌-◌, ◌^◌, ◌<◌, ◌≤◌, ◌≡◌, sym, ap, ◌∙◌, ◌≢◌, ◌⊎◌, inl, inr, false, arith, ◌==◌,
  ==_of_ne, Bool-cases, update, sub32, ok, Returns, returns, result_of, bind, mono,
}
use ak_m_os_the_simple_rtos.OsList.{Ptr, null}
use ak_m_os_the_simple_rtos.OsList.Store.{update_self, update_else}
use ak_m_os_the_simple_rtos.Task.{Kern, field}
use ak_m_os_the_simple_rtos.Cpu.{set_stk_ptr, save_context, load_context, os_cpu_pend_sv_handler}
use ak_m_os_the_simple_rtos.Cpu.Registers.{store_regs-Stored, load_regs-Loaded}

-- What the handler leaves, for a task that runs: the new task is the current one, and has its registers and its stack pointer
-- from its stack; those of the old task are in the 32 bytes below its stack pointer.
pub record Switched (s s' : Kern) : Type 0 where
  pub curr : s'.tcb_curr_ptr ≡ s.tcb_high_rdy_ptr
  pub stk_ptr : s'.stk_ptr ≡ update s.stk_ptr s.tcb_curr_ptr (s.psp - 32)
  pub saved : (i : ℕ) → i < 8 → s'.words (s.psp - 32 + 4 * i) ≡ s.regs (4 + i)
  pub kept : (a : Ptr) → (a < s.psp - 32) ⊎ (s.psp ≤ a) → s'.words a ≡ s.words a
  pub loaded : (i : ℕ) → i < 8 → s'.regs (4 + i) ≡ s'.words (s'.stk_ptr s.tcb_high_rdy_ptr + 4 * i)
  pub psp : s'.psp ≡ s'.stk_ptr s.tcb_high_rdy_ptr + 32

-- A task that runs on a stack of its own, and one to switch to.
pub record CanSwitch (s : Kern) : Type 0 where
  pub curr : s.tcb_curr_ptr ≢ null
  pub high : s.tcb_high_rdy_ptr ≢ null
  pub room : 32 ≤ s.psp
  pub word : s.psp < 2 ^ 32
  pub next : s.stk_ptr s.tcb_high_rdy_ptr + 32 < 2 ^ 32

module _ (s : Kern) (can : CanSwitch s) where
  -- the state after the first part of the handler, given the words of the stacks
  abbrev saved_state : (Ptr → ℕ) → Kern
  saved_state w = record s {
    pend_sv = false;
    stk_ptr = update s.stk_ptr s.tcb_curr_ptr (s.psp - 32);
    words = w;
  }

  save_context-saves :
      Returns
        (λ _ s'.
          (s' ≡ saved_state s'.words)
          × ((i : ℕ) → i < 8 → s'.words (s.psp - 32 + 4 * i) ≡ s.regs (4 + i))
          × ((a : Ptr) → (a < s.psp - 32) ⊎ (s.psp ≤ a) → s'.words a ≡ s.words a))
        (save_context (record s { pend_sv = false }))
  unfolding save_context set_stk_ptr
  save_context-saves =
      let running : (s.psp == 0) ≡ false = ground (arith, can.room) in
      let below : sub32 s.psp 0x20 ≡ s.psp - 32 = omega (arith, can.room, can.word) in
      rw (running, below)
        (bind
          (store_regs-Stored 8 4 (s.psp - 32) (record s { pend_sv = false })
            (omega (arith, can.room, can.word)))
          (λ _ s' st.
            let c : s'.tcb_curr_ptr ≡ s.tcb_curr_ptr = ap (λ u. u.tcb_curr_ptr) st.0 in
            let p : s'.stk_ptr ≡ s.stk_ptr = ap (λ u. u.stk_ptr) st.0 in
            let put : Kern → Kern = λ u. record u {
              stk_ptr = update s.stk_ptr s.tcb_curr_ptr (s.psp - 32);
              tcb_curr_ptr = s.tcb_curr_ptr;
            } in
            rw (c, p, ==_of_ne s.tcb_curr_ptr null can.curr)
              (returns (ap put st.0, st.1, λ a o. st.2 a (beyond a o)))))
    where
      beyond :
          (a : Ptr) → (a < s.psp - 32) ⊎ (s.psp ≤ a) → (a < s.psp - 32) ⊎ (s.psp - 32 + 4 * 8 ≤ a)
      beyond a (inl lt) = inl lt
      beyond a (inr le) = inr (omega (arith, can.room))

  abbrev new : Ptr
  new = update s.stk_ptr s.tcb_curr_ptr (s.psp - 32) s.tcb_high_rdy_ptr

  new_ptr : update s.stk_ptr s.tcb_curr_ptr (s.psp - 32) s.tcb_high_rdy_ptr + 32 < 2 ^ 32
  new_ptr = elim (Bool-cases (s.tcb_high_rdy_ptr == s.tcb_curr_ptr)) [
    | inl e ↦ rw e (omega (arith, can.room, can.word))
    | inr e ↦ rw e can.next
  ]

  load_context-loads :
      (w : Ptr → ℕ)
      → ((i : ℕ) → i < 8 → w (s.psp - 32 + 4 * i) ≡ s.regs (4 + i))
      → ((a : Ptr) → (a < s.psp - 32) ⊎ (s.psp ≤ a) → w a ≡ s.words a)
      → Returns (λ _. Switched s) (load_context (saved_state w))
  unfolding load_context field
  load_context-loads w saved kept = rw (==_of_ne s.tcb_high_rdy_ptr null can.high) (
      bind
        (load_regs-Loaded 8 4 new (record (saved_state w) { tcb_curr_ptr = s.tcb_high_rdy_ptr })
          new_ptr)
        (λ _ s' ld. returns (record {
          curr = ap (λ u. u.tcb_curr_ptr) ld.0;
          stk_ptr = ap (λ u. u.stk_ptr) ld.0;
          saved = λ i lt. ap (λ u. u.words (s.psp - 32 + 4 * i)) ld.0 ∙ saved i lt;
          kept = λ a o. ap (λ u. u.words a) ld.0 ∙ kept a o;
          loaded = λ i lt.
              ld.1 i lt ∙ sym (ap (λ u. u.words (u.stk_ptr s.tcb_high_rdy_ptr + 4 * i)) ld.0);
          psp = omega (arith, new_ptr) ∙ sym (ap (λ u. u.stk_ptr s.tcb_high_rdy_ptr + 32) ld.0);
        })))

  -- `os_cpu_pend_sv_handler`, while a task runs and there is one to switch to, saves the registers
  -- R4 to R11 of the task in the 32 bytes below its stack pointer, keeps the address of these bytes
  -- in its TCB, and changes no other word; the other task becomes the current one, with its
  -- registers from its stack and its stack pointer 32 bytes further up. The stack pointers neither
  -- fall below 0 nor leave 32 bits.
  pub pend_sv-Switched : Returns (λ _. Switched s) (os_cpu_pend_sv_handler s)
  unfolding os_cpu_pend_sv_handler
  pend_sv-Switched = bind save_context-saves (λ _ s' sv.
      subst (λ u. Returns (λ _. Switched s) (load_context u)) (sym sv.0)
        (load_context-loads s'.words sv.1 sv.2))

-- The registers R4 to R11.
abbrev pub SameRegs : Kern → Kern → Type 0
SameRegs s s' = (r : ℕ) → 4 ≤ r → r < 12 → s'.regs r ≡ s.regs r

-- If `os_cpu_pend_sv_handler` switches a running task out, and another running task is switched out
-- for it later, then it is the current task again, with its stack pointer and its registers R4 to
-- R11 as they were. In between its saved stack pointer and the 32 bytes below its stack pointer have
-- not changed, and the other task's stack pointer is not within 32 bytes above or below.
pub pend_sv-back :
    (s s1 s2 : Kern)
    → CanSwitch s
    → os_cpu_pend_sv_handler s ≡ ok tt s1
    → CanSwitch s2
    → s2.tcb_high_rdy_ptr ≡ s.tcb_curr_ptr
    → s2.tcb_curr_ptr ≢ s.tcb_curr_ptr
    → s2.stk_ptr s.tcb_curr_ptr ≡ s1.stk_ptr s.tcb_curr_ptr
    → ((a : Ptr) → s.psp - 32 ≤ a → a < s.psp → s2.words a ≡ s1.words a)
    → (s2.psp ≤ s.psp - 32) ⊎ (s.psp ≤ s2.psp - 32)
    → Returns
        (λ _ s3. (s3.tcb_curr_ptr ≡ s.tcb_curr_ptr) × (s3.psp ≡ s.psp) × SameRegs s s3)
        (os_cpu_pend_sv_handler s2)
pend_sv-back s s1 s2 can run can2 back other ptr words apart =
    mono (pend_sv-Switched s2 can2) (λ _ s3 sw.
      let stk : s3.stk_ptr s2.tcb_high_rdy_ptr ≡ s.psp - 32 =
        ap s3.stk_ptr back ∙ saved_ptr s3 sw in
      (
        sw.curr ∙ back,
        sw.psp ∙ ap (λ t. t + 32) stk ∙ omega (arith, can.room),
        λ r ge lt.
            let at : 4 + (r - 4) ≡ r = omega (arith, ge) in
            subst (λ t. s3.regs t ≡ s.regs t) at
              (sw.loaded (r - 4) (omega (arith, lt, ge))
                ∙ ap (λ t. s3.words (t + 4 * (r - 4))) stk
                ∙ word s3 sw (r - 4) (omega (arith, lt, ge))),
      ))
  where
    first : Switched s s1
    first = result_of (pend_sv-Switched s can) run

    saved_ptr : (s3 : Kern) → Switched s2 s3 → s3.stk_ptr s.tcb_curr_ptr ≡ s.psp - 32
    saved_ptr s3 sw =
        ap (λ f. f s.tcb_curr_ptr) sw.stk_ptr
        ∙ update_else s2.stk_ptr s2.tcb_curr_ptr s.tcb_curr_ptr (s2.psp - 32) (λ e. other (sym e))
        ∙ ptr
        ∙ ap (λ f. f s.tcb_curr_ptr) first.stk_ptr
        ∙ update_self s.stk_ptr s.tcb_curr_ptr (s.psp - 32)

    outside :
        (i : ℕ)
        → i < 8
        → (s2.psp ≤ s.psp - 32) ⊎ (s.psp ≤ s2.psp - 32)
        → (s.psp - 32 + 4 * i < s2.psp - 32) ⊎ (s2.psp ≤ s.psp - 32 + 4 * i)
    outside i lt (inl le) = inr (omega arith)
    outside i lt (inr le) = inl (omega (arith, can.room))

    word :
        (s3 : Kern)
        → Switched s2 s3
        → (i : ℕ) → i < 8
        → s3.words (s.psp - 32 + 4 * i) ≡ s.regs (4 + i)
    word s3 sw i lt =
        sw.kept (s.psp - 32 + 4 * i) (outside i lt apart)
        ∙ words (s.psp - 32 + 4 * i) (omega arith) (omega (arith, can.room, lt))
        ∙ first.saved i lt
