-- ===== src/Task/Stack.antt =====
-- The first stack frame of a task, and where it lies in the stack that the allocator gave.
use Prim.Native.Nat.{bit_and}
use ak_m_os_the_simple_rtos.Base.{
  ℕ, ◌+◌, ◌*◌, ◌-◌, ◌%◌, ◌^◌, ◌<◌, ◌≤◌, ◌≡◌, refl, ap, ◌∙◌, ◌≢◌, false, arith, ◌==◌, ==-refl,
  ==_of_ne, update, add32, sub32, ok, Returns, returns,
}
use ak_m_os_the_simple_rtos.OsList.{Ptr}
use ak_m_os_the_simple_rtos.Task.{Kern}
use ak_m_os_the_simple_rtos.Task.Create.{
  set_word, init_stack, value_initial_xpsr, value_start_address_mask,
}

-- The sixteen words from `stk` on: R4 to R11, then what the processor loads on the return from an exception: R0, R1, R2, R3, R12,
-- LR, PC and xPSR. They lie in the stack, at a multiple of 8.
pub record Framed (base size : ℕ) (pf arg : Ptr) (s : Kern) (stk : Ptr) (s' : Kern) : Type 0 where
  pub low : base ≤ stk
  pub high : stk + 64 ≤ base + 4 * size
  pub aligned : stk % 8 ≡ 0
  pub r0 : s'.words (stk + 32) ≡ arg
  pub lr : s'.words (stk + 52) ≡ 0x0E
  pub pc : s'.words (stk + 56) ≡ bit_and pf value_start_address_mask
  pub xpsr : s'.words (stk + 60) ≡ value_initial_xpsr
  pub kept :
      (a : Ptr) → a ≢ stk + 32 → a ≢ stk + 52 → a ≢ stk + 56 → a ≢ stk + 60 → s'.words a ≡ s.words a
  pub only : s' ≡ record s { words = s'.words }

module _ (base size : ℕ) (pf arg : Ptr) (s : Kern) (whole : base + 4 * size < 2 ^ 32)
    (words : base % 4 ≡ 0) where
  abbrev top : Ptr
  top = base + 4 * (size - 1) - (base + 4 * (size - 1)) % 8

  abbrev framed : Kern
  framed = record s {
    words =
        update
          (update
            (update (update s.words (top - 4) value_initial_xpsr) (top - 8)
              (bit_and pf value_start_address_mask))
            (top - 12) 0x0E)
          (top - 32) arg;
  }

  init_stack-runs : 17 ≤ size → 0 < base → init_stack base size pf arg s ≡ ok (top - 64) framed
  unfolding init_stack set_word
  init_stack-runs min low =
      let t : add32 base (4 * (size - 1)) ≡ base + 4 * (size - 1) = omega arith in
      let a4 : sub32 top 4 ≡ top - 4 = omega arith in
      let a8 : sub32 top 8 ≡ top - 8 = omega arith in
      let a12 : sub32 top 12 ≡ top - 12 = omega arith in
      let a32 : sub32 top 32 ≡ top - 32 = omega arith in
      let a64 : sub32 top 64 ≡ top - 64 = omega arith in
      let n4 : (top - 4 == 0) ≡ false = ==_of_ne (top - 4) 0 (omega arith) in
      let n8 : (top - 8 == 0) ≡ false = ==_of_ne (top - 8) 0 (omega arith) in
      let n12 : (top - 12 == 0) ≡ false = ==_of_ne (top - 12) 0 (omega arith) in
      let n32 : (top - 32 == 0) ≡ false = ==_of_ne (top - 32) 0 (omega arith) in
      rw (t, a4, n4, a8, n8, a12, n12, a32, n32, a64) refl

  framed_word :
      (i : ℕ) (v : ℕ)
      → top - 64 + i ≡ top - (64 - i)
      → framed.words (top - (64 - i)) ≡ v
      → framed.words (top - 64 + i) ≡ v
  framed_word i v at e = ap framed.words at ∙ e

  framed-Framed :
      17 ≤ size → base ≤ top - 64 → 0 < base → Framed base size pf arg s (top - 64) framed
  framed-Framed min fits low = record {
    low = fits;
    high = omega arith;
    aligned = omega arith;
    r0 = framed_word 32 arg (omega arith) (rw (==-refl (top - 32)) refl);
    lr =
        framed_word 52 0x0E (omega arith)
          (rw (==_of_ne (top - 12) (top - 32) (omega arith), ==-refl (top - 12)) refl);
    pc = framed_word 56 (bit_and pf value_start_address_mask) (omega arith) (
        rw
          (
            ==_of_ne (top - 8) (top - 32) (omega arith),
            ==_of_ne (top - 8) (top - 12) (omega arith),
            ==-refl (top - 8),
          )
          refl);
    xpsr = framed_word 60 value_initial_xpsr (omega arith) (
        rw
          (
            ==_of_ne (top - 4) (top - 32) (omega arith),
            ==_of_ne (top - 4) (top - 12) (omega arith),
            ==_of_ne (top - 4) (top - 8) (omega arith),
            ==-refl (top - 4),
          )
          refl);
    kept = λ a n32 n52 n56 n60.
        rw
          (
            ==_of_ne a (top - 32) (other a 32 (omega arith) (omega arith) n32),
            ==_of_ne a (top - 12) (other a 12 (omega arith) (omega arith) n52),
            ==_of_ne a (top - 8) (other a 8 (omega arith) (omega arith) n56),
            ==_of_ne a (top - 4) (other a 4 (omega arith) (omega arith) n60),
          )
          refl;
    only = refl;
  }
    where
      other : (a k : ℕ) → 0 < k → k < 64 → a ≢ top - 64 + (64 - k) → a ≢ top - k
      other a k pos small ne e = ne (e ∙ omega arith)

  -- In a stack of at least 18 words, which begins at a multiple of 4 other than 0 and lies below 2 ^
  -- 32, the first frame of a task lies inside the stack, its stack pointer is a multiple of 8, and
  -- the words hold the argument, the return address 0x0E, the address of the function with bit 0
  -- clear, and the initial xPSR where the processor reads them. Only these four words change, and
  -- nothing else of the state.
  pub init_stack-Framed :
      18 ≤ size → 0 < base → Returns (Framed base size pf arg s) (init_stack base size pf arg s)
  init_stack-Framed min low =
      let fits : base ≤ top - 64 = omega arith in
      rw (init_stack-runs (omega arith) low) (returns (framed-Framed (omega arith) fits low))

-- In a stack of 17 words that begins 4 bytes past a multiple of 8, and lies below 2 ^ 32, the stack
-- pointer of a new task is 4 bytes below the stack.
pub init_stack-below :
    (base : ℕ) (pf arg : Ptr) (s : Kern)
    → base + 68 < 2 ^ 32
    → base % 8 ≡ 4
    → Returns (λ stk _. stk + 4 ≡ base) (init_stack base 17 pf arg s)
init_stack-below base pf arg s whole odd =
    let words : base % 4 ≡ 0 = omega arith in
    rw (init_stack-runs base 17 pf arg s whole words (omega arith) (omega arith))
      (returns (omega arith))
