-- ===== src/Kernel.antt =====
-- AK-mOS/Src/os_kernel.c: nested critical sections. The state is `critical_nesting_count`, a 16-bit
-- counter, and whether interrupts are on.
mod Examples
use mathlib.Core.Path.{subst}
use ak_m_os_the_simple_rtos.Base.{
  ℕ, ◌+◌, ◌-◌, ◌%◌, ◌^◌, ◌<◌, ◌≡◌, refl, sym, ap, Bool, true, false, ◌==◌, Bool-cases, inl, inr,
  arith, if◌then◌else◌,
}

pub record Critical : Type 0 where
  pub critical_nesting_count : ℕ
  pub interrupts : Bool

unfoldable pub os_critical_enter : Critical → Critical
os_critical_enter c = record {
  critical_nesting_count = (c.critical_nesting_count + 1) % 2 ^ 16;
  interrupts = false;
}

unfoldable pub os_critical_exit : Critical → Critical
os_critical_exit c =
    let count : ℕ = (c.critical_nesting_count + 2 ^ 16 - 1) % 2 ^ 16 in
    record {
      critical_nesting_count = count;
      interrupts = if count == 0 then true else c.interrupts;
    }

-- Interrupts are on outside of critical sections only, and the counter has room for one more.
pub record IsCritical (c : Critical) : Type 0 where
  pub room : c.critical_nesting_count + 1 < 2 ^ 16
  pub off : c.interrupts ≡ (c.critical_nesting_count == 0)

abbrev made : ℕ → Bool → Critical
made n b = record { critical_nesting_count = n; interrupts = b }

-- Leaving a critical section that was just entered restores the nesting count and whether interrupts
-- are on, if interrupts are on outside of critical sections only and the counter has room for one
-- more.
pub exit-enter : (c : Critical) → IsCritical c → os_critical_exit (os_critical_enter c) ≡ c
unfolding os_critical_enter os_critical_exit
exit-enter c is =
    let count : ((c.critical_nesting_count + 1) % 2 ^ 16 + 2 ^ 16 - 1) % 2 ^ 16
        ≡ c.critical_nesting_count =
      omega (arith, is.room) in
    let off : (if c.critical_nesting_count == 0 then true else false) ≡ c.interrupts =
      ground (arith, is.off) in
    subst
      (λ t.
        ◌≡◌ {A = Critical}
          (record { critical_nesting_count = t; interrupts = if t == 0 then true else false }) c)
      (sym count) (ap (λ t. made c.critical_nesting_count t) off)
