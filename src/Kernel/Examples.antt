-- ===== src/Kernel/Examples.antt =====
-- A critical section inside another.
use ak_m_os_the_simple_rtos.Base.{◌≡◌, refl, false, arith}
use ak_m_os_the_simple_rtos.Kernel.{Critical, os_critical_enter, os_critical_exit, exit-enter}

abbrev nested : Critical
nested = record { critical_nesting_count = 1; interrupts = false }

exit-enter_example : os_critical_exit (os_critical_enter nested) ≡ nested
exit-enter_example = exit-enter nested (record { room = omega arith; off = refl })
