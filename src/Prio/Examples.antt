-- ===== src/Prio/Examples.antt =====
-- The priority bitmap at concrete tables.
use ak_m_os_the_simple_rtos.Base.{
  false, ℕ, zero, suc, ◌≡◌, refl, true, [], ◌<◌, ◌-◌, ◌==◌, get_or, ◌∷◌, arith, ok, Returns,
}
use ak_m_os_the_simple_rtos.Prio.{
  Tbl, os_cfg_prio_max, os_prio_insert, os_prio_remove, os_prio_init, os_prio_get_highest,
  clear_rows, read_row, write_row, skip_rows, find_bit,
}
use ak_m_os_the_simple_rtos.Prio.Bits.{bit_test}
use ak_m_os_the_simple_rtos.Prio.Table.{
  is_ready, IsTbl, Marked, insert-Marked, remove-Marked, init-ready,
}
use ak_m_os_the_simple_rtos.Prio.Highest.{Least, get_highest-Least}

-- priorities 3 and 9 are ready
abbrev three_and_idle : Tbl
three_and_idle = 16 ∷ 64 ∷ []

bytes_of : (r : ℕ) → get_or three_and_idle r 0 < 256
bytes_of zero = omega arith
bytes_of (suc zero) = omega arith
bytes_of (suc (suc r)) = omega arith

three_and_idle-IsTbl : IsTbl three_and_idle
three_and_idle-IsTbl = record { rows = omega arith; bytes = bytes_of }

init_then_insert : os_prio_init (255 ∷ 7 ∷ []) ≡ ok tt (0 ∷ 64 ∷ [])
unfolding os_prio_init clear_rows os_prio_insert read_row write_row
init_then_insert = refl

highest_of_two : os_prio_get_highest three_and_idle ≡ ok 3 three_and_idle
unfolding os_prio_get_highest skip_rows find_bit
highest_of_two = refl

insert-Marked_example :
    Returns (λ _. Marked three_and_idle 5 true) (os_prio_insert 5 three_and_idle)
insert-Marked_example = insert-Marked three_and_idle-IsTbl 5 (omega arith)

remove-Marked_example :
    Returns (λ _. Marked three_and_idle 3 false) (os_prio_remove 3 three_and_idle)
remove-Marked_example = remove-Marked three_and_idle-IsTbl 3 (omega arith)

init-ready_example :
    Returns
      (λ _ tbl'. IsTbl tbl' × ((q : ℕ) → is_ready tbl' q ≡ (q == os_cfg_prio_max - 1)))
      (os_prio_init (255 ∷ 7 ∷ []))
init-ready_example = init-ready (255 ∷ 7 ∷ []) refl

get_highest-Least_example : Returns (Least three_and_idle 9) (os_prio_get_highest three_and_idle)
unfolding bit_test
get_highest-Least_example = get_highest-Least three_and_idle-IsTbl 9 refl
