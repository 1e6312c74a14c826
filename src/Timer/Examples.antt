-- ===== src/Timer/Examples.antt =====
-- A timer that is started while another one runs: the list at 10 holds the item 1 of the timer 101,
-- and the item 3 belongs to the timer 103.
use mathlib.Core.Path.{subst}
use ak_m_os_the_simple_rtos.Base.{
  ℕ, ◌+◌, ◌≡◌, ◌≢◌, ◌≤◌, ◌∈◌, refl, true, inr, [], ◌∷◌, arith, Returns, update, if◌then◌else◌, ◌==◌,
}
use ak_m_os_the_simple_rtos.Kernel.{Critical}
use ak_m_os_the_simple_rtos.OsList.{Items, null}
use ak_m_os_the_simple_rtos.OsList.Ring.{IsList}
use ak_m_os_the_simple_rtos.OsList.Insert.{Fits}
use ak_m_os_the_simple_rtos.OsList.Sorted.{IsSorted, placed}
use ak_m_os_the_simple_rtos.Timer.{Statics, Timers, add_timer_to_list, update_next_tick_to_unblock}
use ak_m_os_the_simple_rtos.Timer.Add.{add_timer-IsSorted, update_next-least}

abbrev table : (ℕ × ℕ × ℕ) → ℕ → ℕ
table (a, c, d) = update (update (update (λ _. 0) 1 a) 3 c) 10 d

abbrev store : Items
store = record {
  next = table (10, 0, 1);
  prev = table (10, 0, 1);
  value = table (5, 7, 0xffffffff);
  owner = table (101, 103, 0);
  list = table (10, 0, 0);
  curr = table (0, 0, 1);
  num = table (0, 0, 1);
}

store-IsList : IsList store 10 (1 ∷ [])
store-IsList = record {
  links = ground arith;
  distinct = ground arith;
  not_null = refl;
  count = refl;
  small = omega arith;
  inside = λ p m. ground arith;
  words = λ p m. ground arith;
  mark = refl;
  cursor = inr refl;
}

three-Fits : Fits store 10 (1 ∷ []) 3
three-Fits = record {
  apart = refl;
  not_null = ground arith;
  word = ground arith;
  room = omega arith;
}

abbrev resting : Critical
resting = record { critical_nesting_count = 0; interrupts = true }

abbrev statics : Statics
statics = record {
  timer_pool = λ i. 2000 + i;
  timer_list_item = λ p. if p == 101 then 1 else 3;
  timer_list_1 = 10;
  timer_list_2 = 20;
  task_eot_id = 3;
}

abbrev timers : Timers
timers = record {
  next = λ x. 0;
  id = λ x. 0;
  sig = λ x. 0;
  des_task_id = λ x. 0;
  func_cb = λ x. 0;
  period = λ x. 0;
  free_list_timer_pool = 2002;
  timer_pool_used = 2;
  timer_list_ptr = 10;
  overflow_timer_list_ptr = 20;
  next_tick_to_unblock_timer = 9;
  lists = store;
  os_tick = 2;
  critical = resting;
}

add_timer-IsSorted_example :
    Returns
      (λ _ s'.
        IsList s'.lists 10 (placed store 3 (1 ∷ []))
        × IsSorted s'.lists.value (placed store 3 (1 ∷ []))
        × (s'.critical ≡ resting))
      (add_timer_to_list statics 103 timers)
add_timer-IsSorted_example =
    add_timer-IsSorted timers statics 103 (1 ∷ []) (record { room = omega arith; off = refl })
      store-IsList three-Fits (ground arith)

owned :
    (y : ℕ) → y ∈ 1 ∷ [] → (store.owner y ≢ null) × (statics.timer_list_item (store.owner y) ≡ y)
owned y h =
    let one : 1 ≡ y = ground arith in
    subst (λ t. (store.owner t ≢ null) × (statics.timer_list_item (store.owner t) ≡ t)) one
      (λ e. cc, refl)

update_next-least_example :
    Returns
      (λ _ s'.
        (s'.lists ≡ store) × ((y : ℕ) → y ∈ 1 ∷ [] → s'.next_tick_to_unblock_timer ≤ store.value y))
      (update_next_tick_to_unblock statics timers)
update_next-least_example =
    update_next-least timers statics (1 ∷ []) store-IsList (ground arith) owned
