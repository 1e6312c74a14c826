-- ===== src/Timer.antt =====
-- AK-mOS/Src/os_timer.c and AK-mOS/Inc/os_timer.h: the pool of software timers and the two lists of
-- those that run. The state holds the fields of each `struct timer` by its address, the store of
-- list items, the tick count that `os_task_get_tick` reads, and the state of the critical sections.
-- Where the compiler puts the pool, the item inside a timer and the two lists, and how many tasks
-- there are, is a parameter. `os_assert` only writes to the log.
pub mod Add
mod Examples
use ak_m_os_the_simple_rtos.Base.{
  ℕ, zero, suc, ◌+◌, ◌-◌, ◌%◌, ◌^◌, Bool, true, false, not, ◌&&◌, ◌||◌, Run, Cmd, ok, fault, hang,
  ◌>>=◌, ◌>>◌, pure, ◌==◌, leb, ltb, if◌then◌else◌, update, sub32,
}
use ak_m_os_the_simple_rtos.Kernel.{Critical, os_critical_enter, os_critical_exit}
use ak_m_os_the_simple_rtos.OsList.{
  Ptr, null, Items, os_cfg_delay_max, os_list_init, os_list_item_init, os_list_insert,
  os_list_remove, list_get_num_item, list_get_owner_of_head_item, list_item_get_value,
  list_item_set_owner, list_item_get_list_contain,
}

-- `timer_type_t`
pub data TimerType : Type 0 where
  timer_one_shot timer_periodic : TimerType

abbrev pub is_periodic : TimerType → Bool
is_periodic timer_one_shot = false
is_periodic timer_periodic = true

-- `OS_CFG_TIMER_POOL_SIZE` of os_cfg.h
abbrev pub os_cfg_timer_pool_size : ℕ
os_cfg_timer_pool_size = 8

-- The addresses of the pool's entries, of the item inside a timer, and of the two lists; `TASK_EOT_ID`.
pub record Statics : Type 0 where
  pub timer_pool : ℕ → Ptr
  pub timer_list_item : Ptr → Ptr
  pub timer_list_1 : Ptr
  pub timer_list_2 : Ptr
  pub task_eot_id : ℕ

-- The fields of every `struct timer` by address, and the static variables.
pub record Timers : Type 0 where
  pub next : Ptr → Ptr
  pub id : Ptr → ℕ
  pub sig : Ptr → ℕ
  pub des_task_id : Ptr → ℕ
  pub func_cb : Ptr → Ptr
  pub period : Ptr → ℕ
  pub free_list_timer_pool : Ptr
  pub timer_pool_used : ℕ
  pub timer_list_ptr : Ptr
  pub overflow_timer_list_ptr : Ptr
  pub next_tick_to_unblock_timer : ℕ
  pub lists : Items
  pub os_tick : ℕ
  pub critical : Critical

abbrev pub with_lists : {A : Type 0} → Timers → Run Items A → Run Timers A
with_lists s (ok a h) = ok a (record s { lists = h })
with_lists s fault = fault
with_lists s hang = hang

-- A call of a list function.
abbrev pub on_lists : {A : Type 0} → Cmd Items A → Cmd Timers A
on_lists c s = with_lists s (c s.lists)

-- A write to a timer.
unfoldable pub write : (Timers → Timers) → Ptr → Cmd Timers (Unit {0})
write change p s = if p == null then fault else ok tt (change s)

unfoldable pub read : {A : Type 0} → (Timers → Ptr → A) → Ptr → Cmd Timers A
read field p s = if p == null then fault else ok (field s p) s

abbrev pub set_next : Ptr → Ptr → Cmd Timers (Unit {0})
set_next p q = write (λ s. record s { next = update s.next p q }) p

abbrev pub get : {A : Type 0} → (Timers → A) → Cmd Timers A
get f s = ok (f s) s

abbrev pub modify : (Timers → Timers) → Cmd Timers (Unit {0})
modify f s = ok tt (f s)

abbrev pub set_unblock : ℕ → Cmd Timers (Unit {0})
set_unblock n = modify (λ s. record s { next_tick_to_unblock_timer = n })

abbrev pub enter_critical : Cmd Timers (Unit {0})
enter_critical = modify (λ s. record s { critical = os_critical_enter s.critical })

abbrev pub exit_critical : Cmd Timers (Unit {0})
exit_critical = modify (λ s. record s { critical = os_critical_exit s.critical })

-- `list_is_empty`
unfoldable pub list_is_empty : Ptr → Cmd Timers Bool
list_is_empty l = do n ← on_lists (list_get_num_item l); pure (n == 0)

module _ (st : Statics) where
  -- The loop of `timer_pool_init` over the `n` entries from `index` on.
  unfoldable pub link_timers : ℕ → ℕ → Cmd Timers (Unit {0})
  link_timers zero index = pure tt
  link_timers (suc n) index = do
    set_next (st.timer_pool index)
        (if index == os_cfg_timer_pool_size - 1 then null else st.timer_pool (index + 1))
    link_timers n (index + 1)

  unfoldable pub timer_pool_init : Cmd Timers (Unit {0})
  timer_pool_init = do
    modify (λ s. record s { free_list_timer_pool = st.timer_pool 0 })
    link_timers os_cfg_timer_pool_size 0
    modify (λ s. record s { timer_pool_used = 0 })

  unfoldable pub init_timer_lists : Cmd Timers (Unit {0})
  init_timer_lists = do
    on_lists (os_list_init st.timer_list_1)
    on_lists (os_list_init st.timer_list_2)
    modify (λ s. record s {
      timer_list_ptr = st.timer_list_1;
      overflow_timer_list_ptr = st.timer_list_2;
    })

  unfoldable pub os_timer_init : Cmd Timers (Unit {0})
  os_timer_init = do timer_pool_init; init_timer_lists; set_unblock os_cfg_delay_max

  unfoldable pub add_timer_to_list : Ptr → Cmd Timers (Unit {0})
  add_timer_to_list p = do
    enter_critical
    const_tick ← get (λ s. s.os_tick)
    tick_to_trigger ← on_lists (list_item_get_value (st.timer_list_item p))
    l ← get (λ s.
        if ltb tick_to_trigger const_tick then s.overflow_timer_list_ptr else s.timer_list_ptr)
    on_lists (os_list_insert l (st.timer_list_item p))
    exit_critical

  unfoldable pub update_next_tick_to_unblock : Cmd Timers (Unit {0})
  update_next_tick_to_unblock = do
    l ← get (λ s. s.timer_list_ptr)
    e ← list_is_empty l
    if e then set_unblock os_cfg_delay_max else do
      p ← on_lists (list_get_owner_of_head_item l)
      v ← on_lists (list_item_get_value (st.timer_list_item p))
      n ← get (λ s. s.next_tick_to_unblock_timer)
      if ltb v n then set_unblock v else pure tt

  -- The guards of `os_timer_create`.
  unfoldable pub is_refused : ℕ → ℕ → TimerType → Cmd Timers Bool
  is_refused des period t = do
    u ← get (λ s. s.timer_pool_used)
    pure (
        ltb (sub32 st.task_eot_id 1) des
        || des == st.task_eot_id + 1
        || leb os_cfg_timer_pool_size u
        || (period == 0 && is_periodic t))

  unfoldable pub os_timer_create : ℕ → ℕ → Ptr → ℕ → ℕ → TimerType → Cmd Timers Ptr
  os_timer_create i signal cb des per t = do
    refused ← is_refused des per t
    if refused then pure null else do
      p ← get (λ s. s.free_list_timer_pool)
      f ← read (λ s. s.next) p
      modify (λ s. record s {
        free_list_timer_pool = f;
        timer_pool_used = (s.timer_pool_used + 1) % 2 ^ 8;
      })
      write (λ s. record s { id = update s.id p i }) p
      write (λ s. record s { sig = update s.sig p signal }) p
      write (λ s. record s { func_cb = update s.func_cb p cb }) p
      write (λ s. record s { des_task_id = update s.des_task_id p des }) p
      write (λ s. record s { period = update s.period p (if is_periodic t then per else 0) }) p
      on_lists (os_list_item_init (st.timer_list_item p))
      on_lists (list_item_set_owner (st.timer_list_item p) p)
      pure p

  unfoldable pub os_timer_remove : Ptr → Cmd Timers (Unit {0})
  os_timer_remove p = do
    enter_critical
    f ← get (λ s. s.free_list_timer_pool)
    set_next p f
    modify (λ s. record s {
      free_list_timer_pool = p;
      timer_pool_used = (s.timer_pool_used + 2 ^ 8 - 1) % 2 ^ 8;
    })
    l ← on_lists (list_item_get_list_contain (st.timer_list_item p))
    if l == null
        then pure tt
        else (do _ ← on_lists (os_list_remove (st.timer_list_item p)); pure tt)
    exit_critical

unfoldable pub timer_switch_lists : Cmd Timers (Unit {0})
timer_switch_lists = do
  modify (λ s. record s {
    timer_list_ptr = s.overflow_timer_list_ptr;
    overflow_timer_list_ptr = s.timer_list_ptr;
  })
  l ← get (λ s. s.timer_list_ptr)
  e ← list_is_empty l
  if e then set_unblock os_cfg_delay_max else set_unblock 0
