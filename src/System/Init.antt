-- ===== src/System/Init.antt =====
-- What `os_init` leaves.
use ak_m_os_the_simple_rtos.Base.{
  ℕ, zero, suc, ◌+◌, ◌-◌, ◌<◌, ◌≤◌, ◌≡◌, refl, ap, ◌∙◌, ◌≢◌, false, ◌||◌, [], ◌∷◌, arith, ◌==◌,
  ==_of_ne, ltb, ◌∈◌, length, Run, Cmd, Returns, returns, bind, mono, and_then, put_back, part-last,
}
use ak_m_os_the_simple_rtos.Kernel.{IsCritical}
use ak_m_os_the_simple_rtos.OsList.{Ptr, null, Items, os_cfg_delay_max}
use ak_m_os_the_simple_rtos.OsList.Ring.{IsList, frame-IsList}
use ak_m_os_the_simple_rtos.OsList.Renew.{init-IsList}
use ak_m_os_the_simple_rtos.Prio.{os_cfg_prio_max, os_prio_tbl_size}
use ak_m_os_the_simple_rtos.Prio.Table.{IsTbl, is_ready, init-ready}
use ak_m_os_the_simple_rtos.Msg.{os_cfg_msg_pool_size}
use ak_m_os_the_simple_rtos.Msg.Queue.{IsPool}
use ak_m_os_the_simple_rtos.Msg.Pool.{IsArray, entries, init-IsPool}
use ak_m_os_the_simple_rtos.Timer.{
  Timers, Statics, os_cfg_timer_pool_size, with_lists, link_timers, timer_pool_init,
  init_timer_lists, os_timer_init,
}
use ak_m_os_the_simple_rtos.Timer
use ak_m_os_the_simple_rtos.Task.{Place}
use ak_m_os_the_simple_rtos.System.{System, put_timers, shared_timers, os_init}

-- The timers' static variables are at addresses other than NULL, and the two lists are two.
pub record IsPlaced (st : Statics) : Type 0 where
  pub entry : (i : ℕ) → i < os_cfg_timer_pool_size → st.timer_pool i ≢ null
  pub one : st.timer_list_1 ≢ null
  pub two : st.timer_list_2 ≢ null
  pub apart : st.timer_list_1 ≢ st.timer_list_2

-- No timer runs.
pub record NoTimers (st : Statics) (t : Timers) : Type 0 where
  pub one : IsList t.lists st.timer_list_1 []
  pub two : IsList t.lists st.timer_list_2 []
  pub current : t.timer_list_ptr ≡ st.timer_list_1
  pub overflow : t.overflow_timer_list_ptr ≡ st.timer_list_2
  pub wake : t.next_tick_to_unblock_timer ≡ os_cfg_delay_max
  pub used : t.timer_pool_used ≡ 0

lists-bind :
    {A B : Type 0} {P : A → Items → Type 0} {Q : B → Timers → Type 0} (t : Timers) {r : Run Items A}
    (k : A → Cmd Timers B)
    → Returns P r
    → ((a : A) (h : Items) → P a h → Returns Q (k a (record t { lists = h })))
    → Returns Q (and_then (with_lists t r) k)
lists-bind t k (returns p) next = next _ _ p

module _ (st : Statics) (pl : IsPlaced st) where
  link_timers-Returns :
      (n index : ℕ) (t : Timers)
      → index + n ≤ os_cfg_timer_pool_size
      → Returns (λ _ t'. t' ≡ record t { next = t'.next }) (link_timers st n index t)
  unfolding link_timers Timer.write
  link_timers-Returns zero index t le = returns refl
  link_timers-Returns (suc n) index t le =
      rw (==_of_ne (st.timer_pool index) null (pl.entry index (omega arith)))
        (mono (link_timers-Returns n (index + 1) _ (omega arith)) (λ _ t' e. e))

  init_timer_lists-Empty :
      (t : Timers)
      → Returns
          (λ _ t'.
            IsList t'.lists st.timer_list_1 []
            × IsList t'.lists st.timer_list_2 []
            × (t' ≡ record t {
              lists = t'.lists;
              timer_list_ptr = st.timer_list_1;
              overflow_timer_list_ptr = st.timer_list_2;
            }))
          (init_timer_lists st t)
  unfolding init_timer_lists
  init_timer_lists-Empty t = lists-bind t _ (init-IsList t.lists st.timer_list_1 pl.one) (λ _ h one.
      lists-bind (record t { lists = h }) _ (init-IsList h st.timer_list_2 pl.two)
        (λ _ h' two. returns (frame-IsList (λ a m. two.1 a (other a m)) one.0, two.0, refl)))
    where
      other : (a : Ptr) → a ∈ st.timer_list_1 ∷ [] → (a == st.timer_list_2 || false) ≡ false
      other a m = ground (arith, m, ==_of_ne st.timer_list_1 st.timer_list_2 pl.apart)

  os_timer_init-NoTimers :
      (t : Timers)
      → Returns (λ _ t'. NoTimers st t' × (t'.critical ≡ t.critical)) (os_timer_init st t)
  unfolding os_timer_init timer_pool_init
  os_timer_init-NoTimers t =
      bind
        (bind
          (link_timers-Returns os_cfg_timer_pool_size 0
            (record t { free_list_timer_pool = st.timer_pool 0 }) (omega arith))
          (λ _ t1 e. pool_used t1 e))
        (λ _ t2 e. bind (init_timer_lists-Empty t2) (λ _ t3 i. returns (
          record {
            one = i.0;
            two = i.1;
            current = ap (λ u. u.timer_list_ptr) i.2;
            overflow = ap (λ u. u.overflow_timer_list_ptr) i.2;
            wake = refl;
            used = ap (λ u. u.timer_pool_used) i.2 ∙ e.0;
          },
          ap (λ u. u.critical) i.2 ∙ e.1,
        )))
    where
      pool_used :
          (t1 : Timers)
          → t1 ≡ record t { free_list_timer_pool = st.timer_pool 0; next = t1.next }
          → Returns
              (λ _ t2. (t2.timer_pool_used ≡ 0) × (t2.critical ≡ t.critical))
              (Timer.modify (λ s. record s { timer_pool_used = 0 }) t1)
      pool_used t1 e = returns (refl, ap (λ u. u.critical) e)

-- What `os_init` leaves.
pub record Initial (pool : ℕ → Ptr) (st : Statics) (s s' : System) : Type 0 where
  pub table : IsTbl s'.kern.tbl
  pub idle : (q : ℕ) → is_ready s'.kern.tbl q ≡ (q == os_cfg_prio_max - 1)
  pub messages : IsPool s'.kern.msgs (entries pool os_cfg_msg_pool_size 0)
  pub timers : NoTimers st s'.timers
  pub critical : s'.kern.msgs.critical ≡ s.kern.msgs.critical

nested-bind :
    {S T U A B : Type 0} (put : T → S → S) (put' : U → T → T) {P : A → U → Type 0}
    {Q : B → S → Type 0} (s : S) (t : T) {r : Run U A} (k : A → Cmd S B)
    → Returns P r
    → ((a : A) (u : U) → P a u → Returns Q (k a (put (put' u t) s)))
    → Returns Q (and_then (put_back put s (put_back put' t r)) k)
nested-bind put put' s t k (returns p) next = next _ _ p

-- If there is a task, `os_init` marks the idle task's priority and no other, chains all messages of
-- the pool as free ones, leaves both lists of timers empty, with the first one as the current one,
-- no timer taken from the pool and the greatest number as the next tick to wake at, and leaves the
-- state of the critical sections as it was, whatever the memory held. The bitmap has two bytes, and
-- the timers' entries and lists are at addresses other than NULL, the lists at two. The pool's
-- addresses are as `IsArray` asks. The state of the critical sections is as `IsCritical` asks.
pub os_init-Initial :
    (at : Place) (st : Statics) (call : Ptr → Cmd System (Unit {0})) (pool : ℕ → Ptr) (s : System)
    → IsPlaced st
    → IsArray pool
    → 0 < at.task_eot_id
    → length s.kern.tbl ≡ os_prio_tbl_size
    → IsCritical s.kern.msgs.critical
    → Returns (λ _. Initial pool st s) (os_init at st call pool s)
unfolding os_init
os_init-Initial at st call pool s pl arr tasks rows crit =
    let some_task : ltb at.task_eot_id 1 ≡ false = ground (arith, tasks) in
    rw some_task (
      nested-bind (λ k s. record s { kern = k }) (λ t k. record k { tbl = t }) s s.kern _
        (init-ready s.kern.tbl rows)
        (λ _ t ready.
          nested-bind (λ k s. record s { kern = k }) (λ m k. record k { msgs = m })
            (record s { kern = record s.kern { tbl = t } }) (record s.kern { tbl = t }) _
            (init-IsPool pool s.kern.msgs arr crit)
            (λ _ m free.
              part-last put_timers (record s { kern = record s.kern { tbl = t; msgs = m } })
                (os_timer_init-NoTimers st pl
                  (shared_timers (record s { kern = record s.kern { tbl = t; msgs = m } })))
                (λ _ t' empty. record {
                  table = ready.0;
                  idle = ready.1;
                  messages = record { chain = free.0.chain; count = free.0.count };
                  timers = empty.0;
                  critical = empty.1 ∙ free.1;
                }))))
