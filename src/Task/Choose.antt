-- ===== src/Task/Choose.antt =====
-- The task that is to run next: the first of the highest priority that has a ready task.
use mathlib.Core.Path.{subst}
use ak_m_os_the_simple_rtos.Base.{
  ℕ, ◌%◌, ◌^◌, ◌<◌, ◌≤◌, ◌≡◌, refl, sym, ◌∙◌, ◌≢◌, true, false, List, [], ◌∷◌, arith, ◌==◌,
  ==_of_ne, ltb, ◌∈◌, update, Cmd, ok, ◌>>=◌, ◌>>◌, Returns, returns, part-bind,
}
use ak_m_os_the_simple_rtos.OsList.{
  Ptr, null, Items, os_cfg_delay_max, read, list_get_owner_of_head_item,
}
use ak_m_os_the_simple_rtos.OsList.Ring.{IsList}
use ak_m_os_the_simple_rtos.Prio.{os_cfg_prio_max, os_prio_get_highest}
use ak_m_os_the_simple_rtos.Prio.Table.{is_ready}
use ak_m_os_the_simple_rtos.Task.{
  running, Kern, Place, on_lists, on_table, set_state, set_high, ready_list, choose_highest,
  os_task_start,
}
use ak_m_os_the_simple_rtos.Prio.Highest.{get_highest-Least}
use ak_m_os_the_simple_rtos.Task.Sched.{some_item, IsSched, ready-∈}

-- The first item, and the others.
pub record HasHead (xs : List Ptr) : Type 0 where
  pub head : Ptr
  pub rest : List Ptr
  pub whole : xs ≡ head ∷ rest

pub has_head : (xs : List Ptr) → some_item xs ≡ true → HasHead xs
has_head [] e = cc
has_head (x ∷ xs) e = record { head = x; rest = xs; whole = refl }

pub no_head : (xs : List Ptr) → some_item xs ≡ false → xs ≡ []
no_head [] e = refl
no_head (x ∷ xs) e = cc

pub head_owner :
    {h : Items} {l : Ptr} (x : Ptr) (xs : List Ptr)
    → IsList h l (x ∷ xs)
    → list_get_owner_of_head_item l h ≡ ok (h.owner x) h
unfolding read
head_owner {h} {l} x xs is =
    let el : (l == null) ≡ false = ground (arith, is.not_null) in
    let ex : (x == null) ≡ false = ground (arith, is.not_null) in rw (el, is.links.0, ex) refl

-- `choose_highest` and `os_task_start` find the first task of a priority, above which no task is ready.
pub record Foremost (at : Place) (c : Ptr → List Ptr) (s : Kern) (p : Ptr) : Type 0 where
  pub prio : ℕ
  pub bound : prio < os_cfg_prio_max
  pub first : HasHead (c (at.rdy_task_list prio))
  pub above : (q : ℕ) → q < prio → c (at.rdy_task_list q) ≡ []
  pub task : p ≡ s.lists.owner (first.head)
  pub not_null : p ≢ null

pub Foremost-same :
    {at : Place} {c : Ptr → List Ptr} {s : Kern} (t : Kern) {p : Ptr}
    → Foremost at c s p
    → Foremost at c (record t { lists = s.lists }) p
Foremost-same t fm = record {
  prio = fm.prio;
  bound = fm.bound;
  first = fm.first;
  above = fm.above;
  task = fm.task;
  not_null = fm.not_null;
}

module _ (at : Place) (s : Kern) (c : Ptr → List Ptr) (n : ℕ) (is : IsSched at s c n) (q : ℕ)
    (bound : q < os_cfg_prio_max) (one : some_item (c (at.rdy_task_list q)) ≡ true) where
  least-Foremost :
      (m : ℕ)
      → m ≤ q
      → is_ready s.tbl m ≡ true
      → ((k : ℕ) → k < m → is_ready s.tbl k ≡ false)
      → (x : HasHead (c (at.rdy_task_list m))) → Foremost at c s (s.lists.owner x.head)
  least-Foremost m le on off x = record {
    prio = m;
    bound = omega (arith, bound);
    first = x;
    above = λ k lt.
        no_head (c (at.rdy_task_list k)) (sym (is.marks k (omega (arith, bound))) ∙ off k lt);
    task = refl;
    not_null =
        (is.owned (at.rdy_task_list m) x.head (ready-∈ at m (omega (arith, bound)))
          (subst (λ u. x.head ∈ u) (sym x.whole) (ground arith))).0;
  }

  -- The list of the highest priority, which `cast` leaves as it is.
  pub find_list :
      {A : Type 0} {Q : A → Kern → Type 0} (cast : ℕ → ℕ)
      → ((m : ℕ) → m < os_cfg_prio_max → cast m ≡ m)
      → (k : Ptr → Cmd Kern A)
      → ((p : Ptr) (fm : Foremost at c s p) → Returns Q (k (at.rdy_task_list fm.prio) s))
      → Returns Q ((do h ← on_table os_prio_get_highest; l ← ready_list at (cast h); k l) s)
  unfolding ready_list least-Foremost
  find_list cast keeps k next =
      part-bind (λ t s. record s { tbl = t }) s _
        (get_highest-Least is.table q (is.marks q bound ∙ one))
        (λ m t le.
          let inside : ltb m os_cfg_prio_max ≡ true = ground (arith, le.2, bound) in
          let x : HasHead (c (at.rdy_task_list m)) =
            has_head (c (at.rdy_task_list m))
              (sym (is.marks m (omega (arith, le.2, bound))) ∙ le.1) in
          rw (le.0, keeps m (omega (arith, le.2, bound)), inside)
            (next (s.lists.owner x.head) (least-Foremost m le.2 le.1 le.3 x)))

  -- Its first task.
  pub find_highest :
      {A : Type 0} {Q : A → Kern → Type 0} (cast : ℕ → ℕ)
      → ((m : ℕ) → m < os_cfg_prio_max → cast m ≡ m)
      → (k : Ptr → Cmd Kern A) → ((p : Ptr) → Foremost at c s p → Returns Q (k p s))
      → Returns Q (
          (do
            h ← on_table os_prio_get_highest
            l ← ready_list at (cast h)
            p ← on_lists (list_get_owner_of_head_item l)
            k p)
            s)
  find_highest {Q = Q} cast keeps k next =
      find_list cast keeps (λ l. do p ← on_lists (list_get_owner_of_head_item l); k p)
        (λ p fm.
          let l : IsList s.lists (at.rdy_task_list fm.prio) (fm.first.head ∷ fm.first.rest) =
            subst (IsList s.lists (at.rdy_task_list fm.prio)) fm.first.whole
              (is.store.lists (at.rdy_task_list fm.prio) (ready-∈ at fm.prio fm.bound)) in
          rw (head_owner fm.first.head fm.first.rest l)
            (subst (λ u. Returns Q (k u s)) fm.task (next p fm)))

  -- What `choose_highest` leaves.
  pub choose_highest-Chosen :
      Returns
        (λ _ s'.
          Foremost at c s' s'.tcb_high_rdy_ptr
          × (s' ≡ record s {
            tcb_high_rdy_ptr = s'.tcb_high_rdy_ptr;
            state = update s.state s'.tcb_high_rdy_ptr running;
          }))
        (choose_highest at s)
  unfolding choose_highest set_state
  choose_highest-Chosen =
      find_highest (λ h. h % 2 ^ 8) (λ m lt. omega (arith, lt))
        (λ p. do set_high p; set_state p running)
        (λ p fm. rw (==_of_ne p null fm.not_null) (
          returns (
            Foremost-same (record s { tcb_high_rdy_ptr = p; state = update s.state p running }) fm,
            refl,
          )))

-- If a task is ready, `os_task_start` makes the first task of the highest priority that has a ready
-- task the current one and the one to run next, sets the tick count to 0 and the next tick to wake
-- at to the greatest number, marks the scheduler as running and changes nothing else. The
-- scheduler's invariant holds.
pub os_task_start-Foremost :
    (at : Place) (s : Kern) (c : Ptr → List Ptr) (n q : ℕ)
    → IsSched at s c n
    → q < os_cfg_prio_max
    → some_item (c (at.rdy_task_list q)) ≡ true
    → Returns
        (λ _ s'.
          Foremost at c s s'.tcb_curr_ptr
          × (s' ≡ record s {
            tcb_high_rdy_ptr = s'.tcb_curr_ptr;
            tcb_curr_ptr = s'.tcb_curr_ptr;
            tick_count = 0;
            next_tick_to_unblock = os_cfg_delay_max;
            sched_is_running = true;
          }))
        (os_task_start at s)
unfolding os_task_start
os_task_start-Foremost at s c n q is bound one =
    find_highest at s c n is q bound one (λ h. h) (λ m lt. refl) _ (λ p fm. returns (fm, refl))
