-- ===== src/Task/Pass.antt =====
-- Which tasks a tick wakes, whether the loop runs or not.
use mathlib.Core.Path.{subst}
use mathlib.Core.List.{append-nil}
use ak_m_os_the_simple_rtos.Base.{
  ℕ, ◌^◌, ◌<◌, ◌≡◌, refl, sym, ap, ◌∙◌, ◌≢◌, ◌⊎◌, inl, inr, Bool, false, List, [], ◌∷◌, ◌++◌, arith,
  Bool-cases, leb, if◌then◌else◌, ◌∈◌, pure, Returns, returns, mono,
}
use ak_m_os_the_simple_rtos.OsList.{Ptr, null}
use ak_m_os_the_simple_rtos.OsList.Ring.{SameContents}
use ak_m_os_the_simple_rtos.Prio.{os_cfg_prio_max}
use ak_m_os_the_simple_rtos.Task.{Kern, Place}
use ak_m_os_the_simple_rtos.OsList.Sorted.{before, behind}
use ak_m_os_the_simple_rtos.Task.Sched.{IsSched}
use ak_m_os_the_simple_rtos.Task.Tick.{wake_all}
use ak_m_os_the_simple_rtos.Task.Awake.{NoEvents}
use ak_m_os_the_simple_rtos.Task.Wake.{
  of_prio, made_ready, any_ahead, last_ahead, first_value, Woke,
}
use ak_m_os_the_simple_rtos.Task.Due.{wake_all-Woke}

-- The items of the delayed tasks whose tick has come.
abbrev pub due_items : Kern → ℕ → (Ptr → List Ptr) → List Ptr
due_items s tick c = before s.lists.value tick (c s.dly_task_list_ptr)

-- What the first part of the tick leaves: those tasks stand in their ready lists, and the next tick to wake at is to come, unless
-- no task waits in this round.
pub record Passed (at : Place) (ts : List Ptr) (tick : ℕ) (c : Ptr → List Ptr) (n : ℕ) (s : Kern)
    (now : Bool) (s' : Kern) : Type 0 where
  pub lists : Ptr → List Ptr
  pub sched : IsSched at s' lists n
  pub none : NoEvents at s' ts
  pub contents : SameContents s.lists s'.lists
  pub late : lists s.dly_task_list_ptr ≡ behind s.lists.value tick (c s.dly_task_list_ptr)
  pub due :
      (q : ℕ)
      → q < os_cfg_prio_max
      → lists (at.rdy_task_list q)
        ≡ c (at.rdy_task_list q) ++ of_prio s.prio s.lists.owner q (due_items s tick c)
  pub rest :
      (l : Ptr)
      → l ≢ s.dly_task_list_ptr
      → ((q : ℕ) → q < os_cfg_prio_max → l ≢ at.rdy_task_list q)
      → lists l ≡ c l
  pub state : s'.state ≡ made_ready s.lists.owner s.state (due_items s tick c)
  pub next : (tick < s'.next_tick_to_unblock) ⊎ (lists s.dly_task_list_ptr ≡ [])
  pub switch : now ≡ any_ahead s.prio s.lists.owner (s.prio s.tcb_curr_ptr) (due_items s tick c)
  pub high :
      s'.tcb_high_rdy_ptr
      ≡ last_ahead s.prio s.lists.owner
          (s.prio s.tcb_curr_ptr)
          s.tcb_high_rdy_ptr
          (due_items s tick c)
  pub only : s' ≡ record s {
    lists = s'.lists;
    tbl = s'.tbl;
    state = s'.state;
    tcb_high_rdy_ptr = s'.tcb_high_rdy_ptr;
    next_tick_to_unblock = s'.next_tick_to_unblock;
  }

first_late :
    (value : Ptr → ℕ) (tick w : ℕ) (xs : List Ptr)
    → w ≡ first_value value (behind value tick xs)
    → (tick < w) ⊎ (behind value tick xs ≡ [])
unfolding behind
first_late value tick w [] e = inr refl
first_late value tick w (x ∷ xs) e = elim (Bool-cases (leb (value x) tick)) [
  | inl f ↦
      let skip : behind value tick (x ∷ xs) ≡ behind value tick xs = rw f refl in
      subst (λ u. (tick < w) ⊎ (u ≡ [])) (sym skip)
        (first_late value tick w xs (e ∙ ap (first_value value) skip))
  | inr f ↦
      let stop : behind value tick (x ∷ xs) ≡ x ∷ xs = rw f refl in
      let at : w ≡ value x = e ∙ ap (first_value value) stop in
      inl (subst (λ u. tick < u) (sym at) (ground (arith, f)))
]

none_due :
    (value : Ptr → ℕ) (tick : ℕ) (xs : List Ptr)
    → ((x : Ptr) → x ∈ xs → tick < value x)
    → (before value tick xs ≡ []) × (behind value tick xs ≡ xs)
unfolding before behind
none_due value tick [] later = (refl, refl)
none_due value tick (x ∷ xs) later =
    let e : leb (value x) tick ≡ false = ground (arith, later x (ground arith)) in rw e (refl, refl)

module _ (at : Place) (ts : List Ptr) (tick : ℕ) (s : Kern) (c : Ptr → List Ptr) (n : ℕ)
    (is : IsSched at s c n) (none : NoEvents at s ts)
    (known : (x : Ptr) → x ∈ c s.dly_task_list_ptr → s.lists.owner x ∈ ts)
    (prios : (x : Ptr) → x ∈ c s.dly_task_list_ptr → s.prio (s.lists.owner x) < os_cfg_prio_max)
    (curr : s.tcb_curr_ptr ≢ null) (room : n < 2 ^ 16) where
  Woke-Passed :
      (now : Bool) (s' : Kern)
      → Woke at ts tick c (c s.dly_task_list_ptr) n s false now s'
      → Passed at ts tick c n s now s'
  Woke-Passed now s' wk = record {
    lists = wk.lists;
    sched = wk.sched;
    none = wk.none;
    contents = wk.contents;
    late = wk.late;
    due = wk.due;
    rest = wk.rest;
    state = wk.state;
    next =
        elim (first_late s.lists.value tick s'.next_tick_to_unblock (c s.dly_task_list_ptr)
          wk.unblock) [ inl lt ↦ inl lt | inr e ↦ inr (wk.late ∙ e) ];
    switch = wk.switch;
    high = wk.high;
    only = wk.only;
  }

  idle-Passed : tick < s.next_tick_to_unblock → Passed at ts tick c n s false s
  idle-Passed lt =
      let quiet : (due_items s tick c ≡ [])
          × (behind s.lists.value tick (c s.dly_task_list_ptr) ≡ c s.dly_task_list_ptr) =
        none_due s.lists.value tick (c s.dly_task_list_ptr)
          (λ x m. omega (arith, is.wake x m, lt)) in
      record {
        lists = c;
        sched = is;
        none = none;
        contents = λ a. (refl, refl);
        late = sym quiet.1;
        due = λ q _.
            sym (append-nil (c (at.rdy_task_list q)))
            ∙ ap (λ u. c (at.rdy_task_list q) ++ of_prio s.prio s.lists.owner q u) (sym quiet.0);
        rest = λ l _ _. refl;
        state = ap (made_ready s.lists.owner s.state) (sym quiet.0);
        next = inl lt;
        switch = ap (any_ahead s.prio s.lists.owner (s.prio s.tcb_curr_ptr)) (sym quiet.0);
        high =
            ap (last_ahead s.prio s.lists.owner (s.prio s.tcb_curr_ptr) s.tcb_high_rdy_ptr)
              (sym quiet.0);
        only = refl;
      }

  pub wake-Passed :
      Returns
        (Passed at ts tick c n s)
        ((if leb s.next_tick_to_unblock tick then wake_all at tick else pure false) s)
  wake-Passed = elim (Bool-cases (leb s.next_tick_to_unblock tick)) [
    | inl e ↦ rw e (mono (wake_all-Woke at ts tick s c n is none known prios curr room) Woke-Passed)
    | inr e ↦ rw e (returns (idle-Passed (ground (arith, e))))
  ]
