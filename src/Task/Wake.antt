-- ===== src/Task/Wake.antt =====
-- The loop of `os_task_increment_tick` wakes the tasks whose delay is over, and no other.
use mathlib.Core.Path.{subst}
use mathlib.Core.List.{append-nil}
use ak_m_os_the_simple_rtos.Base.{
  ℕ, ◌<◌, ◌≤◌, ◌≡◌, refl, sym, ap, ◌∙◌, ◌≢◌, inl, inr, Bool, true, false, ◌||◌, List, [], ◌∷◌, ◌++◌,
  arith, ◌==◌, eq_of_==, Bool-cases, ltb, if◌then◌else◌, ◌∈◌, update,
}
use ak_m_os_the_simple_rtos.OsList.{Ptr, os_cfg_delay_max}
use ak_m_os_the_simple_rtos.OsList.Ring.{SameContents}
use ak_m_os_the_simple_rtos.OsList.Sorted.{IsSorted}
use ak_m_os_the_simple_rtos.Prio.{os_cfg_prio_max}
use ak_m_os_the_simple_rtos.Task.{TaskState, ready, Kern, Place}
use ak_m_os_the_simple_rtos.OsList.Sorted.{before, behind}
use ak_m_os_the_simple_rtos.Task.Sched.{IsSched}
use ak_m_os_the_simple_rtos.Task.Awake.{NoEvents}

-- The items of the tasks with the priority `q`; `owner` gives the task of an item.
abbrev pub of_prio : (Ptr → ℕ) → (Ptr → Ptr) → ℕ → List Ptr → List Ptr
of_prio prio owner q [] = []
of_prio prio owner q (x ∷ xs) =
    let rest = of_prio prio owner q xs in if prio (owner x) == q then x ∷ rest else rest

-- The states with those tasks ready.
abbrev pub made_ready : (Ptr → Ptr) → (Ptr → TaskState) → List Ptr → Ptr → TaskState
made_ready owner state [] = state
made_ready owner state (x ∷ xs) = made_ready owner (update state (owner x) ready) xs

-- Whether one of those tasks goes before the priority `cur`, and the last one that does, `high` if none does.
abbrev pub any_ahead : (Ptr → ℕ) → (Ptr → Ptr) → ℕ → List Ptr → Bool
any_ahead prio owner cur [] = false
any_ahead prio owner cur (x ∷ xs) = ltb (prio (owner x)) cur || any_ahead prio owner cur xs

abbrev pub last_ahead : (Ptr → ℕ) → (Ptr → Ptr) → ℕ → Ptr → List Ptr → Ptr
last_ahead prio owner cur high [] = high
last_ahead prio owner cur high (x ∷ xs) =
    last_ahead prio owner cur (if ltb (prio (owner x)) cur then owner x else high) xs

-- The value of the first item, the greatest value if there is none.
abbrev pub first_value : (Ptr → ℕ) → List Ptr → ℕ
first_value value [] = os_cfg_delay_max
first_value value (x ∷ xs) = value x

-- What the loop leaves when the delayed tasks are `xs`: those that are due stand, in their order, behind the others in the ready
-- lists of their priorities, and the others wait on.
pub record Woke (at : Place) (ts : List Ptr) (tick : ℕ) (c : Ptr → List Ptr) (xs : List Ptr) (n : ℕ)
    (s : Kern) (before_ : Bool) (now : Bool) (s' : Kern) : Type 0 where
  pub lists : Ptr → List Ptr
  pub sched : IsSched at s' lists n
  pub none : NoEvents at s' ts
  pub contents : SameContents s.lists s'.lists
  pub late : lists s.dly_task_list_ptr ≡ behind s.lists.value tick xs
  pub due :
      (q : ℕ)
      → q < os_cfg_prio_max
      → lists (at.rdy_task_list q)
        ≡ c (at.rdy_task_list q) ++ of_prio s.prio s.lists.owner q (before s.lists.value tick xs)
  pub rest :
      (l : Ptr)
      → l ≢ s.dly_task_list_ptr
      → ((q : ℕ) → q < os_cfg_prio_max → l ≢ at.rdy_task_list q)
      → lists l ≡ c l
  pub state : s'.state ≡ made_ready s.lists.owner s.state (before s.lists.value tick xs)
  pub unblock : s'.next_tick_to_unblock ≡ first_value s.lists.value (behind s.lists.value tick xs)
  pub switch : now ≡ (
      before_
      || any_ahead s.prio s.lists.owner (s.prio s.tcb_curr_ptr) (before s.lists.value tick xs))
  pub high :
      s'.tcb_high_rdy_ptr
      ≡ last_ahead s.prio s.lists.owner
          (s.prio s.tcb_curr_ptr)
          s.tcb_high_rdy_ptr
          (before s.lists.value tick xs)
  pub only : s' ≡ record s {
    lists = s'.lists;
    tbl = s'.tbl;
    state = s'.state;
    tcb_high_rdy_ptr = s'.tcb_high_rdy_ptr;
    next_tick_to_unblock = s'.next_tick_to_unblock;
  }

pub sorted-head :
    (value : Ptr → ℕ) (x : Ptr) (xs : List Ptr) (y : Ptr)
    → IsSorted value (x ∷ xs)
    → y ∈ x ∷ xs
    → value x ≤ value y
sorted-head value x [] y s m = let e : y ≡ x = ground (arith, m) in omega (arith, ap value e)
sorted-head value x (z ∷ xs) y s m = elim (Bool-cases (y == x)) [
  | inl e ↦ omega (arith, ap value (eq_of_== y x e))
  | inr e ↦ omega (arith, s.0, sorted-head value z xs y s.1 (ground (arith, m, e)))
]

-- The invariant with another next tick to wake at.
unblock-Sched :
    {at : Place} {s : Kern} {c : Ptr → List Ptr} {n : ℕ} (w : ℕ)
    → IsSched at s c n
    → ((x : Ptr) → x ∈ c s.dly_task_list_ptr → w ≤ s.lists.value x)
    → IsSched at (record s { next_tick_to_unblock = w }) c n
unblock-Sched w is le = record {
  store = is.store;
  table = is.table;
  rows = is.rows;
  marks = is.marks;
  owned = is.owned;
  prios = is.prios;
  delay = is.delay;
  sorted = is.sorted;
  sorted_over = is.sorted_over;
  wake = le;
}

or_false : (b : Bool) → b ≡ (b || false)
or_false true = refl
or_false false = refl

module _ (at : Place) (ts : List Ptr) (tick : ℕ) (s : Kern) (c : Ptr → List Ptr) (n : ℕ)
    (is : IsSched at s c n) (none : NoEvents at s ts) where
  -- The loop stops at `w`.
  pub stop-Woke :
      (b : Bool) (xs : List Ptr) (w : ℕ)
      → c s.dly_task_list_ptr ≡ xs
      → before s.lists.value tick xs ≡ []
      → behind s.lists.value tick xs ≡ xs
      → w ≡ first_value s.lists.value xs
      → ((x : Ptr) → x ∈ xs → w ≤ s.lists.value x)
      → Woke at ts tick c xs n s b b (record s { next_tick_to_unblock = w })
  stop-Woke b xs w here no_due all first le = record {
    lists = c;
    sched = unblock-Sched w is (λ x m. le x (subst (λ u. x ∈ u) here m));
    none = none;
    contents = λ a. (refl, refl);
    late = here ∙ sym all;
    due = λ q lt.
        sym (append-nil (c (at.rdy_task_list q)))
        ∙ ap (λ u. c (at.rdy_task_list q) ++ of_prio s.prio s.lists.owner q u) (sym no_due);
    rest = λ l nd nr. refl;
    state = ap (made_ready s.lists.owner s.state) (sym no_due);
    unblock = first ∙ ap (first_value s.lists.value) (sym all);
    switch =
        or_false b
        ∙ ap (λ u. b || any_ahead s.prio s.lists.owner (s.prio s.tcb_curr_ptr) u) (sym no_due);
    high =
        ap (last_ahead s.prio s.lists.owner (s.prio s.tcb_curr_ptr) s.tcb_high_rdy_ptr)
          (sym no_due);
    only = refl;
  }
