-- ===== src/Task/Clock.antt =====
-- One call of `os_task_increment_tick` as a whole.
use mathlib.Core.Path.{subst}
use ak_m_os_the_simple_rtos.Base.{
  ℕ, ◌^◌, ◌<◌, ◌≡◌, refl, sym, ap, ◌∙◌, ◌≢◌, inl, inr, Bool, true, false, List, [], ◌∷◌, ◌++◌,
  arith, ◌==◌, ==_of_ne, Bool-cases, leb, ltb, if◌then◌else◌, ◌∈◌, update, ◌>>=◌, ◌>>◌, pure,
  Returns, returns, bind,
}
use ak_m_os_the_simple_rtos.OsList.{Ptr, null}
use ak_m_os_the_simple_rtos.Prio.{os_cfg_prio_max}
use ak_m_os_the_simple_rtos.Task.{get, running, Kern, Place, set_state, task_switch_delay_lists}
use ak_m_os_the_simple_rtos.OsList.Sorted.{before}
use ak_m_os_the_simple_rtos.Task.Sched.{heads, some_item, IsSched, Sched-IsDelay, ready-∈}
use ak_m_os_the_simple_rtos.Task.Delay.{Sched-same}
use ak_m_os_the_simple_rtos.Task.Tick.{os_task_increment_tick}
use ak_m_os_the_simple_rtos.Task.Awake.{NoEvents}
use ak_m_os_the_simple_rtos.Task.Wake.{of_prio, last_ahead}
use ak_m_os_the_simple_rtos.Task.Pass.{Passed, due_items, wake-Passed}
use ak_m_os_the_simple_rtos.Task.Robin.{Shared, next_of_highest-Shared}
use ak_m_os_the_simple_rtos.Task.Advance.{
  next_tick, advanced, turned-Sched, switch_delay_lists-turns,
}

-- What `os_task_increment_tick` leaves: the tasks that are due have woken in `middle`, and in `after` the tasks of the highest
-- priority have shared the processor; the task that is to run, if any, is marked as running.
pub record Ticked (at : Place) (ts : List Ptr) (c : Ptr → List Ptr) (n : ℕ) (s : Kern) (now : Bool)
    (s' : Kern) : Type 0 where
  pub woken : Bool
  pub middle : Kern
  pub passed : Passed at ts (next_tick s) c n (advanced s c) woken middle
  pub after : Kern
  pub shared : Shared at passed.lists n middle woken now after
  pub sched : IsSched at s' passed.lists n
  pub last : s' ≡ (
      if now
      then record after { state = update after.state after.tcb_high_rdy_ptr running }
      else after)

last_ahead-not_null :
    (prio : Ptr → ℕ) (owner : Ptr → Ptr) (cur : ℕ) (xs : List Ptr) (high : Ptr)
    → ((x : Ptr) → x ∈ xs → owner x ≢ null)
    → high ≢ null
    → last_ahead prio owner cur high xs ≢ null
last_ahead-not_null prio owner cur [] high own ne = ne
last_ahead-not_null prio owner cur (x ∷ xs) high own ne =
    last_ahead-not_null prio owner cur xs (if ltb (prio (owner x)) cur then owner x else high)
      (λ y m. own y (ground (arith, m)))
      (elim (Bool-cases (ltb (prio (owner x)) cur)) [
        | inl e ↦ rw e (own x (ground arith))
        | inr e ↦ rw e ne
      ])

before-⊆ : (value : Ptr → ℕ) (v : ℕ) (xs : List Ptr) (x : Ptr) → x ∈ before value v xs → x ∈ xs
unfolding before
before-⊆ value v [] x m = m
before-⊆ value v (y ∷ xs) x m = elim (Bool-cases (leb (value y) v)) [
  | inl e ↦
      let m' : x ∈ y ∷ before value v xs =
        subst (λ u. x ∈ (if u then y ∷ before value v xs else [])) e m in
      elim (Bool-cases (x == y)) [
        | inl f ↦ ground (arith, f)
        | inr f ↦ ground (arith, before-⊆ value v xs x (ground (arith, m', f)))
      ]
  | inr e ↦ absurd (nothing (subst (λ u. x ∈ (if u then y ∷ before value v xs else [])) e m))
]
  where
    nothing : x ∈ [] → ⊥
    nothing none = cc

some-append : (xs ys : List Ptr) → some_item xs ≡ true → some_item (xs ++ ys) ≡ true
some-append [] ys e = cc
some-append (x ∷ xs) ys e = refl

module _ (at : Place) (ts : List Ptr) (s : Kern) (c : Ptr → List Ptr) (n : ℕ)
    (is : IsSched at s c n) (none : NoEvents at s ts)
    (known : (l x : Ptr) → l ∈ heads at → x ∈ c l → s.lists.owner x ∈ ts)
    (prios : (l x : Ptr) → l ∈ heads at → x ∈ c l → s.prio (s.lists.owner x) < os_cfg_prio_max)
    (curr : s.tcb_curr_ptr ≢ null) (high : s.tcb_high_rdy_ptr ≢ null) (room : n < 2 ^ 16) (q : ℕ)
    (bound : q < os_cfg_prio_max) (one : some_item (c (at.rdy_task_list q)) ≡ true) where
  abbrev counted : Kern
  counted = record s { tick_count = next_tick s }

  counted-Sched : IsSched at counted c n
  counted-Sched = Sched-same counted is

  -- The second part, in the state `a` that the first part has led to.
  module _ (a : Kern) (isa : IsSched at a c n) (higha : a.tcb_high_rdy_ptr ≢ null) where
    middle_high :
        (woken : Bool) (s2 : Kern)
        → Passed at ts (next_tick s) c n a woken s2
        → s2.tcb_high_rdy_ptr ≢ null
    middle_high woken s2 p =
        subst (λ u. u ≢ null) (sym p.high)
          (last_ahead-not_null a.prio a.lists.owner (a.prio a.tcb_curr_ptr)
            (due_items a (next_tick s) c) a.tcb_high_rdy_ptr
            (λ x m.
              (isa.owned a.dly_task_list_ptr x (Sched-IsDelay isa).dly
                (before-⊆ a.lists.value (next_tick s) (c a.dly_task_list_ptr) x m)).0)
            higha)

    after_high :
        (woken now : Bool) (s2 s3 : Kern)
        → (p : Passed at ts (next_tick s) c n a woken s2) → Shared at p.lists n s2 woken now s3
        → s3.tcb_high_rdy_ptr ≢ null
    after_high woken now s2 s3 p sh = elim sh.high [
      | inl e ↦ subst (λ u. u ≢ null) (sym e.1) (middle_high woken s2 p)
      | inr e ↦
          subst (λ u. u ≢ null) (sym e.2)
            (p.sched.owned (at.rdy_task_list sh.prio) e.0 (ready-∈ at sh.prio sh.bound) e.1).0
    ]

  abbrev a : Kern
  a = advanced s c

  a-Sched : IsSched at a c n
  a-Sched = elim (Bool-cases (next_tick s == 0)) [
    | inl e ↦ rw e (turned-Sched at counted c n counted-Sched)
    | inr e ↦ rw e counted-Sched
  ]

  a-NoEvents : NoEvents at a ts
  a-NoEvents p m = elim (Bool-cases (next_tick s == 0)) [
    | inl e ↦ rw e (none p m)
    | inr e ↦ rw e (none p m)
  ]

  a_prios : (l x : Ptr) → l ∈ heads at → x ∈ c l → a.prio (a.lists.owner x) < os_cfg_prio_max
  a_prios l x ml mx = elim (Bool-cases (next_tick s == 0)) [
    | inl e ↦ rw e (prios l x ml mx)
    | inr e ↦ rw e (prios l x ml mx)
  ]

  a_known : (l x : Ptr) → l ∈ heads at → x ∈ c l → a.lists.owner x ∈ ts
  a_known l x ml mx = elim (Bool-cases (next_tick s == 0)) [
    | inl e ↦ rw e (known l x ml mx)
    | inr e ↦ rw e (known l x ml mx)
  ]

  a_curr : a.tcb_curr_ptr ≢ null
  a_curr = elim (Bool-cases (next_tick s == 0)) [ inl e ↦ rw e curr | inr e ↦ rw e curr ]

  a_high : a.tcb_high_rdy_ptr ≢ null
  a_high = elim (Bool-cases (next_tick s == 0)) [ inl e ↦ rw e high | inr e ↦ rw e high ]

  advanced-Returns :
      Returns
        (λ _ a. a ≡ advanced s c)
        ((if next_tick s == 0 then task_switch_delay_lists at else pure tt) counted)
  advanced-Returns = elim (Bool-cases (next_tick s == 0)) [
    | inl e ↦ rw (e, switch_delay_lists-turns at counted c n counted-Sched) (returns refl)
    | inr e ↦ rw e (returns refl)
  ]

  -- The task that is to run is marked.
  mark :
      (woken now : Bool) (s2 s3 : Kern)
      → (p : Passed at ts (next_tick s) c n a woken s2) → Shared at p.lists n s2 woken now s3
      → Returns (Ticked at ts c n s) (
          (do
            if now then (do p ← get (λ s. s.tcb_high_rdy_ptr); set_state p running) else pure tt
            pure now)
            s3)
  unfolding set_state
  mark woken true s2 s3 p sh =
      let ne : (s3.tcb_high_rdy_ptr == null) ≡ false =
        ==_of_ne s3.tcb_high_rdy_ptr null (after_high a a-Sched a_high woken true s2 s3 p sh) in
      rw ne (
        returns (record {
          woken = woken;
          middle = s2;
          passed = p;
          after = s3;
          shared = sh;
          sched =
              Sched-same (record s3 { state = update s3.state s3.tcb_high_rdy_ptr running })
                sh.sched;
          last = refl;
        }))
  mark woken false s2 s3 p sh = returns (record {
    woken = woken;
    middle = s2;
    passed = p;
    after = s3;
    shared = sh;
    sched = sh.sched;
    last = refl;
  })

  -- `os_task_increment_tick`, while some task is ready, neither faults nor loops and keeps the
  -- scheduler's invariant. The count goes up by one; if it wraps, the two lists of delayed tasks
  -- change places. Then exactly the delayed tasks whose tick has come stand behind the others in the
  -- ready lists of their priorities, and the next tick to wake at is to come, unless no task waits
  -- in this round. If several tasks have the highest priority, one of them is to run next. The
  -- result is whether there is a task to switch to, and that task is marked as running. The tasks in
  -- the lists are among the tasks `ts`, none of which waits for an event: the event item of each is
  -- in no list, and is neither at NULL nor at the address of a list. The priorities of the tasks in
  -- the lists are in range, neither the current task nor the one last chosen is NULL, and the lists
  -- hold less than 2 ^ 16 items.
  pub os_task_increment_tick-Ticked : Returns (Ticked at ts c n s) (os_task_increment_tick at s)
  unfolding os_task_increment_tick
  os_task_increment_tick-Ticked = bind advanced-Returns (λ _ a' ea. rw ea (
      bind
        (wake-Passed at ts (next_tick s) a c n a-Sched a-NoEvents
          (λ x m. a_known a.dly_task_list_ptr x (Sched-IsDelay a-Sched).dly m)
          (λ x m. a_prios a.dly_task_list_ptr x (Sched-IsDelay a-Sched).dly m) a_curr room)
        (λ woken s2 p.
          let ready_one : some_item (p.lists (at.rdy_task_list q)) ≡ true =
            ap some_item (p.due q bound)
            ∙ some-append (c (at.rdy_task_list q))
                (of_prio a.prio a.lists.owner q (due_items a (next_tick s) c)) one in
          bind (next_of_highest-Shared at s2 p.lists n p.sched woken q bound ready_one)
            (λ now s3 sh. mark woken now s2 s3 p sh))))
