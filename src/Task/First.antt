-- ===== src/Task/First.antt =====
-- The first round of that loop, and the rounds behind it.
use mathlib.Core.Path.{fun_ext}
use ak_m_os_the_simple_rtos.Base.{
  ℕ, ◌<◌, ◌≡◌, refl, sym, ap, ◌∙◌, ◌≢◌, inl, inr, Bool, true, false, ◌||◌, List, [], ◌∷◌, ◌++◌,
  ◌==◌, eq_of_==, ne_of_==, Bool-cases, leb, update,
}
use ak_m_os_the_simple_rtos.OsList.{Ptr}
use ak_m_os_the_simple_rtos.OsList.Store.{update_self, update_else}
use ak_m_os_the_simple_rtos.Prio.{os_cfg_prio_max}
use ak_m_os_the_simple_rtos.Task.{Kern, Place}
use mathlib.Core.List.{append_assoc}
use ak_m_os_the_simple_rtos.OsList.Sorted.{before, behind}
use ak_m_os_the_simple_rtos.Task.Sched.{IsSched, IsDelay, Sched-IsDelay, ready-apart}
use ak_m_os_the_simple_rtos.Task.Awake.{moved, Awake}
use ak_m_os_the_simple_rtos.Task.Wake.{
  of_prio, made_ready, any_ahead, last_ahead, first_value, Woke,
}

or_assoc : (a b c : Bool) → ((a || b) || c) ≡ (a || (b || c))
or_assoc true b c = refl
or_assoc false b c = refl

-- The first round has woken the task of the item `x`.
module _ (at : Place) (ts : List Ptr) (tick : ℕ) (c : Ptr → List Ptr) (x : Ptr) (xs : List Ptr)
    (n : ℕ) (s s2 s' : Kern) (b0 ahead now : Bool) (is : IsSched at s c n)
    (mine : at.state_list_item (s.lists.owner x) ≡ x)
    (bound : s.prio (s.lists.owner x) < os_cfg_prio_max) (soon : leb (s.lists.value x) tick ≡ true)
    (aw : Awake at ts c (s.lists.owner x) xs n s ahead s2)
    (wk : Woke at ts tick (moved at s c (s.lists.owner x) xs) xs n s2 (b0 || ahead) now s') where
  abbrev p : Ptr
  p = s.lists.owner x

  abbrev c2 : Ptr → List Ptr
  c2 = moved at s c p xs

  d : IsDelay at s
  d = Sched-IsDelay is

  values : s2.lists.value ≡ s.lists.value
  values = fun_ext (λ a. (aw.contents a).0)

  owners : s2.lists.owner ≡ s.lists.owner
  owners = fun_ext (λ a. (aw.contents a).1)

  prios : s2.prio ≡ s.prio
  prios = ap (λ u. u.prio) aw.only

  curr : s2.prio s2.tcb_curr_ptr ≡ s.prio s.tcb_curr_ptr
  curr = ap (λ u. u.prio u.tcb_curr_ptr) aw.only

  now_due : before s.lists.value tick (x ∷ xs) ≡ x ∷ before s.lists.value tick xs
  unfolding before
  now_due = rw soon refl

  now_late : behind s.lists.value tick (x ∷ xs) ≡ behind s.lists.value tick xs
  unfolding behind
  now_late = rw soon refl

  dues : before s2.lists.value tick xs ≡ before s.lists.value tick xs
  dues = ap (λ v. before v tick xs) values

  abbrev list : Ptr
  list = at.rdy_task_list (s.prio p)

  c2_else : (l : Ptr) → l ≢ list → l ≢ s.dly_task_list_ptr → c2 l ≡ c l
  c2_else l nl nd =
      update_else (update c s.dly_task_list_ptr xs) list l
        (update c s.dly_task_list_ptr xs list ++ at.state_list_item p ∷ []) nl
      ∙ update_else c s.dly_task_list_ptr l xs nd

  c2_list : c2 list ≡ c list ++ x ∷ []
  c2_list =
      update_self (update c s.dly_task_list_ptr xs) list
        (update c s.dly_task_list_ptr xs list ++ at.state_list_item p ∷ [])
      ∙ ap (λ u. u ++ at.state_list_item p ∷ [])
          (update_else c s.dly_task_list_ptr list xs (λ e. d.ready_dly (s.prio p) bound (sym e)))
      ∙ ap (λ u. c list ++ u ∷ []) mine

  ready_list_of :
      (q : ℕ)
      → q < os_cfg_prio_max
      → c2 (at.rdy_task_list q) ++ of_prio s.prio s.lists.owner q (before s.lists.value tick xs)
        ≡ c (at.rdy_task_list q)
          ++ of_prio s.prio s.lists.owner q (x ∷ before s.lists.value tick xs)
  ready_list_of q lt =
      let later : List Ptr = of_prio s.prio s.lists.owner q (before s.lists.value tick xs) in
      elim (Bool-cases (s.prio p == q)) [
        | inl e ↦
            let same : at.rdy_task_list q ≡ list =
              ap at.rdy_task_list (sym (eq_of_== (s.prio p) q e)) in
            rw e (
              ap (λ u. u ++ later) (ap c2 same ∙ c2_list ∙ ap (λ u. c u ++ x ∷ []) (sym same))
              ∙ append_assoc (c (at.rdy_task_list q)) (x ∷ []) later)
        | inr e ↦
            let ne : at.rdy_task_list q ≢ list =
              ready-apart at is.store.different q (s.prio p) lt bound
                (λ f. ne_of_== (s.prio p) q e (sym f)) in
            rw e (
              ap (λ u. u ++ later)
                (c2_else (at.rdy_task_list q) ne (λ f. d.ready_dly q lt (sym f))))
      ]

  -- The functions of the tasks that wake, in the state after the first round.
  dues_in :
      {A : Type 0} (f : (Ptr → ℕ) → (Ptr → Ptr) → ℕ → List Ptr → A)
      → f s2.prio s2.lists.owner (s2.prio s2.tcb_curr_ptr) (before s2.lists.value tick xs)
        ≡ f s.prio s.lists.owner (s.prio s.tcb_curr_ptr) (before s.lists.value tick xs)
  dues_in f =
      ap (λ u. f u s2.lists.owner (s2.prio s2.tcb_curr_ptr) (before s2.lists.value tick xs)) prios
      ∙ ap (λ u. f s.prio u (s2.prio s2.tcb_curr_ptr) (before s2.lists.value tick xs)) owners
      ∙ ap (λ u. f s.prio s.lists.owner u (before s2.lists.value tick xs)) curr
      ∙ ap (λ u. f s.prio s.lists.owner (s.prio s.tcb_curr_ptr) u) dues

  pub first-Woke : Woke at ts tick c (x ∷ xs) n s b0 now s'
  first-Woke =
      let put : Kern → Kern = λ u. record u {
        lists = s'.lists;
        tbl = s'.tbl;
        state = s'.state;
        tcb_high_rdy_ptr = s'.tcb_high_rdy_ptr;
        next_tick_to_unblock = s'.next_tick_to_unblock;
      } in
      record {
        lists = wk.lists;
        sched = wk.sched;
        none = wk.none;
        contents =
            λ a. ((wk.contents a).0 ∙ (aw.contents a).0, (wk.contents a).1 ∙ (aw.contents a).1);
        late =
            ap wk.lists (sym (ap (λ u. u.dly_task_list_ptr) aw.only))
            ∙ wk.late
            ∙ ap (λ v. behind v tick xs) values
            ∙ sym now_late;
        due = λ q lt.
            wk.due q lt
            ∙ dues_in (λ pr o k u. c2 (at.rdy_task_list q) ++ of_prio pr o q u)
            ∙ ready_list_of q lt
            ∙ ap (λ u. c (at.rdy_task_list q) ++ of_prio s.prio s.lists.owner q u) (sym now_due);
        rest = λ l nd nr.
            wk.rest l (λ e. nd (e ∙ ap (λ u. u.dly_task_list_ptr) aw.only)) nr
            ∙ c2_else l (nr (s.prio p) bound) nd;
        state =
            wk.state
            ∙ dues_in (λ pr o k u. made_ready o s2.state u)
            ∙ ap (λ u. made_ready s.lists.owner u (before s.lists.value tick xs)) aw.state
            ∙ ap (made_ready s.lists.owner s.state) (sym now_due);
        unblock =
            wk.unblock
            ∙ ap (λ v. first_value v (behind v tick xs)) values
            ∙ ap (first_value s.lists.value) (sym now_late);
        switch =
            wk.switch
            ∙ or_assoc b0 ahead _
            ∙ dues_in (λ pr o k u. b0 || (ahead || any_ahead pr o k u))
            ∙ ap
                (λ u.
                  b0
                  || (u
                      || any_ahead s.prio s.lists.owner (s.prio s.tcb_curr_ptr)
                          (before s.lists.value tick xs)))
                aw.first
            ∙ ap (λ u. b0 || any_ahead s.prio s.lists.owner (s.prio s.tcb_curr_ptr) u)
                (sym now_due);
        high =
            wk.high
            ∙ dues_in (λ pr o k u. last_ahead pr o k s2.tcb_high_rdy_ptr u)
            ∙ ap
                (λ u.
                  last_ahead s.prio s.lists.owner (s.prio s.tcb_curr_ptr) u
                    (before s.lists.value tick xs))
                aw.high
            ∙ ap (last_ahead s.prio s.lists.owner (s.prio s.tcb_curr_ptr) s.tcb_high_rdy_ptr)
                (sym now_due);
        only = ap put wk.only ∙ ap put aw.only;
      }
