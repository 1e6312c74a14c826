-- ===== src/Task/Awake.antt =====
-- `os_task_increment_tick` moves one task whose delay is over to its ready list.
use mathlib.Core.Path.{subst}
use ak_m_os_the_simple_rtos.Base.{
  ℕ, suc, ◌+◌, ◌^◌, ◌<◌, ◌≡◌, refl, sym, ap, ◌∙◌, ◌≢◌, inl, inr, Bool, true, false, List, [], ◌∷◌,
  arith, ◌==◌, ==_of_ne, Bool-cases, ltb, if◌then◌else◌, has, ◌∈◌, ◌∉◌, update, Returns, returns,
  bind, part-bind,
}
use ak_m_os_the_simple_rtos.OsList.{Ptr, null, Items, read}
use ak_m_os_the_simple_rtos.OsList.Ring.{IsList, SameOutside, SameContents}
use ak_m_os_the_simple_rtos.OsList.Sorted.{IsSorted}
use ak_m_os_the_simple_rtos.OsList.Store.{IsStore, update_self, update_else, not_in, loose}
use ak_m_os_the_simple_rtos.OsList.Move.{IsLoose, Moved, remove-Moved}
use ak_m_os_the_simple_rtos.Prio.{os_cfg_prio_max}
use ak_m_os_the_simple_rtos.Task.{ready, Kern, Place, field}
use ak_m_os_the_simple_rtos.Task.Change.{Delays, Marks-else, change-Sched}
use ak_m_os_the_simple_rtos.Task.Sched.{heads, IsSched, IsOut, IsDelay, Sched-IsDelay, ready-∈}
use ak_m_os_the_simple_rtos.Task.Ready.{joined, Joined, add_task-Joined}
use ak_m_os_the_simple_rtos.Task.Delay.{Sched-same}
use ak_m_os_the_simple_rtos.Task.Tick.{leave_list, wake_task}

-- The task `p` waits for no event: its event item is in no list. The item is neither at NULL nor at the address of a list.
pub record NoEvent (at : Place) (h : Items) (p : Ptr) : Type 0 where
  pub not_null : at.event_list_item p ≢ null
  pub head : at.event_list_item p ∉ heads at
  pub free : h.list (at.event_list_item p) ≡ null

-- None of the tasks `ts` waits for an event; no operation of the program makes one wait.
abbrev pub NoEvents : Place → Kern → List Ptr → Type 0
NoEvents at s ts = (p : Ptr) → p ∈ ts → NoEvent at s.lists p

-- A change of the list `l` by the item `x`, which is in a list, leaves the event items alone.
pub NoEvents-kept :
    {at : Place} (s : Kern) {c : Ptr → List Ptr} {n : ℕ} {h : Items} (ts : List Ptr) (x l : Ptr)
    → IsStore s.lists (heads at) c n
    → l ∈ heads at
    → ((p : Ptr) → p ∈ ts → at.event_list_item p ≢ x)
    → SameOutside (x ∷ l ∷ c l) s.lists h
    → NoEvents at s ts
    → NoEvents at (record s { lists = h }) ts
NoEvents-kept {at} s {c} ts x l store ml apart same none p m =
    let a : Ptr = at.event_list_item p in
    let no : NoEvent at s.lists p = none p m in
    let ne : (a == x) ≡ false = ==_of_ne a x (apart p m) in
    let nl : (a == l) ≡ false = ==_of_ne a l (λ e. not_in a l (heads at) no.head ml e) in
    let out : a ∉ c l = loose store l a ml no.free in
    record {
      not_null = no.not_null;
      head = no.head;
      free = (same a (ground (arith, ne, nl, out))).list ∙ no.free;
    }

-- The first of the delayed tasks, `p`, is moved to the end of its ready list.
abbrev pub moved : Place → Kern → (Ptr → List Ptr) → Ptr → List Ptr → Ptr → List Ptr
moved at s c p rest = joined at s (update c s.dly_task_list_ptr rest) p

pub record Awake (at : Place) (ts : List Ptr) (c : Ptr → List Ptr) (p : Ptr) (rest : List Ptr)
    (n : ℕ) (s : Kern) (ahead : Bool) (s' : Kern) : Type 0 where
  pub sched : IsSched at s' (moved at s c p rest) n
  pub contents : SameContents s.lists s'.lists
  pub none : NoEvents at s' ts
  pub state : s'.state ≡ update s.state p ready
  pub first : ahead ≡ ltb (s.prio p) (s.prio s.tcb_curr_ptr)
  pub high :
      s'.tcb_high_rdy_ptr
      ≡ (if ltb (s.prio p) (s.prio s.tcb_curr_ptr) then p else s.tcb_high_rdy_ptr)
  pub only : s' ≡ record s {
    lists = s'.lists;
    tbl = s'.tbl;
    state = s'.state;
    tcb_high_rdy_ptr = s'.tcb_high_rdy_ptr;
  }

module _ (at : Place) (ts : List Ptr) (s : Kern) (c : Ptr → List Ptr) (n : ℕ)
    (is : IsSched at s c (suc n)) (none : NoEvents at s ts) (x : Ptr) (rest : List Ptr)
    (here : c s.dly_task_list_ptr ≡ x ∷ rest) (bound : s.prio (s.lists.owner x) < os_cfg_prio_max)
    (known : s.lists.owner x ∈ ts) where
  abbrev p : Ptr
  p = s.lists.owner x

  abbrev dly : Ptr
  dly = s.dly_task_list_ptr

  d : IsDelay at s
  d = Sched-IsDelay is

  x-∈ : x ∈ c dly
  x-∈ = subst (λ u. x ∈ u) (sym here) (ground arith)

  own : (p ≢ null) × (at.state_list_item p ≡ x)
  own = is.owned dly x d.dly x-∈

  events_apart : (q : Ptr) → q ∈ ts → at.event_list_item q ≢ x
  events_apart q m e =
      let out : at.event_list_item q ∉ c dly =
        loose is.store dly (at.event_list_item q) d.dly (none q m).free in
      not_in (at.event_list_item q) x (c dly) out x-∈ e

  rest-⊆ : (y : Ptr) → y ∈ rest → y ∈ c dly
  rest-⊆ y m = subst (λ u. y ∈ u) (sym here) (ground (arith, m))

  x_no_head : x ∉ heads at
  x_no_head = elim (Bool-cases (has x (heads at))) [
    | inr o ↦ o
    | inl m ↦ absurd (not_in x x (c dly) (is.store.heads x dly m d.dly) x-∈ refl)
  ]

  rest-Delays : Delays s (update c dly rest) s.next_tick_to_unblock
  rest-Delays =
      let at_dly : update c dly rest dly ≡ rest = update_self c dly rest in
      let at_ovf : update c dly rest s.overflow_dly_task_list_ptr ≡ c s.overflow_dly_task_list_ptr =
        update_else c dly s.overflow_dly_task_list_ptr rest (λ e. d.apart (sym e)) in
      record {
        sorted =
            subst (IsSorted s.lists.value) (sym at_dly)
              (subst (IsSorted s.lists.value) here is.sorted).1;
        sorted_over = subst (IsSorted s.lists.value) (sym at_ovf) is.sorted_over;
        wake = λ y m. is.wake y (rest-⊆ y (subst (λ u. y ∈ u) at_dly m));
      }

  -- the state after `os_list_remove`
  removed-Sched :
      (h : Items)
      → Moved (heads at) c dly x rest n s.lists h
      → IsSched at (record s { lists = h }) (update c dly rest) n
  removed-Sched h m =
      change-Sched is dly x rest n h m (λ y my. inl (rest-⊆ y my))
        (record { owned = own; prio = λ q lt e. absurd (d.ready_dly q lt (sym e)) }) s.tbl
        s.next_tick_to_unblock s.state (Marks-else is dly x rest d.ready_dly) rest-Delays

  removed-IsOut :
      (h : Items)
      → h.list x ≡ null
      → Moved (heads at) c dly x rest n s.lists h
      → IsOut at (record s { lists = h }) p
  removed-IsOut h free m =
      let l : IsList s.lists dly (c dly) = is.store.lists dly d.dly in
      record {
        not_null = own.0;
        prio = bound;
        item = subst (IsLoose h (heads at)) (sym own.1) (record {
          not_null = λ e. not_in null x (dly ∷ c dly) l.not_null (ground (arith, x-∈)) (sym e);
          out = x_no_head;
          free = free;
          word = subst (λ u. u < 2 ^ 32) (sym (m.contents x).0) (l.words x x-∈);
        });
        owner = ap h.owner own.1 ∙ (m.contents x).1;
      }

  finish :
      (h : Items)
      → (m : Moved (heads at) c dly x rest n s.lists h) → NoEvents at (record s { lists = h }) ts
      → (s2 : Kern) → Joined at (update c dly rest) p n (record s { lists = h }) s2
      → (b : Bool) (hi : Ptr) → b ≡ ltb (s.prio p) (s.prio s.tcb_curr_ptr)
      → hi ≡ (if ltb (s.prio p) (s.prio s.tcb_curr_ptr) then p else s.tcb_high_rdy_ptr)
      → Awake at ts c p rest (n + 1) s b (record s2 { tcb_high_rdy_ptr = hi })
  finish h m none1 s2 jn b hi eb eh =
      let put : Kern → Kern =
        λ u. record u { lists = s2.lists; tbl = s2.tbl; state = s2.state; tcb_high_rdy_ptr = hi } in
      record {
        sched = Sched-same (record s2 { tcb_high_rdy_ptr = hi }) jn.sched;
        contents =
            λ a. ((jn.contents a).0 ∙ (m.contents a).0, (jn.contents a).1 ∙ (m.contents a).1);
        none =
            NoEvents-kept (record s { lists = h }) ts x (at.rdy_task_list (s.prio p))
              (removed-Sched h m).store (ready-∈ at (s.prio p) bound) events_apart
              (subst
                (λ u.
                  SameOutside
                    (u
                      ∷ at.rdy_task_list (s.prio p)
                      ∷ update c dly rest (at.rdy_task_list (s.prio p)))
                    h s2.lists)
                own.1 jn.outside)
              none1;
        state = jn.state;
        first = eb;
        high = eh;
        only = ap put jn.only;
      }

  pub wake_task-Awake :
      s.tcb_curr_ptr ≢ null
      → n + 1 < 2 ^ 16
      → Returns (Awake at ts c p rest (n + 1) s) (wake_task at p s)
  unfolding wake_task leave_list field read
  wake_task-Awake curr room = rw own.1 (
      part-bind (λ h s. record s { lists = h }) s _
        (remove-Moved is.store dly x d.dly [] rest n here refl)
        (λ _ h m.
          let none1 : NoEvents at (record s { lists = h }) ts =
            NoEvents-kept s ts x dly is.store d.dly events_apart m.2.outside none in
          let no : NoEvent at h p = none1 p known in
          rw (==_of_ne (at.event_list_item p) null no.not_null, no.free)
            (bind
              (add_task-Joined at (record s { lists = h }) (update c dly rest) n
                (removed-Sched h m.2) p (removed-IsOut h m.1 m.2) room)
              (λ _ s2 jn.
                let same : ltb (s2.prio p) (s2.prio s2.tcb_curr_ptr)
                    ≡ ltb (s.prio p) (s.prio s.tcb_curr_ptr) =
                  ap (λ u. ltb (u.prio p) (u.prio u.tcb_curr_ptr)) jn.only in
                let cu : (s2.tcb_curr_ptr == null) ≡ false =
                  ap (λ u. u.tcb_curr_ptr == null) jn.only ∙ ==_of_ne s.tcb_curr_ptr null curr in
                rw (==_of_ne p null own.0, cu)
                  (elim (Bool-cases (ltb (s2.prio p) (s2.prio s2.tcb_curr_ptr))) [
                    | inl e ↦
                        let f : ltb (s.prio p) (s.prio s.tcb_curr_ptr) ≡ true = sym same ∙ e in
                        rw e (returns (finish h m.2 none1 s2 jn true p (sym f) (rw f refl)))
                    | inr e ↦
                        let f : ltb (s.prio p) (s.prio s.tcb_curr_ptr) ≡ false = sym same ∙ e in
                        rw e (
                          returns (
                            finish h m.2 none1 s2 jn false s2.tcb_high_rdy_ptr (sym f)
                              (rw f (ap (λ u. u.tcb_high_rdy_ptr) jn.only))))
                  ])))))
