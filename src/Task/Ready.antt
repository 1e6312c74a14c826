-- ===== src/Task/Ready.antt =====
-- `add_task_to_rdy_list` puts a task that is in no list behind the others of its priority.
use mathlib.Core.Path.{subst}
use ak_m_os_the_simple_rtos.Base.{
  ℕ, ◌+◌, ◌^◌, ◌<◌, ◌≡◌, refl, sym, ap, ◌∙◌, ◌≢◌, ◌⊎◌, inl, inr, true, false, not, List, [], ◌∷◌,
  ◌++◌, arith, ◌==◌, eq_of_==, ne_of_==, ==_of_ne, Bool-cases, ltb, if◌then◌else◌, has-append, ◌∈◌,
  length, length-append, update, Returns, returns, part-bind,
}
use ak_m_os_the_simple_rtos.OsList.{Ptr, null, Items, read}
use ak_m_os_the_simple_rtos.OsList.Ring.{IsList, SameOutside, SameContents}
use ak_m_os_the_simple_rtos.OsList.Store.{update_self}
use ak_m_os_the_simple_rtos.OsList.Move.{Moved, insert_end-Moved}
use ak_m_os_the_simple_rtos.Prio.{Tbl, os_cfg_prio_max}
use ak_m_os_the_simple_rtos.Prio.Table.{IsTbl, is_ready, insert-Marked}
use ak_m_os_the_simple_rtos.Task.{
  ready, Kern, Place, field, set_state, ready_list, add_task_to_rdy_list,
}
use ak_m_os_the_simple_rtos.Task.Change.{MayStand, Marks-at, Delays-else, change-Sched}
use ak_m_os_the_simple_rtos.Task.Sched.{
  heads, some_item, IsSched, IsOut, IsDelay, Sched-IsDelay, ready-∈, ready-apart,
}

-- With the item of `p`, the ready list of its priority.
abbrev pub joined : Place → Kern → (Ptr → List Ptr) → Ptr → Ptr → List Ptr
joined at s c p =
    update c (at.rdy_task_list (s.prio p))
      (c (at.rdy_task_list (s.prio p)) ++ at.state_list_item p ∷ [])

-- Only the lists, the bitmap and the states of tasks have changed.
abbrev pub OnlyLists : Kern → Kern → Type 0
OnlyLists s s' = s' ≡ record s { lists = s'.lists; tbl = s'.tbl; state = s'.state }

-- What `add_task_to_rdy_list` leaves.
pub record Joined (at : Place) (c : Ptr → List Ptr) (p : Ptr) (n : ℕ) (s s' : Kern) : Type 0 where
  pub sched : IsSched at s' (joined at s c p) (n + 1)
  pub contents : SameContents s.lists s'.lists
  pub outside :
      SameOutside
        (at.state_list_item p ∷ at.rdy_task_list (s.prio p) ∷ c (at.rdy_task_list (s.prio p)))
        s.lists
        s'.lists
  pub state : s'.state ≡ update s.state p ready
  pub only : OnlyLists s s'

snoc-some : (xs : List Ptr) (p : Ptr) → some_item (xs ++ p ∷ []) ≡ true
snoc-some [] p = refl
snoc-some (x ∷ xs) p = refl

one_item : (xs : List Ptr) → (length xs + 1 == 1) ≡ not (some_item xs)
one_item [] = refl
one_item (x ∷ xs) = ground arith

module _ (at : Place) (s : Kern) (c : Ptr → List Ptr) (n : ℕ) (is : IsSched at s c n) (p : Ptr)
    (out : IsOut at s p) (room : n + 1 < 2 ^ 16) where
  abbrev prio : ℕ
  prio = s.prio p

  abbrev item : Ptr
  item = at.state_list_item p

  abbrev list : Ptr
  list = at.rdy_task_list prio

  -- the state that the call leaves, given its lists and its bitmap
  abbrev after : Items → Tbl → Kern
  after h t = record s { lists = h; tbl = t; state = update s.state p ready }

  may : MayStand at s list item
  may = record {
    owned =
        subst (λ u. (u ≢ null) × (at.state_list_item u ≡ item)) (sym out.owner)
          (out.not_null, refl);
    prio = λ q lt e. elim (Bool-cases (q == prio)) [
      | inl f ↦ ap s.prio out.owner ∙ sym (eq_of_== q prio f)
      | inr f ↦ absurd (ready-apart at is.store.different q prio lt out.prio (ne_of_== q prio f) e)
    ];
  }

  new_item : (x : Ptr) → x ∈ c list ++ item ∷ [] → (x ∈ c list) ⊎ (x ≡ item)
  new_item x m = elim (Bool-cases (x == item)) [
    | inl e ↦ inr (eq_of_== x item e)
    | inr e ↦ inl (ground (arith, has-append x (c list) (item ∷ []), e))
  ]

  after-Sched :
      (h : Items)
      → Moved (heads at) c list item (c list ++ item ∷ []) (n + 1) s.lists h
      → (t : Tbl) → IsTbl t
      → length t ≡ 2
      → ((q : ℕ) → is_ready t q ≡ (if q == prio then true else is_ready s.tbl q))
      → IsSched at (after h t) (joined at s c p) (n + 1)
  after-Sched h m t table rows marked =
      let d : IsDelay at s = Sched-IsDelay is in
      change-Sched is list item (c list ++ item ∷ []) (n + 1) h m new_item may t
        s.next_tick_to_unblock (update s.state p ready)
        (Marks-at is list item (c list ++ item ∷ []) prio t out.prio refl table rows (λ q.
          marked q
          ∙ ap (λ u. if q == prio then u else is_ready s.tbl q) (sym (snoc-some (c list) item))))
        (Delays-else is list item (c list ++ item ∷ []) (λ e. d.ready_dly prio out.prio (sym e))
          (λ e. d.ready_ovf prio out.prio (sym e)))

  first_Moved :
      (h : Items)
      → Moved (heads at) c list item (c list ++ item ∷ []) (n + 1) s.lists h
      → ((list == null) ≡ false) × (h.num list ≡ length (c list) + 1)
  first_Moved h m =
      let l : IsList h list (c list ++ item ∷ []) =
        subst (IsList h list) (update_self c list (c list ++ item ∷ []))
          (m.store.lists list (ready-∈ at prio out.prio)) in
      (ground (arith, l.not_null), l.count ∙ length-append (c list) (item ∷ []))

  after-Joined :
      (h : Items)
      → Moved (heads at) c list item (c list ++ item ∷ []) (n + 1) s.lists h
      → (t : Tbl) → IsTbl t
      → length t ≡ 2
      → ((q : ℕ) → is_ready t q ≡ (if q == prio then true else is_ready s.tbl q))
      → Joined at c p n s (after h t)
  after-Joined h m t table rows marked = record {
    sched = after-Sched h m t table rows marked;
    contents = m.contents;
    outside = m.outside;
    state = refl;
    only = refl;
  }

  -- `add_task_to_rdy_list` of a task that is in no list puts it behind the others of its priority,
  -- marks that priority, makes the task ready and keeps the scheduler's invariant; nothing but
  -- lists, bitmap and that state changes. The lists hold less than 2 ^ 16 - 1 items, and the task is
  -- not NULL, owns its item and has a priority in range.
  pub add_task-Joined : Returns (λ _. Joined at c p n s) (add_task_to_rdy_list at p s)
  unfolding add_task_to_rdy_list field ready_list set_state read
  add_task-Joined =
      let bound : ltb prio os_cfg_prio_max ≡ true = ground (arith, out.prio) in
      let ne : (p == null) ≡ false = ==_of_ne p null out.not_null in
      rw (ne, bound)
        (part-bind (λ h s. record s { lists = h }) s _
          (insert_end-Moved is.store list item (ready-∈ at prio out.prio) out.item room)
          (λ _ h m.
            rw ((first_Moved h m).0, (first_Moved h m).1, one_item (c list))
              (elim (Bool-cases (some_item (c list))) [
                | inl e ↦
                    rw (e, ne)
                      (returns (
                        after-Joined h m s.tbl is.table is.rows (λ q.
                          elim (Bool-cases (q == prio)) [
                            | inl f ↦ rw (f, eq_of_== q prio f) (is.marks prio out.prio ∙ e)
                            | inr f ↦ rw f refl
                          ])))
                | inr e ↦ rw e (
                    part-bind (λ t s. record s { tbl = t }) (record s { lists = h }) _
                      (insert-Marked is.table prio (omega (arith, is.rows, out.prio)))
                      (λ _ t marked.
                        rw ne
                          (returns (after-Joined h m t marked.0 (marked.1 ∙ is.rows) marked.2))))
              ])))
