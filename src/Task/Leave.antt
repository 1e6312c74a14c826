-- ===== src/Task/Leave.antt =====
-- The current task leaves its ready list.
use mathlib.Core.Path.{subst}
use ak_m_os_the_simple_rtos.Base.{
  ℕ, suc, ◌^◌, ◌<◌, ◌≡◌, refl, sym, ap, ◌∙◌, ◌≢◌, inl, inr, true, not, List, [], ◌∷◌, ◌++◌, arith,
  ◌==◌, ==-refl, eq_of_==, ==_of_ne, Bool-cases, if◌then◌else◌, has, has-append, ◌∈◌, ◌∉◌, length,
  update, Returns, returns, part-bind, part-last,
}
use ak_m_os_the_simple_rtos.OsList.{Ptr, null, Items}
use ak_m_os_the_simple_rtos.OsList.Ring.{IsList, SameContents}
use ak_m_os_the_simple_rtos.OsList.Store.{not_in}
use ak_m_os_the_simple_rtos.OsList.Move.{Moved, remove-Moved}
use ak_m_os_the_simple_rtos.Prio.{Tbl, os_cfg_prio_max}
use ak_m_os_the_simple_rtos.Prio.Table.{IsTbl, is_ready, remove-Marked}
use ak_m_os_the_simple_rtos.Task.{Kern, Place, field, leave_ready}
use ak_m_os_the_simple_rtos.Task.Change.{Marks-at, Delays-else, change-Sched}
use ak_m_os_the_simple_rtos.Task.Sched.{
  heads, some_item, IsSched, IsOut, IsDelay, Sched-IsDelay, ready-∈,
}

-- The task `p` is ready: its item stands in the list of its priority, between `xs` and `ys`.
pub record IsReady (at : Place) (s : Kern) (c : Ptr → List Ptr) (p : Ptr) (xs ys : List Ptr)
    : Type 0 where
  pub not_null : p ≢ null
  pub prio : s.prio p < os_cfg_prio_max
  pub owner : s.lists.owner (at.state_list_item p) ≡ p
  pub here : c (at.rdy_task_list (s.prio p)) ≡ xs ++ at.state_list_item p ∷ ys

-- The list of that priority without it.
abbrev pub left : Place → Kern → (Ptr → List Ptr) → Ptr → List Ptr → Ptr → List Ptr
left at s c p rest = update c (at.rdy_task_list (s.prio p)) rest

-- What the removal leaves.
pub record Left (at : Place) (c : Ptr → List Ptr) (p : Ptr) (rest : List Ptr) (n : ℕ) (s s' : Kern)
    : Type 0 where
  pub sched : IsSched at s' (left at s c p rest) n
  pub out : IsOut at s' p
  pub contents : SameContents s.lists s'.lists
  pub only : s' ≡ record s { lists = s'.lists; tbl = s'.tbl }

no_item : (xs : List Ptr) → (length xs == 0) ≡ not (some_item xs)
no_item [] = refl
no_item (x ∷ xs) = ground arith

has-some : (x : Ptr) (xs : List Ptr) → x ∈ xs → some_item xs ≡ true
has-some x [] m = cc
has-some x (y ∷ xs) m = refl

module _ (at : Place) (s : Kern) (c : Ptr → List Ptr) (n : ℕ) (is : IsSched at s c (suc n))
    (p : Ptr) (xs ys : List Ptr) (rd : IsReady at s c p xs ys) where
  abbrev prio : ℕ
  prio = s.prio p

  abbrev item : Ptr
  item = at.state_list_item p

  abbrev list : Ptr
  list = at.rdy_task_list prio

  item-∈ : item ∈ c list
  item-∈ =
      subst (λ u. item ∈ u) (sym rd.here)
        (ground (arith, has-append item xs (item ∷ ys), ==-refl item))

  rest-⊆ : (x : Ptr) → x ∈ xs ++ ys → x ∈ c list
  rest-⊆ x m =
      subst (λ u. x ∈ u) (sym rd.here)
        (ground (arith, has-append x xs ys, has-append x xs (item ∷ ys)))

  in_list : IsList s.lists list (c list)
  in_list = is.store.lists list (ready-∈ at prio rd.prio)

  no_head : item ∉ heads at
  no_head = elim (Bool-cases (has item (heads at))) [
    | inr o ↦ o
    | inl m ↦ absurd (
        not_in item item (c list) (is.store.heads item list m (ready-∈ at prio rd.prio)) item-∈
          refl)
  ]

  abbrev after : Items → Tbl → Kern
  after h t = record s { lists = h; tbl = t }

  after-Left :
      (h : Items)
      → h.list item ≡ null
      → Moved (heads at) c list item (xs ++ ys) n s.lists h
      → (t : Tbl) → IsTbl t
      → length t ≡ 2
      → ((q : ℕ) → is_ready t q ≡ (if q == prio then some_item (xs ++ ys) else is_ready s.tbl q))
      → Left at c p (xs ++ ys) n s (after h t)
  after-Left h free m t table rows marked =
      let d : IsDelay at s = Sched-IsDelay is in
      record {
        sched =
            change-Sched is list item (xs ++ ys) n h m (λ x mx. inl (rest-⊆ x mx))
              (record {
                owned = is.owned list item (ready-∈ at prio rd.prio) item-∈;
                prio = λ q lt e. is.prios q item lt (subst (λ u. item ∈ c u) (sym e) item-∈);
              })
              t s.next_tick_to_unblock s.state
              (Marks-at is list item (xs ++ ys) prio t rd.prio refl table rows marked)
              (Delays-else is list item (xs ++ ys) (λ e. d.ready_dly prio rd.prio (sym e))
                (λ e. d.ready_ovf prio rd.prio (sym e)));
        out = record {
          not_null = rd.not_null;
          prio = rd.prio;
          item = record {
            not_null = λ e.
                not_in null item (list ∷ c list) in_list.not_null (ground (arith, item-∈)) (sym e);
            out = no_head;
            free = free;
            word = subst (λ u. u < 2 ^ 32) (sym (m.contents item).0) (in_list.words item item-∈);
          };
          owner = (m.contents item).1 ∙ rd.owner;
        };
        contents = m.contents;
        only = refl;
      }

  pub leave_ready-Left : Returns (λ _. Left at c p (xs ++ ys) n s) (leave_ready at p s)
  unfolding leave_ready field
  leave_ready-Left =
      part-bind (λ h s. record s { lists = h }) s _
        (remove-Moved is.store list item (ready-∈ at prio rd.prio) xs ys n rd.here refl)
        (λ k h m.
          rw (==_of_ne p null rd.not_null, m.0, no_item (xs ++ ys))
            (elim (Bool-cases (some_item (xs ++ ys))) [
              | inl e ↦ rw e (
                  returns (
                    after-Left h m.1 m.2 s.tbl is.table is.rows (λ q.
                      elim (Bool-cases (q == prio)) [
                        | inl f ↦
                            rw (f, eq_of_== q prio f, e)
                              (is.marks prio rd.prio ∙ has-some item (c list) item-∈)
                        | inr f ↦ rw f refl
                      ])))
              | inr e ↦ rw e (
                  part-last (λ t s. record s { tbl = t }) (record s { lists = h })
                    (remove-Marked is.table prio (omega (arith, is.rows, rd.prio)))
                    (λ _ t marked. after-Left h m.1 m.2 t marked.0 (marked.1 ∙ is.rows) (λ q.
                      marked.2 q ∙ ap (λ u. if q == prio then u else is_ready s.tbl q) (sym e))))
            ]))
