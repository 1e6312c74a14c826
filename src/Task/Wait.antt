-- ===== src/Task/Wait.antt =====
-- A task that is in no list is put among the delayed ones.
use mathlib.Core.Path.{subst}
use ak_m_os_the_simple_rtos.Base.{
  ℕ, ◌^◌, ◌<◌, ◌≤◌, ◌≡◌, refl, sym, ◌∙◌, ◌≢◌, ◌⊎◌, inl, inr, List, [], ◌∷◌, arith, ◌==◌, eq_of_==,
  Bool-cases, ◌∈◌, update,
}
use ak_m_os_the_simple_rtos.OsList.{Ptr, null, Items}
use ak_m_os_the_simple_rtos.OsList.Ring.{SameAt}
use ak_m_os_the_simple_rtos.OsList.Sorted.{placed, IsSorted}
use ak_m_os_the_simple_rtos.OsList.Store.{update_self, update_else, not_in, loose}
use ak_m_os_the_simple_rtos.OsList.Move.{placed-has}
use ak_m_os_the_simple_rtos.Prio.{os_cfg_prio_max}
use ak_m_os_the_simple_rtos.Task.{Kern, Place}
use ak_m_os_the_simple_rtos.Task.Change.{MayStand}
use ak_m_os_the_simple_rtos.Task.Sched.{heads, IsSched, IsOut, IsDelay, Sched-IsDelay}
use ak_m_os_the_simple_rtos.OsList.Ring.{frame-IsList}

-- Only the values of items count that are in the list.
IsSorted-on :
    (value value' : Ptr → ℕ) (xs : List Ptr)
    → ((a : Ptr) → a ∈ xs → value' a ≡ value a)
    → IsSorted value xs
    → IsSorted value' xs
IsSorted-on value value' [] same is = tt
IsSorted-on value value' (x ∷ []) same is = (omega arith, tt)
IsSorted-on value value' (x ∷ y ∷ xs) same is =
    let ex : value' x ≡ value x = same x (ground arith) in
    let ey : value' y ≡ value y = same y (ground arith) in
    (
      omega (arith, ex, ey, is.0),
      IsSorted-on value value' (y ∷ xs) (λ a m. same a (ground (arith, m))) is.1,
    )

module _ (at : Place) (s : Kern) (c : Ptr → List Ptr) (n : ℕ) (is : IsSched at s c n) (p : Ptr)
    (out : IsOut at s p) where
  abbrev item : Ptr
  item = at.state_list_item p

  -- The item with the value `v`.
  abbrev pub valued : ℕ → Items
  valued v = record s.lists { value = update s.lists.value item v }

  not_item : (l x : Ptr) → l ∈ heads at → x ∈ l ∷ c l → x ≢ item
  not_item l x ml m e = elim (Bool-cases (x == l)) [
    | inl f ↦ not_in item l (heads at) out.item.out ml (sym e ∙ eq_of_== x l f)
    | inr f ↦
        not_in item x (c l) (loose is.store l item ml out.item.free) (ground (arith, m, f)) (sym e)
  ]

  value_else : (v : ℕ) (l x : Ptr) → l ∈ heads at → x ∈ c l → (valued v).value x ≡ s.lists.value x
  value_else v l x ml m = update_else s.lists.value item x v (not_item l x ml (ground (arith, m)))

  value-SameAt : (v : ℕ) (x : Ptr) → x ≢ item → SameAt s.lists (valued v) x
  value-SameAt v x ne = record {
    next = refl;
    prev = refl;
    value = update_else s.lists.value item x v ne;
    owner = refl;
    list = refl;
    curr = refl;
    num = refl;
  }

  pub value-Sched : (v : ℕ) → IsSched at (record s { lists = valued v }) c n
  value-Sched v =
      let d : IsDelay at s = Sched-IsDelay is in
      record {
        store = record {
          lists = λ l ml.
              frame-IsList (λ a m. value-SameAt v a (not_item l a ml m)) (is.store.lists l ml);
          heads = is.store.heads;
          different = is.store.different;
          census = is.store.census;
        };
        table = is.table;
        rows = is.rows;
        marks = is.marks;
        owned = is.owned;
        prios = is.prios;
        delay = is.delay;
        sorted =
            IsSorted-on s.lists.value (valued v).value (c s.dly_task_list_ptr)
              (λ a. value_else v s.dly_task_list_ptr a d.dly) is.sorted;
        sorted_over =
            IsSorted-on s.lists.value (valued v).value (c s.overflow_dly_task_list_ptr)
              (λ a. value_else v s.overflow_dly_task_list_ptr a d.ovf) is.sorted_over;
        wake = λ x m.
            subst (λ u. s.next_tick_to_unblock ≤ u)
              (sym (value_else v s.dly_task_list_ptr x d.dly m)) (is.wake x m);
      }

  pub value-IsOut : (v : ℕ) → v < 2 ^ 32 → IsOut at (record s { lists = valued v }) p
  value-IsOut v lt = record {
    not_null = out.not_null;
    prio = out.prio;
    item = record {
      not_null = out.item.not_null;
      out = out.item.out;
      free = out.item.free;
      word = subst (λ u. u < 2 ^ 32) (sym (update_self s.lists.value item v)) lt;
    };
    owner = out.owner;
  }

  -- The item may stand in a list that is no ready list.
  pub stands :
      (l : Ptr) → ((q : ℕ) → q < os_cfg_prio_max → l ≢ at.rdy_task_list q) → MayStand at s l item
  stands l ne = record {
    owned =
        subst (λ u. (u ≢ null) × (at.state_list_item u ≡ item)) (sym out.owner)
          (out.not_null, refl);
    prio = λ q lt e. absurd (ne q lt (sym e));
  }

  pub placed_from : (l x : Ptr) → x ∈ placed s.lists item (c l) → (x ∈ c l) ⊎ (x ≡ item)
  placed_from l x m = elim (Bool-cases (x == item)) [
    | inl e ↦ inr (eq_of_== x item e)
    | inr e ↦ inl (ground (arith, e, placed-has s.lists item x (c l)))
  ]
