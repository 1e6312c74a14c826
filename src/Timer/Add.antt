-- ===== src/Timer/Add.antt =====
-- Starting a timer: which list it goes to, and when the timer task is woken next.
use ak_m_os_the_simple_rtos.Base.{
  ℕ, ◌≤◌, ◌≡◌, refl, ap, ◌≢◌, ◌⊎◌, ◌||◌, ◌∈◌, has, ==-refl, Bool, true, false, List, [], ◌∷◌, arith,
  ◌==◌, ==_of_ne, Bool-cases, inl, inr, ltb, if◌then◌else◌, Run, Cmd, Returns, returns, and_then,
}
use ak_m_os_the_simple_rtos.Kernel.{IsCritical, exit-enter, os_critical_enter}
use ak_m_os_the_simple_rtos.OsList.{Ptr, null, Items, read}
use ak_m_os_the_simple_rtos.OsList.Ring.{IsList}
use ak_m_os_the_simple_rtos.OsList.Insert.{Fits}
use ak_m_os_the_simple_rtos.OsList.Sorted.{IsSorted, placed, insert-IsSorted}
use ak_m_os_the_simple_rtos.Timer.{
  Statics, Timers, with_lists, add_timer_to_list, update_next_tick_to_unblock, list_is_empty,
}

pub on_lists-bind :
    {A B : Type 0} {P : A → Items → Type 0} {Q : B → Timers → Type 0} (s : Timers) {r : Run Items A}
    (k : A → Cmd Timers B)
    → Returns P r
    → ((a : A) (h : Items) → P a h → Returns Q (k a (record s { lists = h })))
    → Returns Q (and_then (with_lists s r) k)
on_lists-bind s k (returns p) next = next _ _ p

-- The list that a timer with the trigger time `v` belongs to.
abbrev pub list_for : Timers → ℕ → Ptr
list_for s v = if ltb v s.os_tick then s.overflow_timer_list_ptr else s.timer_list_ptr

-- `add_timer_to_list` puts the item of a timer into the current list, or into the overflow list if
-- its trigger time lies before the tick count, and keeps that list well-formed and sorted by trigger
-- time and the state of the critical sections as it was. The list is well-formed and sorted, and the
-- item is not NULL and not in it. The state of the critical sections is as `IsCritical` asks.
pub add_timer-IsSorted :
    (s : Timers) (st : Statics) (p : Ptr) (xs : List Ptr)
    → IsCritical s.critical
    → IsList s.lists (list_for s (s.lists.value (st.timer_list_item p))) xs
    → Fits s.lists (list_for s (s.lists.value (st.timer_list_item p))) xs (st.timer_list_item p)
    → IsSorted s.lists.value xs
    → Returns
        (λ _ s'.
          IsList s'.lists
            (list_for s (s.lists.value (st.timer_list_item p)))
            (placed s.lists (st.timer_list_item p) xs)
          × IsSorted s'.lists.value (placed s.lists (st.timer_list_item p) xs)
          × (s'.critical ≡ s.critical))
        (add_timer_to_list st p s)
unfolding add_timer_to_list read
add_timer-IsSorted s st p xs ok_critical is fits sorted =
    let item : Ptr = st.timer_list_item p in
    let ep : (item == null) ≡ false = ==_of_ne item null fits.not_null in
    rw ep (
      on_lists-bind (record s { critical = os_critical_enter s.critical }) _
        (insert-IsSorted xs is fits sorted)
        (λ _ h done. returns (done.0, done.1, exit-enter s.critical ok_critical)))

or_cases : (x y : ℕ) (t : Bool) → ((x == y) || t) ≡ true → (x ≡ y) ⊎ (t ≡ true)
or_cases x y t h = ground arith

-- In a sorted list the first value is the least.
first-least :
    (value : Ptr → ℕ) (x y : Ptr) (xs : List Ptr)
    → IsSorted value (x ∷ xs)
    → y ∈ x ∷ xs
    → value x ≤ value y
first-least value x y [] sorted h = elim (or_cases y x false h) [
  | inl e ↦ omega (arith, ap value e)
  | inr f ↦ cc
]
first-least value x y (z ∷ zs) sorted h = elim (or_cases y x (has y (z ∷ zs)) h) [
  | inl e ↦ omega (arith, ap value e)
  | inr f ↦ omega (arith, sorted.0, first-least value z y zs sorted.1 f)
]

-- After `update_next_tick_to_unblock` the tick at which the timer task wakes is not later than the
-- trigger time of any timer of the current list, and the lists are as they were. The list is
-- well-formed and sorted by trigger time, and the owner of each of its items is the timer that holds
-- the item.
pub update_next-least :
    (s : Timers) (st : Statics) (xs : List Ptr)
    → IsList s.lists s.timer_list_ptr xs
    → IsSorted s.lists.value xs
    → ((y : Ptr) → y ∈ xs → (s.lists.owner y ≢ null) × (st.timer_list_item (s.lists.owner y) ≡ y))
    → Returns
        (λ _ s'.
          (s'.lists ≡ s.lists)
          × ((y : Ptr) → y ∈ xs → s'.next_tick_to_unblock_timer ≤ s.lists.value y))
        (update_next_tick_to_unblock st s)
unfolding update_next_tick_to_unblock list_is_empty read
update_next-least s st [] is sorted owned =
    let el : (s.timer_list_ptr == null) ≡ false = ground (arith, is.not_null) in
    rw (el, is.count) (returns (refl, λ y h. cc))
update_next-least s st (x ∷ xs) is sorted owned =
    let el : (s.timer_list_ptr == null) ≡ false = ground (arith, is.not_null) in
    let ex : (x == null) ≡ false = ground (arith, is.not_null) in
    let own : st.timer_list_item (s.lists.owner x) ≡ x = (owned x (rw (==-refl x) refl)).1 in
    let some : (s.lists.num s.timer_list_ptr == 0) ≡ false = ground (arith, is.count) in
    let first : s.lists.next s.timer_list_ptr ≡ x = is.links.0 in
    elim (Bool-cases (ltb (s.lists.value x) s.next_tick_to_unblock_timer)) [
      | inl e ↦
          rw (el, some, el, first, ex, own, ex, e)
            (returns (refl, λ y h. first-least s.lists.value x y xs sorted h))
      | inr e ↦
          rw (el, some, el, first, ex, own, ex, e)
            (returns (refl, λ y h. ground (arith, e, first-least s.lists.value x y xs sorted h)))
    ]
