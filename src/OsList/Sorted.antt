-- ===== src/OsList/Sorted.antt =====
-- `os_list_insert` puts an item behind all those that are not later, and keeps a sorted list
-- sorted.
use mathlib.Core.Path.{subst}
use mathlib.Core.List.{append-nil}
use ak_m_os_the_simple_rtos.Base.{
  ℕ, zero, suc, ◌+◌, ◌<◌, ◌≤◌, ◌≡◌, refl, sym, ap, ◌∙◌, ◌≢◌, inl, inr, true, false, List, [], ◌∷◌,
  ◌++◌, arith, Bool-cases, ◌==◌, ◌∈◌, ◌∉◌, length, Returns, ◌>>◌, bind, mono, ok, ==_of_ne, leb,
  if◌then◌else◌,
}
use ak_m_os_the_simple_rtos.OsList.{
  Ptr, null, os_cfg_delay_max, Items, set_list, get_prev, read, link_after, walk, count_up,
  os_list_insert,
}
use ak_m_os_the_simple_rtos.OsList.Links.{
  ne_of_mem, Links, last, head_or, next_at, prev_at, last-mem-append, head_or-mem-append,
}
use ak_m_os_the_simple_rtos.OsList.Ring.{IsList, cursor-middle, Spliced-IsList, Spliced-SameOutside}
use ak_m_os_the_simple_rtos.OsList.Attach.{link_after-Linked, attach-Spliced}
use ak_m_os_the_simple_rtos.OsList.Insert.{
  Fits, Inserted, first_cursor, list_ne_null, insert_end-append,
}

-- The items that stay in front of one with the value `v`, and those that go behind it.
unfoldable pub before : (Ptr → ℕ) → ℕ → List Ptr → List Ptr
before value v [] = []
before value v (x ∷ xs) = if leb (value x) v then x ∷ before value v xs else []

unfoldable pub behind : (Ptr → ℕ) → ℕ → List Ptr → List Ptr
behind value v [] = []
behind value v (x ∷ xs) = if leb (value x) v then behind value v xs else x ∷ xs

pub before-append-behind :
    (value : Ptr → ℕ) (v : ℕ) (xs : List Ptr) → before value v xs ++ behind value v xs ≡ xs
unfolding before behind
before-append-behind value v [] = refl
before-append-behind value v (x ∷ xs) = elim (Bool-cases (leb (value x) v)) [
  | inl e ↦ rw e (ap (λ t. x ∷ t) (before-append-behind value v xs))
  | inr e ↦ rw e
]

-- The loop stops at the last item that is not later, within one round more than there are items.
walk-last :
    {h : Items} (v : ℕ) (l : Ptr) (fuel : ℕ) (a : Ptr) (xs : List Ptr)
    → Links h.next h.prev a xs l
    → null ∉ l ∷ a ∷ xs
    → h.value l ≡ os_cfg_delay_max
    → v < os_cfg_delay_max
    → length xs < fuel
    → walk fuel a v h ≡ ok (last a (before h.value v xs)) h
unfolding walk read before
walk-last v l zero a xs k nn mark lt more = absurd (omega arith)
walk-last {h} v l (suc fuel) a [] k nn mark lt more =
    let ea : (a == null) ≡ false = ground arith in
    let el : (l == null) ≡ false = ground arith in
    let stop : leb (h.value l) v ≡ false = ground arith in rw (ea, k.0, el, stop)
walk-last {h} v l (suc fuel) a (x ∷ xs) k nn mark lt more =
    let ea : (a == null) ≡ false = ground arith in
    let ex : (x == null) ≡ false = ground arith in
    elim (Bool-cases (leb (h.value x) v)) [
      | inl e ↦
          rw (ea, k.0, ex, e) (walk-last v l fuel x xs k.2 (ground arith) mark lt (omega arith))
      | inr e ↦ rw (ea, k.0, ex, e)
    ]

before-all :
    (value : Ptr → ℕ) (v : ℕ) (xs : List Ptr)
    → ((p : Ptr) → p ∈ xs → value p ≤ v)
    → before value v xs ≡ xs
unfolding before
before-all value v [] le = refl
before-all value v (x ∷ xs) le =
    let e : leb (value x) v ≡ true = ground (arith, le x) in
    rw e (ap (λ t. x ∷ t) (before-all value v xs (λ p m. le p (ground arith))))

-- The end marker's back link leads to the last item.
prev_at-end : {h : Items} {l : Ptr} {xs : List Ptr} → IsList h l xs → h.prev l ≡ last l xs
prev_at-end {h} {l} {xs} is =
    prev_at h.next h.prev l xs [] l
      (subst (λ t. Links h.next h.prev l t l) (sym (append-nil xs)) is.links)

module _ {h : Items} {l p : Ptr} {xs : List Ptr} (is : IsList h l xs) (fits : Fits h l xs p) where
  -- Both ways of finding the place for `p` find the same.
  place : Ptr
  unfolding before
  place = last l (before h.value (h.value p) xs)

  find_place :
      (if h.value p == os_cfg_delay_max then get_prev l else walk (h.num l + 1) l (h.value p)) h
      ≡ ok place h
  unfolding place read
  find_place = elim (Bool-cases (h.value p == os_cfg_delay_max)) [
    | inl e ↦
        let el : (l == null) ≡ false = ground (arith, is.not_null) in
        let all : before h.value (h.value p) xs ≡ xs =
          before-all h.value (h.value p) xs λ q m. ground (arith, is.words q) in
        rw (e, el, all) (ap (λ q. ok q h) (prev_at-end is))
    | inr e ↦ rw e (
        walk-last (h.value p) l (h.num l + 1) l xs is.links (ground (arith, is.not_null)) is.mark
          (ground (arith, fits.word)) (omega (arith, is.count)))
  ]

-- Linking behind the last of `bs`, and counting, gives the list with `p` between `bs` and `cs`.
insert_behind :
    {h : Items} {l p : Ptr} (bs cs : List Ptr)
    → IsList h l (bs ++ cs)
    → bs ++ cs ≢ []
    → Fits h l (bs ++ cs) p
    → Returns
        (λ _. Inserted h l p (bs ++ cs) (bs ++ p ∷ cs) (h.curr l))
        ((link_after (last l bs) p >> (set_list p l >> count_up l)) h)
insert_behind {h} {l} {p} bs cs is some_item fits =
    let ne_l : l ≢ null = list_ne_null is in
    let at : h.next (last l bs) ≡ head_or cs l = next_at h.next h.prev l bs cs l is.links in
    let mi : last l bs ∈ l ∷ (bs ++ cs) = last-mem-append l bs cs in
    let mj : head_or cs l ∈ l ∷ (bs ++ cs) = head_or-mem-append bs cs l in
    let ne_i : last l bs ≢ null = ne_of_mem _ null (l ∷ (bs ++ cs)) mi is.not_null in
    let ne_j : head_or cs l ≢ null = ne_of_mem _ null (l ∷ (bs ++ cs)) mj is.not_null in
    let pi : last l bs ≢ p = ne_of_mem _ p (l ∷ (bs ++ cs)) mi fits.apart in
    let pj : head_or cs l ≢ p = ne_of_mem _ p (l ∷ (bs ++ cs)) mj fits.apart in
    bind
      (link_after-Linked ne_i fits.not_null (rw at ne_j) (λ e. pi (sym e))
        (rw at (λ e. pj (sym e))))
      λ _ h' (k, kept).
        mono (attach-Spliced ne_l fits.not_null k λ a _. ap (λ f. f a) kept) λ _ g (s, same).
          record {
            list =
                Spliced-IsList bs cs is s refl at fits.apart fits.not_null fits.word fits.room
                  (cursor-middle p bs cs is some_item (ap (λ f. f l) (same ∙ kept)));
            cursor = ap (λ f. f l) (same ∙ kept);
            outside = Spliced-SameOutside bs cs is s refl at fits.apart;
            contents = s.contents;
          }

-- Where `os_list_insert` puts an item.
abbrev pub placed : Items → Ptr → List Ptr → List Ptr
placed h p xs = before h.value (h.value p) xs ++ p ∷ behind h.value (h.value p) xs

-- `os_list_insert` of an item that is not NULL and not in the well-formed list terminates without a
-- fault, puts the item behind the items before the first greater value and in front of that one,
-- keeps the list well-formed, and changes nothing outside it. The count must fit 16 bits.
pub insert-placed :
    {h : Items} {l p : Ptr} (xs : List Ptr)
    → IsList h l xs
    → Fits h l xs p
    → Returns
        (λ _. Inserted h l p xs (placed h p xs) (first_cursor p (h.curr l) xs))
        (os_list_insert l p h)
unfolding os_list_insert read place
insert-placed {h} {l} {p} [] is fits =
    unfold before behind in
    let el : (l == null) ≡ false = ==_of_ne l null (list_ne_null is) in
    let empty : (h.num l == 0) ≡ true = ground (arith, is.count) in
    rw (el, empty) (insert_end-append [] is fits)
insert-placed {h} {l} {p} (x ∷ xs) is fits =
    let el : (l == null) ≡ false = ==_of_ne l null (list_ne_null is) in
    let ep : (p == null) ≡ false = ==_of_ne p null fits.not_null in
    let empty : (h.num l == 0) ≡ false = ground (arith, is.count) in
    rw (el, empty, ep, find_place is fits)
      (subst
        (λ t.
          Returns (λ _. Inserted h l p t (placed h p (x ∷ xs)) (h.curr l))
            ((link_after (last l (before h.value (h.value p) (x ∷ xs))) p
                >> (set_list p l >> count_up l))
              h))
        parts
        (insert_behind _ _ (subst (λ t. IsList h l t) (sym parts) is)
          (subst (λ t. t ≢ []) (sym parts) (λ e. cc)) (subst (λ t. Fits h l t p) (sym parts) fits)))
  where
    parts : before h.value (h.value p) (x ∷ xs) ++ behind h.value (h.value p) (x ∷ xs) ≡ x ∷ xs
    parts = before-append-behind h.value (h.value p) (x ∷ xs)

-- No value is later than the one behind it.
abbrev pub IsSorted : (Ptr → ℕ) → List Ptr → Type 0
IsSorted value [] = Unit
IsSorted value (x ∷ xs) = (value x ≤ value (head_or xs x)) × IsSorted value xs

pub placed-IsSorted :
    (value : Ptr → ℕ) (p : Ptr) (xs : List Ptr)
    → IsSorted value xs
    → IsSorted value (before value (value p) xs ++ p ∷ behind value (value p) xs)
unfolding before behind
placed-IsSorted value p [] s = omega arith
placed-IsSorted value p (x ∷ []) s = ground arith
placed-IsSorted value p (x ∷ y ∷ xs) s = ground (arith, placed-IsSorted value p (y ∷ xs) s.1)

pub IsSorted-same :
    (value value' : Ptr → ℕ) (xs : List Ptr)
    → ((a : Ptr) → value' a ≡ value a)
    → IsSorted value xs
    → IsSorted value' xs
IsSorted-same value value' [] same s = tt
IsSorted-same value value' (x ∷ xs) same s =
    (omega (arith, same x, same (head_or xs x), s.0), IsSorted-same value value' xs same s.1)

-- `os_list_insert` of an item that is not NULL and not in the list keeps a well-formed list sorted
-- by value well-formed and sorted. The count must fit 16 bits.
pub insert-IsSorted :
    {h : Items} {l p : Ptr} (xs : List Ptr)
    → IsList h l xs
    → Fits h l xs p
    → IsSorted h.value xs
    → Returns
        (λ _ h'. IsList h' l (placed h p xs) × IsSorted h'.value (placed h p xs))
        (os_list_insert l p h)
insert-IsSorted {h} {l} {p} xs is fits sorted = mono (insert-placed xs is fits) λ _ h' done. (
  done.list,
  IsSorted-same h.value h'.value (placed h p xs) (λ a. (done.contents a).0)
      (placed-IsSorted h.value p xs sorted),
)
