-- ===== src/OsList/Remove.antt =====
-- `os_list_remove` on a well-formed list.
use ak_m_os_the_simple_rtos.Base.{
  ℕ, ◌+◌, ◌-◌, ◌%◌, ◌^◌, ◌≡◌, refl, sym, ◌∙◌, inl, inr, Bool-cases, ◌≢◌, false, List, ◌∷◌, ◌++◌,
  arith, ◌==◌, update, ◌∈◌, ◌∉◌, length, Returns, returns, bind, mono, ==_of_ne, if◌then◌else◌,
}
use ak_m_os_the_simple_rtos.OsList.{
  Ptr, null, Items, read, write, unlink, step_back, detach, os_list_remove,
}
use ak_m_os_the_simple_rtos.OsList.Links.{
  ne_of_mem, last, head_or, next_of, prev_at, last-mem-append, head_or-mem-append,
}
use ak_m_os_the_simple_rtos.OsList.Ring.{
  IsList, SameOutside, SameContents, has-middle, Unspliced, Unspliced-IsList, Unspliced-SameOutside,
  out_of_rest,
}
use ak_m_os_the_simple_rtos.OsList.Insert.{list_ne_null}

-- `p`, which stood between `xs` and `ys`, is in no list now, and the list holds the others.
pub record Removed (h : Items) (l p : Ptr) (xs ys : List Ptr) (n : ℕ) (h' : Items) : Type 0 where
  pub list : IsList h' l (xs ++ ys)
  pub left : n ≡ length (xs ++ ys)
  pub alone : h'.list p ≡ null
  pub cursor : h'.curr l ≡ (if h.curr l == p then last l xs else h.curr l)
  pub outside : SameOutside (p ∷ l ∷ (xs ++ ys)) h h'
  pub contents : SameContents h h'

-- What the link writes of `os_list_remove` leave.
record Unlinked (h h' : Items) (i j : Ptr) : Type 0 where
  next_i : h'.next i ≡ j
  prev_j : h'.prev j ≡ i
  next_else : (a : Ptr) → a ≢ i → h'.next a ≡ h.next a
  prev_else : (a : Ptr) → a ≢ j → h'.prev a ≡ h.prev a
  list : (a : Ptr) → h'.list a ≡ h.list a
  num : (a : Ptr) → h'.num a ≡ h.num a
  curr : (a : Ptr) → h'.curr a ≡ h.curr a
  contents : SameContents h h'

unlink-Unlinked :
    {h : Items} (p i j : Ptr)
    → h.prev p ≡ i
    → h.next p ≡ j
    → p ≢ null
    → i ≢ null
    → j ≢ null
    → p ≢ j
    → Returns (λ _ h'. Unlinked h h' i j) (unlink p h)
unfolding unlink read write
unlink-Unlinked {h} p i j pv nx ne_p ne_i ne_j apart =
    let ep : (p == null) ≡ false = ==_of_ne p null ne_p in
    let pj : (p == j) ≡ false = ==_of_ne p j apart in
    rw (ep, nx, ep, pv, ==_of_ne j null ne_j, ep, pj, pv, ep, nx, ==_of_ne i null ne_i)
      (returns (record {
        next_i = ground arith;
        prev_j = ground arith;
        next_else = λ a ne. ground arith;
        prev_else = λ a ne. ground arith;
        list = λ a. refl;
        num = λ a. refl;
        curr = λ a. refl;
        contents = λ a. (refl, refl);
      }))

-- The cursor's step back changes the cursor of `l` alone.
record Stepped (h h' : Items) (l c : Ptr) : Type 0 where
  next : (a : Ptr) → h'.next a ≡ h.next a
  prev : (a : Ptr) → h'.prev a ≡ h.prev a
  list : (a : Ptr) → h'.list a ≡ h.list a
  num : (a : Ptr) → h'.num a ≡ h.num a
  curr_l : h'.curr l ≡ c
  curr_else : (a : Ptr) → a ≢ l → h'.curr a ≡ h.curr a
  contents : SameContents h h'

step_back-Stepped :
    {h : Items} (l p i : Ptr)
    → h.prev p ≡ i
    → l ≢ null
    → p ≢ null
    → Returns (λ _ h'. Stepped h h' l (if h.curr l == p then i else h.curr l)) (step_back l p h)
unfolding step_back read write
step_back-Stepped {h} l p i pv ne_l ne_p =
    let ep : (p == null) ≡ false = ==_of_ne p null ne_p in
    let el : (l == null) ≡ false = ==_of_ne l null ne_l in
    elim (Bool-cases (h.curr l == p)) [
      | inl e ↦
          rw (el, e, ep, pv, el)
            (returns (record {
              next = λ a. refl;
              prev = λ a. refl;
              list = λ a. refl;
              num = λ a. refl;
              curr_l = ground arith;
              curr_else = λ a ne. ground arith;
              contents = λ a. (refl, refl);
            }))
      | inr e ↦
          rw (el, e)
            (returns (record {
              next = λ a. refl;
              prev = λ a. refl;
              list = λ a. refl;
              num = λ a. refl;
              curr_l = refl;
              curr_else = λ a ne. refl;
              contents = λ a. (refl, refl);
            }))
    ]

-- The writes behind them: the item forgets its list, and the count falls.
detach-Unspliced :
    {h h' h'' : Items} (l p i j : Ptr)
    → l ≢ null
    → p ≢ null
    → Unlinked h h' i j
    → Stepped h' h'' l (if h'.curr l == p then i else h'.curr l)
    → Returns (λ n g. Unspliced h g l p i j × (n ≡ g.num l)) (detach l p h'')
unfolding detach read write
detach-Unspliced {h} {h'} {h''} l p i j ne_l ne_p u s =
    let ep : (p == null) ≡ false = ==_of_ne p null ne_p in
    let el : (l == null) ≡ false = ==_of_ne l null ne_l in
    rw (ep, el, el, el)
      (returns
        {s = record h'' {
          list = update h''.list p null;
          num = update h''.num l ((h''.num l + 2 ^ 16 - 1) % 2 ^ 16);
        }}
        (
          record {
            next_i = s.next i ∙ u.next_i;
            prev_j = s.prev j ∙ u.prev_j;
            next_else = λ a ne. s.next a ∙ u.next_else a ne;
            prev_else = λ a ne. s.prev a ∙ u.prev_else a ne;
            list_p = ground arith;
            list_else = λ a ne. ground (arith, s.list a, u.list a);
            num_l = ground (arith, s.num l, u.num l);
            num_else = λ a ne. ground (arith, s.num a, u.num a);
            curr_l = ground (arith, s.curr_l, u.curr l);
            curr_else = λ a ne. ground (arith, s.curr_else a, u.curr a);
            contents =
                λ a. (((s.contents a).0 ∙ (u.contents a).0), ((s.contents a).1 ∙ (u.contents a).1));
          },
          refl,
        ))

module _ {h : Items} {l p : Ptr} (xs ys : List Ptr) (is : IsList h l (xs ++ p ∷ ys)) where
  -- `os_list_remove` takes an item out of the well-formed list that holds it, keeps the list
  -- well-formed, steps a cursor at the item back to the item before it (or to the end marker), and
  -- returns how many are left. It changes nothing outside the list.
  pub remove-Removed : Returns (Removed h l p xs ys) (os_list_remove p h)
  unfolding os_list_remove read
  remove-Removed =
      let home : h.list p ≡ l = is.inside p (ground (arith, has-middle p p xs ys)) in
      let nx : h.next p ≡ head_or ys l = next_of h.next h.prev l xs p ys l is.links in
      let pv : h.prev p ≡ last l xs = prev_at h.next h.prev l xs (p ∷ ys) l is.links in
      let ne_l : l ≢ null = list_ne_null is in
      let ne_p : p ≢ null = ground (arith, is.not_null, has-middle null p xs ys) in
      let rest : null ∉ l ∷ (xs ++ ys) = ground (arith, is.not_null, has-middle null p xs ys) in
      let mi : last l xs ∈ l ∷ (xs ++ ys) = last-mem-append l xs ys in
      let mj : head_or ys l ∈ l ∷ (xs ++ ys) = head_or-mem-append xs ys l in
      let ne_i : last l xs ≢ null = ne_of_mem _ null (l ∷ (xs ++ ys)) mi rest in
      let ne_j : head_or ys l ≢ null = ne_of_mem _ null (l ∷ (xs ++ ys)) mj rest in
      let jp : head_or ys l ≢ p = ne_of_mem _ p (l ∷ (xs ++ ys)) mj (out_of_rest p xs ys is) in
      rw (==_of_ne p null ne_p, home)
        (bind (unlink-Unlinked p (last l xs) (head_or ys l) pv nx ne_p ne_i ne_j (λ e. jp (sym e)))
          λ _ h' u.
            bind
              (step_back-Stepped l p (last l xs) (u.prev_else p (λ e. jp (sym e)) ∙ pv) ne_l ne_p)
              λ _ h'' s.
                mono (detach-Unspliced l p (last l xs) (head_or ys l) ne_l ne_p u s)
                  λ n g (done, count). record {
                    list = Unspliced-IsList xs ys is done refl refl;
                    left = count ∙ (Unspliced-IsList xs ys is done refl refl).count;
                    alone = done.list_p;
                    cursor = done.curr_l;
                    outside = Unspliced-SameOutside xs ys is done refl refl;
                    contents = done.contents;
                  })
