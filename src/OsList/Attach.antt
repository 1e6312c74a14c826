-- ===== src/OsList/Attach.antt =====
-- What the link writes of `os_list_insert_end` and `os_list_insert` do to the store, and how the
-- writes behind them complete an insertion.
use ak_m_os_the_simple_rtos.Base.{
  ◌≡◌, refl, ◌≢◌, true, false, arith, ◌==◌, Returns, returns, ◌>>◌, ==_of_ne,
}
use ak_m_os_the_simple_rtos.OsList.{
  Ptr, null, Items, set_list, read, write, link_first, link_last, link_after, count_up,
}
use ak_m_os_the_simple_rtos.OsList.Ring.{SameContents, Spliced}

-- What linking `p` in behind `i` leaves, but for the count.
pub record Linked (h h' : Items) (p i j : Ptr) : Type 0 where
  pub next_i : h'.next i ≡ p
  pub next_p : h'.next p ≡ j
  pub prev_j : h'.prev j ≡ p
  pub prev_p : h'.prev p ≡ i
  pub next_else : (a : Ptr) → a ≢ i → a ≢ p → h'.next a ≡ h.next a
  pub prev_else : (a : Ptr) → a ≢ j → a ≢ p → h'.prev a ≡ h.prev a
  pub list : (a : Ptr) → h'.list a ≡ h.list a
  pub num : (a : Ptr) → h'.num a ≡ h.num a
  pub contents : SameContents h h'

module _ {h : Items} {l p : Ptr} (ne_l : l ≢ null) (ne_p : p ≢ null) (ne : p ≢ l) where
  pub link_last-Linked :
      h.prev l ≢ null
      → p ≢ h.prev l
      → Returns (λ _ h'. Linked h h' p (h.prev l) l × (h'.curr ≡ h.curr)) (link_last l p h)
  unfolding link_last read write
  link_last-Linked ne_last apart =
      let el : (l == null) ≡ false = ==_of_ne l null ne_l in
      let ep : (p == null) ≡ false = ==_of_ne p null ne_p in
      rw (el, ==_of_ne (h.prev l) null ne_last, ep, ep, el)
        (returns (
          record {
            next_i = ground arith;
            next_p = ground arith;
            prev_j = ground arith;
            prev_p = ground arith;
            next_else = λ a ai ap. ground arith;
            prev_else = λ a ai ap. ground arith;
            list = λ a. refl;
            num = λ a. refl;
            contents = λ a. (refl, refl);
          },
          refl,
        ))

  pub link_first-Linked :
      Returns
        (λ _ h'. Linked h h' p l l × (h'.curr l ≡ p) × ((a : Ptr) → a ≢ l → h'.curr a ≡ h.curr a))
        (link_first l p h)
  unfolding link_first read write
  link_first-Linked =
      let el : (l == null) ≡ false = ==_of_ne l null ne_l in
      let ep : (p == null) ≡ false = ==_of_ne p null ne_p in
      rw (ep, ep, el, el, el)
        (returns (
          record {
            next_i = ground arith;
            next_p = ground arith;
            prev_j = ground arith;
            prev_p = ground arith;
            next_else = λ a ai ap. ground arith;
            prev_else = λ a ai ap. ground arith;
            list = λ a. refl;
            num = λ a. refl;
            contents = λ a. (refl, refl);
          },
          ground arith,
          λ a al. ground arith,
        ))

pub link_after-Linked :
    {h : Items} {p it : Ptr}
    → it ≢ null
    → p ≢ null
    → h.next it ≢ null
    → p ≢ it
    → p ≢ h.next it
    → Returns (λ _ h'. Linked h h' p it (h.next it) × (h'.curr ≡ h.curr)) (link_after it p h)
unfolding link_after read write
link_after-Linked {h} {p} {it} ne_it ne_p ne_next apart apart' =
    let ei : (it == null) ≡ false = ==_of_ne it null ne_it in
    let ep : (p == null) ≡ false = ==_of_ne p null ne_p in
    let en : (h.next it == null) ≡ false = ==_of_ne (h.next it) null ne_next in
    let same : (p == p) ≡ true = ground arith in
    rw (ei, ep, same, ep, en, ep, ei)
      (returns (
        record {
          next_i = ground arith;
          next_p = ground arith;
          prev_j = ground arith;
          prev_p = ground arith;
          next_else = λ a ai ap. ground arith;
          prev_else = λ a ai ap. ground arith;
          list = λ a. refl;
          num = λ a. refl;
          contents = λ a. (refl, refl);
        },
        refl,
      ))

-- `p_list_item->list_ptr = p_list; (p_list->num_of_items)++;` completes an insertion.
pub attach-Spliced :
    {h h' : Items} {l p i j : Ptr}
    → l ≢ null
    → p ≢ null
    → Linked h h' p i j
    → ((a : Ptr) → a ≢ l → h'.curr a ≡ h.curr a)
    → Returns (λ _ g. Spliced h g l p i j × (g.curr ≡ h'.curr)) ((set_list p l >> count_up l) h')
unfolding count_up read write
attach-Spliced {h} {h'} {l} {p} {i} {j} ne_l ne_p k same =
    let el : (l == null) ≡ false = ==_of_ne l null ne_l in
    let ep : (p == null) ≡ false = ==_of_ne p null ne_p in
    rw (ep, el, el)
      (returns (
        record {
          next_i = k.next_i;
          next_p = k.next_p;
          prev_j = k.prev_j;
          prev_p = k.prev_p;
          next_else = k.next_else;
          prev_else = k.prev_else;
          list_p = ground arith;
          list_else = λ a ne. ground (arith, k.list a);
          num_l = ground (arith, k.num l);
          num_else = λ a ne. ground (arith, k.num a);
          curr_else = same;
          contents = k.contents;
        },
        refl,
      ))
