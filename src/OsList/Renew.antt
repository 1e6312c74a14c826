-- ===== src/OsList/Renew.antt =====
-- `os_list_init`, and a removal followed by a turn.
use ak_m_os_the_simple_rtos.Base.{
  ◌≡◌, refl, ◌∙◌, ◌≢◌, inl, false, List, [], ◌∷◌, ◌++◌, arith, ◌==◌, ==-refl, ◌>>=◌, Returns,
  returns, bind, ==_of_ne,
}
use ak_m_os_the_simple_rtos.OsList.{
  Ptr, null, Items, read, write, os_list_init, os_list_remove, list_get_owner_of_next_item,
}
use ak_m_os_the_simple_rtos.OsList.Ring.{IsList, SameOutside}
use ak_m_os_the_simple_rtos.OsList.Remove.{remove-Removed}
use ak_m_os_the_simple_rtos.OsList.Turn.{next_item-inner}

-- `os_list_init` leaves an empty well-formed list at an address that is not NULL, whatever the
-- memory held, and changes nothing else.
pub init-IsList :
    (h : Items) (l : Ptr)
    → l ≢ null
    → Returns (λ _ h'. IsList h' l [] × SameOutside (l ∷ []) h h') (os_list_init l h)
unfolding os_list_init read write
init-IsList h l ne =
    let el : (l == null) ≡ false = ==_of_ne l null ne in
    rw (el, el, el, el)
      (returns (
        record {
          links = ground arith;
          distinct = ground arith;
          not_null = ground arith;
          count = ground arith;
          small = omega arith;
          inside = λ p m. cc;
          words = λ p m. cc;
          mark = ground arith;
          cursor = inl refl;
        },
        λ a o. record {
          next = ground arith;
          prev = ground arith;
          value = ground arith;
          owner = refl;
          list = refl;
          curr = refl;
          num = ground arith;
        },
      ))

-- When the item that had the last turn is removed from a well-formed list and another one follows
-- it, the next turn is that of the item behind it.
pub next_item-remove :
    {h : Items} {l : Ptr} (xs : List Ptr) (p q : Ptr) (ys : List Ptr)
    → IsList h l (xs ++ p ∷ q ∷ ys)
    → h.curr l ≡ p
    → Returns (λ o _. o ≡ h.owner q) ((os_list_remove p >>= λ _. list_get_owner_of_next_item l) h)
next_item-remove {h} {l} xs p q ys is e = bind (remove-Removed xs (q ∷ ys) is) λ n h' r.
    rw (next_item-inner xs q ys r.list (r.cursor ∙ rw (e, ==-refl p) refl))
      (returns (r.contents q).1)
