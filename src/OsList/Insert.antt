-- ===== src/OsList/Insert.antt =====
-- `os_list_insert_end` on well-formed lists.
use mathlib.Core.Path.{subst}
use mathlib.Core.List.{append-nil}
use ak_m_os_the_simple_rtos.Base.{
  ◌+◌, ◌^◌, ◌<◌, ◌≡◌, refl, sym, ap, ◌∙◌, ◌≢◌, true, false, List, [], ◌∷◌, ◌++◌, arith, ◌==◌, ◌∈◌,
  ◌∉◌, length, Returns, bind, mono, ==_of_ne,
}
use ak_m_os_the_simple_rtos.OsList.{Ptr, null, Items, read, os_list_insert_end}
use ak_m_os_the_simple_rtos.OsList.Links.{last, prev_at, last-mem-append}
use ak_m_os_the_simple_rtos.OsList.Ring.{
  IsList, SameOutside, SameContents, cursor-middle, Spliced-IsList, Spliced-SameOutside,
}
use ak_m_os_the_simple_rtos.OsList.Attach.{link_first-Linked, link_last-Linked, attach-Spliced}

-- An item that may go into the list `l`, which holds `xs`.
pub record Fits (h : Items) (l : Ptr) (xs : List Ptr) (p : Ptr) : Type 0 where
  pub apart : p ∉ l ∷ xs
  pub not_null : p ≢ null
  pub word : h.value p < 2 ^ 32
  pub room : length xs + 1 < 2 ^ 16

-- The list `l` now holds `xs'` and its cursor stands at `c`. Nothing else has changed.
pub record Inserted (h : Items) (l p : Ptr) (xs xs' : List Ptr) (c : Ptr) (h' : Items)
    : Type 0 where
  pub list : IsList h' l xs'
  pub cursor : h'.curr l ≡ c
  pub outside : SameOutside (p ∷ l ∷ xs) h h'
  pub contents : SameContents h h'

-- The cursor of an empty list is set to the first item.
abbrev pub first_cursor : Ptr → Ptr → List Ptr → Ptr
first_cursor p c [] = p
first_cursor p c (x ∷ xs) = c

pub list_ne_null : {h : Items} {l : Ptr} {xs : List Ptr} → IsList h l xs → l ≢ null
list_ne_null is = ground (arith, is.not_null)

module _ {h : Items} {l p : Ptr} where
  insert_end-nil :
      IsList h l []
      → Fits h l [] p
      → Returns (λ _. Inserted h l p [] (p ∷ []) p) (os_list_insert_end l p h)
  unfolding os_list_insert_end read
  insert_end-nil is fits =
      let ne_l : l ≢ null = list_ne_null is in
      let ne : p ≢ l = ground (arith, fits.apart) in
      let empty : (h.num l == 0) ≡ true = ground (arith, is.count) in
      rw (==_of_ne l null ne_l, empty)
        (bind (link_first-Linked ne_l fits.not_null ne) λ _ h' (k, at, else_).
          mono (attach-Spliced ne_l fits.not_null k else_) λ _ g (s, same). record {
            list =
                Spliced-IsList [] [] is s refl refl fits.apart fits.not_null fits.word fits.room
                  (ground (arith, ap (λ f. f l) same));
            cursor = ap (λ f. f l) same ∙ at;
            outside = Spliced-SameOutside [] [] is s refl refl fits.apart;
            contents = s.contents;
          })

  insert_end-cons :
      (x : Ptr) (xs : List Ptr)
      → IsList h l ((x ∷ xs) ++ [])
      → Fits h l ((x ∷ xs) ++ []) p
      → Returns
          (λ _. Inserted h l p ((x ∷ xs) ++ []) ((x ∷ xs) ++ p ∷ []) (h.curr l))
          (os_list_insert_end l p h)
  unfolding os_list_insert_end read
  insert_end-cons x xs is fits =
      let ne_l : l ≢ null = list_ne_null is in
      let ne : p ≢ l = ground (arith, fits.apart) in
      let empty : (h.num l == 0) ≡ false = ground (arith, is.count) in
      let at : h.prev l ≡ last l (x ∷ xs) = prev_at h.next h.prev l (x ∷ xs) [] l is.links in
      let m : last x xs ∈ x ∷ (xs ++ []) = last-mem-append x xs [] in
      let ne_last : h.prev l ≢ null = ground (arith, is.not_null) in
      let apart : p ≢ h.prev l = ground (arith, fits.apart) in
      rw (==_of_ne l null ne_l, empty)
        (bind (link_last-Linked ne_l fits.not_null ne ne_last apart) λ _ h' (k, kept).
          mono (attach-Spliced ne_l fits.not_null k λ a _. ap (λ f. f a) kept) λ _ g (s, same).
            record {
              list =
                  Spliced-IsList (x ∷ xs) [] is s at refl fits.apart fits.not_null fits.word
                    fits.room
                    (cursor-middle p (x ∷ xs) [] is (λ e. cc) (ap (λ f. f l) (same ∙ kept)));
              cursor = ap (λ f. f l) (same ∙ kept);
              outside = Spliced-SameOutside (x ∷ xs) [] is s at refl fits.apart;
              contents = s.contents;
            })

-- `os_list_insert_end` puts an item that is not NULL and not in the well-formed list behind all
-- others, sets the cursor of an empty list to it, keeps the list well-formed, and changes nothing
-- outside it. The count must fit 16 bits.
pub insert_end-append :
    {h : Items} {l p : Ptr} (xs : List Ptr)
    → IsList h l xs
    → Fits h l xs p
    → Returns
        (λ _. Inserted h l p xs (xs ++ p ∷ []) (first_cursor p (h.curr l) xs))
        (os_list_insert_end l p h)
insert_end-append [] is fits = insert_end-nil is fits
insert_end-append {h} {l} {p} (x ∷ xs) is fits =
    let e : xs ++ [] ≡ xs = append-nil xs in
    subst
      (λ t.
        Returns (λ _. Inserted h l p (x ∷ t) (x ∷ (xs ++ p ∷ [])) (h.curr l))
          (os_list_insert_end l p h))
      e
      (insert_end-cons x xs (subst (λ t. IsList h l (x ∷ t)) (sym e) is)
        (subst (λ t. Fits h l (x ∷ t) p) (sym e) fits))
