-- ===== src/OsList/Move.antt =====
-- What the list functions do to a store that holds several lists.
use mathlib.Core.Path.{subst}
use ak_m_os_the_simple_rtos.Base.{
  ℕ, suc, ◌+◌, ◌^◌, ◌<◌, ◌≡◌, refl, ap, ◌∙◌, ◌≢◌, inl, inr, ◌||◌, List, [], ◌∷◌, ◌++◌, arith, ◌==◌,
  ==_of_ne, Bool-cases, has, has-append, ◌∈◌, ◌∉◌, length, length-append, update, Returns, mono,
}
use ak_m_os_the_simple_rtos.OsList.{
  Ptr, null, Items, os_list_insert, os_list_insert_end, os_list_remove,
}
use ak_m_os_the_simple_rtos.OsList.Ring.{
  IsList, SameOutside, SameContents, has-middle, length-middle,
}
use ak_m_os_the_simple_rtos.OsList.Insert.{Fits, Inserted, insert_end-append, first_cursor}
use ak_m_os_the_simple_rtos.OsList.Sorted.{
  before, behind, before-append-behind, placed, insert-placed,
}
use ak_m_os_the_simple_rtos.OsList.Remove.{remove-Removed}
use ak_m_os_the_simple_rtos.OsList.Store.{
  IsStore, length-le-population, loose, replace-IsStore, not_in, one_list,
}

-- An item that is in no list, and can go into any.
pub record IsLoose (h : Items) (hs : List Ptr) (p : Ptr) : Type 0 where
  pub not_null : p ≢ null
  pub out : p ∉ hs
  pub free : h.list p ≡ null
  pub word : h.value p < 2 ^ 32

pub placed-has :
    (h : Items) (p x : Ptr) (xs : List Ptr) → has x (placed h p xs) ≡ ((x == p) || has x xs)
placed-has h p x xs =
    has-middle x p (before h.value (h.value p) xs) (behind h.value (h.value p) xs)
    ∙ ap (λ t. (x == p) || has x t) (before-append-behind h.value (h.value p) xs)

-- The list `l` now holds `xs`, and no value and no owner has changed. Outside of the list and of the item `p`, nothing has.
pub record Moved (hs : List Ptr) (c : Ptr → List Ptr) (l p : Ptr) (xs : List Ptr) (n : ℕ)
    (h h' : Items) : Type 0 where
  pub store : IsStore h' hs (update c l xs) n
  pub outside : SameOutside (p ∷ l ∷ c l) h h'
  pub contents : SameContents h h'

module _ {h : Items} {hs : List Ptr} {c : Ptr → List Ptr} {n : ℕ} (is : IsStore h hs c n)
    (l p : Ptr) (ml : l ∈ hs) where
  loose-Fits : IsLoose h hs p → n + 1 < 2 ^ 16 → Fits h l (c l) p
  loose-Fits free room = record {
    apart =
        ground (arith, loose is l p ml free.free, ==_of_ne p l (λ e. not_in p l hs free.out ml e));
    not_null = free.not_null;
    word = free.word;
    room = omega (arith, length-le-population hs c l ml, is.census);
  }

  Inserted-Moved :
      {h' : Items} (xs : List Ptr) (cur : Ptr)
      → IsLoose h hs p
      → Inserted h l p (c l) xs cur h'
      → length xs ≡ length (c l) + 1
      → ((x : Ptr) → x ∈ xs → x ∈ p ∷ c l)
      → Moved hs c l p xs (n + 1) h h'
  Inserted-Moved xs cur free done len from = record {
    store =
        replace-IsStore is l p xs (n + 1) ml done.outside done.list free.out
          (λ k mk ne. loose is k p mk free.free) from (omega (arith, len));
    outside = done.outside;
    contents = done.contents;
  }

  pub insert_end-Moved :
      IsLoose h hs p
      → n + 1 < 2 ^ 16
      → Returns (λ _. Moved hs c l p (c l ++ p ∷ []) (n + 1) h) (os_list_insert_end l p h)
  insert_end-Moved free room =
      mono (insert_end-append (c l) (is.lists l ml) (loose-Fits free room)) (λ _ h' done.
        Inserted-Moved (c l ++ p ∷ []) (first_cursor p (h.curr l) (c l)) free done
          (length-append (c l) (p ∷ [])) (λ x m. ground (arith, has-append x (c l) (p ∷ []))))

  pub insert-Moved :
      IsLoose h hs p
      → n + 1 < 2 ^ 16
      → Returns (λ _. Moved hs c l p (placed h p (c l)) (n + 1) h) (os_list_insert l p h)
  insert-Moved free room =
      mono (insert-placed (c l) (is.lists l ml) (loose-Fits free room)) (λ _ h' done.
        Inserted-Moved (placed h p (c l)) (first_cursor p (h.curr l) (c l)) free done
          (length-middle p (before h.value (h.value p) (c l)) (behind h.value (h.value p) (c l))
            ∙ ap (λ t. length t + 1) (before-append-behind h.value (h.value p) (c l)))
          (λ x m. ground (arith, placed-has h p x (c l))))

  pub remove-Moved :
      (xs ys : List Ptr) (n' : ℕ)
      → c l ≡ xs ++ p ∷ ys
      → n ≡ suc n'
      → Returns
          (λ left h'.
            (left ≡ length (xs ++ ys)) × (h'.list p ≡ null) × Moved hs c l p (xs ++ ys) n' h h')
          (os_list_remove p h)
  remove-Moved xs ys n' e en =
      mono (remove-Removed xs ys (subst (IsList h l) e (is.lists l ml))) (λ left h' done. (
        done.left,
        done.alone,
        record {
          store =
              replace-IsStore is l p (xs ++ ys) n' ml (wider done.outside) done.list away elsewhere
                (λ x m. ground (arith, members x))
                (omega (arith, en, ap (λ t. length t) e, length-middle p xs ys));
          outside = wider done.outside;
          contents = done.contents;
        },
      ))
    where
      members : (x : Ptr) → has x (c l) ≡ ((x == p) || has x (xs ++ ys))
      members x = ap (λ t. has x t) e ∙ has-middle x p xs ys

      here : p ∈ c l
      here = ground (arith, members p)

      wider : {h' : Items} → SameOutside (p ∷ l ∷ (xs ++ ys)) h h' → SameOutside (p ∷ l ∷ c l) h h'
      wider same a o = same a (ground (arith, members a))

      away : p ∉ hs
      away = elim (Bool-cases (has p hs)) [
        | inr o ↦ o
        | inl m ↦ absurd (not_in p p (c l) (is.heads p l m ml) here refl)
      ]

      elsewhere : (k : Ptr) → k ∈ hs → k ≢ l → p ∉ c k
      elsewhere k mk ne = elim (Bool-cases (has p (c k))) [
        | inr o ↦ o
        | inl m ↦ absurd (ne (one_list is k l p mk ml m here))
      ]
