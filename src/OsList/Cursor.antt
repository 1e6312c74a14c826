-- ===== src/OsList/Cursor.antt =====
-- A turn of a list's cursor, wherever it stands, in a store that holds several lists.
use mathlib.Core.Path.{subst}
use mathlib.Core.List.{append-nil}
use ak_m_os_the_simple_rtos.Base.{
  ℕ, ◌≡◌, refl, sym, ap, ◌∙◌, ◌≢◌, inl, inr, List, [], ◌∷◌, ◌++◌, arith, ◌==◌, eq_of_==, ne_of_==,
  Bool-cases, ◌∈◌, Returns, returns,
}
use ak_m_os_the_simple_rtos.OsList.{Ptr, Items, list_get_owner_of_next_item}
use ak_m_os_the_simple_rtos.OsList.Links.{last}
use ak_m_os_the_simple_rtos.OsList.Ring.{IsList, SameAt, frame-IsList, has-middle}
use ak_m_os_the_simple_rtos.OsList.Turn.{
  at_cursor, at_cursor-IsList, next_item-inner, next_item-wrap,
}
use ak_m_os_the_simple_rtos.OsList.Store.{IsStore, not_in, update_else}

-- A list up to where the cursor is, and behind it.
record IsCut (c l : Ptr) (xs : List Ptr) : Type 0 where
  pub front : List Ptr
  pub back : List Ptr
  pub whole : front ++ back ≡ xs
  pub place : c ≡ last l front

IsCut-at : (c l : Ptr) (xs : List Ptr) → c ∈ l ∷ xs → IsCut c l xs
IsCut-at c l [] m = record { front = []; back = []; whole = refl; place = ground (arith, m) }
IsCut-at c l (x ∷ xs) m = elim (Bool-cases (c == l)) [
  | inl e ↦ record { front = []; back = x ∷ xs; whole = refl; place = eq_of_== c l e }
  | inr e ↦
      let rest : IsCut c x xs = IsCut-at c x xs (ground (arith, m, e)) in
      record {
        front = x ∷ rest.front;
        back = rest.back;
        whole = ap (λ t. x ∷ t) rest.whole;
        place = rest.place;
      }
]

-- The cursor goes to an item of the list, whose owner is the result.
pub record NextTurn (h : Items) (l : Ptr) (xs : List Ptr) (o : Ptr) (h' : Items) : Type 0 where
  pub item : Ptr
  pub inside : item ∈ xs
  pub owner : o ≡ h.owner item
  pub store : h' ≡ at_cursor h l item

pub next_item-NextTurn :
    {h : Items} {l : Ptr} (x : Ptr) (xs : List Ptr)
    → IsList h l (x ∷ xs)
    → h.curr l ∈ l ∷ x ∷ xs
    → Returns (NextTurn h l (x ∷ xs)) (list_get_owner_of_next_item l h)
next_item-NextTurn {h} {l} x xs is m =
    go (IsCut-at (h.curr l) l (x ∷ xs) m).front (IsCut-at (h.curr l) l (x ∷ xs) m).back
      (IsCut-at (h.curr l) l (x ∷ xs) m).whole (IsCut-at (h.curr l) l (x ∷ xs) m).place
  where
    go :
        (front back : List Ptr)
        → front ++ back ≡ x ∷ xs
        → h.curr l ≡ last l front
        → Returns (NextTurn h l (x ∷ xs)) (list_get_owner_of_next_item l h)
    go front (q ∷ back) whole place =
        rw (next_item-inner front q back (subst (IsList h l) (sym whole) is) place) (
          returns (record {
            item = q;
            inside = subst (λ t. q ∈ t) whole (ground (arith, has-middle q q front back));
            owner = refl;
            store = refl;
          }))
    go front [] whole place =
        let all : front ≡ x ∷ xs = sym (append-nil front) ∙ whole in
        rw (next_item-wrap x xs is (place ∙ ap (last l) all))
          (returns (record { item = x; inside = ground arith; owner = refl; store = refl }))

-- The other lists do not notice.
pub at_cursor-IsStore :
    {h : Items} {hs : List Ptr} {c : Ptr → List Ptr} {n : ℕ} (l q : Ptr)
    → l ∈ hs
    → q ∈ c l
    → IsStore h hs c n
    → IsStore (at_cursor h l q) hs c n
at_cursor-IsStore {h} {hs} {c} l q ml mq is = record {
  lists = λ k mk. elim (Bool-cases (k == l)) [
    | inl e ↦
        subst (λ t. IsList (at_cursor h l q) t (c t)) (sym (eq_of_== k l e))
          (at_cursor-IsList q (ground (arith, mq)) (is.lists l ml))
    | inr e ↦ frame-IsList (λ a m. same a (apart k a mk (ne_of_== k l e) m)) (is.lists k mk)
  ];
  heads = is.heads;
  different = is.different;
  census = is.census;
}
  where
    same : (a : Ptr) → a ≢ l → SameAt h (at_cursor h l q) a
    same a ne = record {
      next = refl;
      prev = refl;
      value = refl;
      owner = refl;
      list = refl;
      curr = update_else h.curr l a q ne;
      num = refl;
    }

    apart : (k a : Ptr) → k ∈ hs → k ≢ l → a ∈ k ∷ c k → a ≢ l
    apart k a mk ne m e = elim (Bool-cases (a == k)) [
      | inl f ↦ ne (sym (eq_of_== a k f) ∙ e)
      | inr f ↦ not_in l a (c k) (is.heads l k ml mk) (ground (arith, m, f)) (sym e)
    ]
