-- ===== src/OsList/Store.antt =====
-- A store that holds several lists at a time, and what a change of one of them leaves of the others.
use mathlib.Core.Path.{subst}
use ak_m_os_the_simple_rtos.Base.{
  ℕ, ◌+◌, ◌≤◌, ◌≡◌, refl, sym, ap, ◌∙◌, ◌≢◌, inl, inr, false, List, [], ◌∷◌, arith, ◌==◌, ==-refl,
  eq_of_==, ne_of_==, ==_of_ne, Bool-cases, has, ◌∈◌, ◌∉◌, Distinct, length, update,
}
use ak_m_os_the_simple_rtos.OsList.{Ptr, null, Items}
use ak_m_os_the_simple_rtos.OsList.Ring.{IsList, SameOutside, frame-IsList}

-- The items of the lists `hs`, all told.
abbrev pub population : List Ptr → (Ptr → List Ptr) → ℕ
population [] c = 0
population (l ∷ hs) c = length (c l) + population hs c

-- In the store `h` each list `l` of `hs` holds the items `c l`; there are `n` items in them.
pub record IsStore (h : Items) (hs : List Ptr) (c : Ptr → List Ptr) (n : ℕ) : Type 0 where
  pub lists : (l : Ptr) → l ∈ hs → IsList h l (c l)
  pub heads : (l k : Ptr) → l ∈ hs → k ∈ hs → l ∉ c k
  pub different : Distinct hs
  pub census : population hs c ≡ n

pub update_self : {A : Type 0} (c : ℕ → A) (l : ℕ) (v : A) → update c l v l ≡ v
update_self c l v = rw (==-refl l) refl

pub update_else : {A : Type 0} (c : ℕ → A) (l x : ℕ) (v : A) → x ≢ l → update c l v x ≡ c x
update_else c l x v ne = rw (==_of_ne x l ne) refl

pub not_in : (x y : ℕ) (xs : List ℕ) → x ∉ xs → y ∈ xs → x ≢ y
not_in x y xs out m e = cc

population-else :
    (hs : List Ptr) (c : Ptr → List Ptr) (l : Ptr) (v : List Ptr)
    → l ∉ hs
    → population hs (update c l v) ≡ population hs c
population-else [] c l v out = refl
population-else (k ∷ hs) c l v out =
    let ne : k ≢ l = ground arith in
    rw (update_else c l k v ne, population-else hs c l v (ground arith)) refl

-- The count follows the list that has changed.
pub population-update :
    (hs : List Ptr) (c : Ptr → List Ptr) (l : Ptr) (v : List Ptr)
    → Distinct hs
    → l ∈ hs
    → population hs (update c l v) + length (c l) ≡ population hs c + length v
population-update [] c l v d m = cc
population-update (k ∷ hs) c l v d m = elim (Bool-cases (l == k)) [
  | inl e ↦
      let same : l ≡ k = eq_of_== l k e in
      let out : l ∉ hs = subst (λ t. t ∉ hs) (sym same) d.0 in
      let at : update c l v k ≡ v = subst (λ t. update c l v t ≡ v) same (update_self c l v) in
      let size : length (c k) ≡ length (c l) = ap (λ t. length (c t)) (sym same) in
      rw (at, population-else hs c l v out) (omega (arith, size))
  | inr e ↦
      let ne : k ≢ l = λ q. ne_of_== l k e (sym q) in
      let later : l ∈ hs = ground (arith, e) in
      rw (update_else c l k v ne) (omega (arith, population-update hs c l v d.1 later))
]

pub length-le-population :
    (hs : List Ptr) (c : Ptr → List Ptr) (l : Ptr) → l ∈ hs → length (c l) ≤ population hs c
length-le-population [] c l m = cc
length-le-population (k ∷ hs) c l m = elim (Bool-cases (l == k)) [
  | inl e ↦
      let size : length (c k) ≡ length (c l) = ap (λ t. length (c t)) (sym (eq_of_== l k e)) in
      omega (arith, size)
  | inr e ↦ omega (arith, length-le-population hs c l (ground (arith, e)))
]

module _ {h : Items} {hs : List Ptr} {c : Ptr → List Ptr} {n : ℕ} (is : IsStore h hs c n) where
  -- An item is in one list only.
  pub one_list : (l k p : Ptr) → l ∈ hs → k ∈ hs → p ∈ c l → p ∈ c k → l ≡ k
  one_list l k p ml mk pl pk = sym ((is.lists l ml).inside p pl) ∙ (is.lists k mk).inside p pk

  -- An item that is in no list.
  pub loose : (k p : Ptr) → k ∈ hs → h.list p ≡ null → p ∉ c k
  loose k p mk e = elim (Bool-cases (has p (c k))) [
    | inl m ↦ absurd (
        not_in null k (k ∷ c k) (is.lists k mk).not_null (ground arith)
          (sym e ∙ (is.lists k mk).inside p m))
    | inr o ↦ o
  ]

  pub apart_lists : (l k a : Ptr) → l ∈ hs → k ∈ hs → k ≢ l → a ∈ k ∷ c k → a ∉ l ∷ c l
  apart_lists l k a ml mk ne m = elim (Bool-cases (has a (l ∷ c l))) [
    | inr o ↦ o
    | inl m' ↦ elim (Bool-cases (a == k)) [
      | inl e ↦
          let at : k ∈ l ∷ c l = subst (λ t. t ∈ l ∷ c l) (eq_of_== a k e) m' in
          absurd (ne (ground (arith, is.heads k l mk ml)))
      | inr e ↦
          let mc : a ∈ c k = ground (arith, e) in
          let nl : (a == l) ≡ false =
            ==_of_ne a l (λ q. not_in l a (c k) (is.heads l k ml mk) mc (sym q)) in
          let ml' : a ∈ c l = ground (arith, nl) in absurd (ne (one_list k l a mk ml mc ml'))
    ]
  ]

  -- Changing the list `l`, by an item `p` at most, leaves the other lists alone.
  pub replace-IsStore :
      {h' : Items} (l p : Ptr) (xs : List Ptr) (n' : ℕ)
      → l ∈ hs
      → SameOutside (p ∷ l ∷ c l) h h'
      → IsList h' l xs
      → p ∉ hs
      → ((k : Ptr) → k ∈ hs → k ≢ l → p ∉ c k)
      → ((x : Ptr) → x ∈ xs → x ∈ p ∷ c l)
      → n' + length (c l) ≡ n + length xs
      → IsStore h' hs (update c l xs) n'
  replace-IsStore {h'} l p xs n' ml same list out elsewhere from count = record {
    lists = λ k mk. elim (Bool-cases (k == l)) [
      | inl e ↦
          subst (λ t. IsList h' t (update c l xs t)) (sym (eq_of_== k l e))
            (subst (IsList h' l) (sym (update_self c l xs)) list)
      | inr e ↦
          let ne : k ≢ l = ne_of_== k l e in
          subst (IsList h' k) (sym (update_else c l k xs ne))
            (frame-IsList (λ a m. same a (far k a mk ne m)) (is.lists k mk))
    ];
    heads = λ a k ma mk. elim (Bool-cases (k == l)) [
      | inl e ↦
          subst (λ t. a ∉ update c l xs t) (sym (eq_of_== k l e))
            (subst (λ t. a ∉ t) (sym (update_self c l xs)) (head_out a ma))
      | inr e ↦
          subst (λ t. a ∉ t) (sym (update_else c l k xs (ne_of_== k l e))) (is.heads a k ma mk)
    ];
    different = is.different;
    census = omega (arith, population-update hs c l xs is.different ml, is.census, count);
  }
    where
      not_p : (k a : Ptr) → k ∈ hs → k ≢ l → a ∈ k ∷ c k → a ≢ p
      not_p k a mk ne m e =
          let at : p ∈ k ∷ c k = subst (λ t. t ∈ k ∷ c k) e m in
          let nk : (p == k) ≡ false = ==_of_ne p k (λ q. not_in p k hs out mk q) in
          not_in p p (c k) (elsewhere k mk ne) (ground (arith, nk)) refl

      far : (k a : Ptr) → k ∈ hs → k ≢ l → a ∈ k ∷ c k → a ∉ p ∷ l ∷ c l
      far k a mk ne m =
          let away : a ∉ l ∷ c l = apart_lists l k a ml mk ne m in
          let np : a ≢ p = λ e. not_p k a mk ne m e in ground (arith, ==_of_ne a p np, away)

      head_out : (a : Ptr) → a ∈ hs → a ∉ xs
      head_out a ma = elim (Bool-cases (has a xs)) [
        | inr o ↦ o
        | inl m ↦
            let at : a ∈ p ∷ c l = from a m in
            let np : (a == p) ≡ false = ==_of_ne a p (λ q. not_in p a hs out ma (sym q)) in
            absurd (not_in a a (c l) (is.heads a l ma ml) (ground (arith, np)) refl)
      ]
