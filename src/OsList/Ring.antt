-- ===== src/OsList/Ring.antt =====
-- The well-formed lists of the kernel: what an intrusive list stands for, and what survives a
-- change elsewhere in the store.
use ak_m_os_the_simple_rtos.Base.{
  ℕ, ◌+◌, ◌%◌, ◌^◌, ◌<◌, ◌≡◌, refl, ◌≢◌, ◌⊎◌, inl, inr, ◌||◌, List, [], ◌∷◌, ◌++◌, arith, ◌==◌,
  if◌then◌else◌, ◌-◌, has, ◌∈◌, ◌∉◌, Distinct, length, length-append,
}
use ak_m_os_the_simple_rtos.OsList.{Ptr, null, os_cfg_delay_max, Items}
use ak_m_os_the_simple_rtos.OsList.Links.{
  Links, last, head_or, splice, unsplice, last-mem-append, head_or-mem-append,
}
use ak_m_os_the_simple_rtos.OsList.Links

-- In the store `h` the list `l` holds the items `xs`, in order.
pub record IsList (h : Items) (l : Ptr) (xs : List Ptr) : Type 0 where
  pub links : Links h.next h.prev l xs l
  pub distinct : Distinct (l ∷ xs)
  pub not_null : null ∉ l ∷ xs
  pub count : h.num l ≡ length xs
  pub small : length xs < 2 ^ 16
  pub inside : (p : Ptr) → p ∈ xs → h.list p ≡ l
  pub words : (p : Ptr) → p ∈ xs → h.value p < 2 ^ 32
  pub mark : h.value l ≡ os_cfg_delay_max
  pub cursor : (xs ≡ []) ⊎ (h.curr l ∈ l ∷ xs)

-- Every field at the address `a` is as it was.
pub record SameAt (h h' : Items) (a : Ptr) : Type 0 where
  pub next : h'.next a ≡ h.next a
  pub prev : h'.prev a ≡ h.prev a
  pub value : h'.value a ≡ h.value a
  pub owner : h'.owner a ≡ h.owner a
  pub list : h'.list a ≡ h.list a
  pub curr : h'.curr a ≡ h.curr a
  pub num : h'.num a ≡ h.num a

-- At most the addresses of `xs` have changed.
abbrev pub SameOutside : List Ptr → Items → Items → Type 0
SameOutside xs h h' = (a : Ptr) → a ∉ xs → SameAt h h' a

-- No value and no owner has changed.
abbrev pub SameContents : Items → Items → Type 0
SameContents h h' = (a : Ptr) → (h'.value a ≡ h.value a) × (h'.owner a ≡ h.owner a)

pub frame-IsList :
    {h h' : Items} {l : Ptr} {xs : List Ptr}
    → ((a : Ptr) → a ∈ l ∷ xs → SameAt h h' a)
    → IsList h l xs
    → IsList h' l xs
frame-IsList {h} {h'} {l} {xs} same is = record {
  links =
      Links.frame h.next h.prev h'.next h'.prev l xs l (λ a m. (same a m).next)
        (λ a m. (same a m).prev) is.links;
  distinct = is.distinct;
  not_null = is.not_null;
  count = ground (arith, (same l here).num, is.count);
  small = is.small;
  inside = λ p m. ground (arith, (same p (later p m)).list, is.inside p);
  words = λ p m. ground (arith, (same p (later p m)).value, is.words p);
  mark = ground (arith, (same l here).value, is.mark);
  cursor = ground (arith, (same l here).curr, is.cursor);
}
  where
    here : l ∈ l ∷ xs
    here = ground arith

    later : (p : Ptr) → p ∈ xs → p ∈ l ∷ xs
    later p m = ground arith

-- The item `p` has been linked into the list `l` between `i` and `j`.
pub record Spliced (h h' : Items) (l p i j : Ptr) : Type 0 where
  pub next_i : h'.next i ≡ p
  pub next_p : h'.next p ≡ j
  pub prev_j : h'.prev j ≡ p
  pub prev_p : h'.prev p ≡ i
  pub next_else : (a : Ptr) → a ≢ i → a ≢ p → h'.next a ≡ h.next a
  pub prev_else : (a : Ptr) → a ≢ j → a ≢ p → h'.prev a ≡ h.prev a
  pub list_p : h'.list p ≡ l
  pub list_else : (a : Ptr) → a ≢ p → h'.list a ≡ h.list a
  pub num_l : h'.num l ≡ (h.num l + 1) % 2 ^ 16
  pub num_else : (a : Ptr) → a ≢ l → h'.num a ≡ h.num a
  pub curr_else : (a : Ptr) → a ≢ l → h'.curr a ≡ h.curr a
  pub contents : SameContents h h'

pub has-middle : (a p : ℕ) (xs ys : List ℕ) → has a (xs ++ p ∷ ys) ≡ ((a == p) || has a (xs ++ ys))
has-middle a p [] ys = refl
has-middle a p (x ∷ xs) ys = ground (arith, has-middle a p xs ys)

Distinct-middle :
    (p : ℕ) (xs ys : List ℕ) → p ∉ xs ++ ys → Distinct (xs ++ ys) → Distinct (xs ++ p ∷ ys)
Distinct-middle p [] ys out d = (out, d)
Distinct-middle p (x ∷ xs) ys out d =
    (ground (arith, has-middle x p xs ys), Distinct-middle p xs ys (ground arith) d.1)

pub length-middle : (p : ℕ) (xs ys : List ℕ) → length (xs ++ p ∷ ys) ≡ length (xs ++ ys) + 1
length-middle p xs ys = omega (arith, length-append xs (p ∷ ys), length-append xs ys)

module _ {h h' : Items} {l p i j : Ptr} (xs ys : List Ptr) (is : IsList h l (xs ++ ys))
    (s : Spliced h h' l p i j) (ei : i ≡ last l xs) (ej : j ≡ head_or ys l)
    (out : p ∉ l ∷ (xs ++ ys)) where
  pub Spliced-IsList :
      p ≢ null
      → h.value p < 2 ^ 32
      → length (xs ++ ys) + 1 < 2 ^ 16
      → h'.curr l ∈ l ∷ (xs ++ p ∷ ys)
      → IsList h' l (xs ++ p ∷ ys)
  Spliced-IsList ne word room cursor = record {
    links =
        splice h.next h.prev h'.next h'.prev l xs ys l p i j is.links ei ej (ground arith)
          is.distinct is.distinct s.next_i s.next_p s.prev_j s.prev_p s.next_else s.prev_else;
    distinct = (
      ground (arith, is.distinct, has-middle l p xs ys),
      Distinct-middle p xs ys (ground arith) is.distinct.1,
    );
    not_null = ground (arith, has-middle null p xs ys, is.not_null);
    count = omega (arith, s.num_l, is.count, length-middle p xs ys);
    small = omega (arith, length-middle p xs ys);
    inside = λ q m. ground (arith, has-middle q p xs ys, s.list_p, s.list_else q, is.inside q);
    words = λ q m. ground (arith, has-middle q p xs ys, s.contents q, is.words q);
    mark = ground (arith, s.contents l, is.mark);
    cursor = inr cursor;
  }

  pub Spliced-SameOutside : SameOutside (p ∷ l ∷ (xs ++ ys)) h h'
  Spliced-SameOutside a o = record {
    next = s.next_else a ai ap;
    prev = s.prev_else a aj ap;
    value = (s.contents a).0;
    owner = (s.contents a).1;
    list = s.list_else a ap;
    curr = s.curr_else a (ground arith);
    num = s.num_else a (ground arith);
  }
    where
      ap : a ≢ p
      ap = ground arith

      ai : a ≢ i
      ai = ground (arith, last-mem-append l xs ys)

      aj : a ≢ j
      aj = ground (arith, head_or-mem-append xs ys l)

-- A cursor that is kept still stands in the longer list.
pub cursor-middle :
    {h : Items} {l c : Ptr} (p : Ptr) (xs ys : List Ptr)
    → IsList h l (xs ++ ys)
    → xs ++ ys ≢ []
    → c ≡ h.curr l
    → c ∈ l ∷ (xs ++ p ∷ ys)
cursor-middle {h} {l} {c} p xs ys is ne e = elim is.cursor [
  | inl none ↦ absurd (ne none)
  | inr there ↦ ground (arith, has-middle c p xs ys)
]

-- The item `p` has been taken out of the list `l`, whose items `i` and `j` were its neighbours.
pub record Unspliced (h h' : Items) (l p i j : Ptr) : Type 0 where
  pub next_i : h'.next i ≡ j
  pub prev_j : h'.prev j ≡ i
  pub next_else : (a : Ptr) → a ≢ i → h'.next a ≡ h.next a
  pub prev_else : (a : Ptr) → a ≢ j → h'.prev a ≡ h.prev a
  pub list_p : h'.list p ≡ null
  pub list_else : (a : Ptr) → a ≢ p → h'.list a ≡ h.list a
  pub num_l : h'.num l ≡ (h.num l + 2 ^ 16 - 1) % 2 ^ 16
  pub num_else : (a : Ptr) → a ≢ l → h'.num a ≡ h.num a
  pub curr_l : h'.curr l ≡ (if h.curr l == p then i else h.curr l)
  pub curr_else : (a : Ptr) → a ≢ l → h'.curr a ≡ h.curr a
  pub contents : SameContents h h'

middle-ne-nil : (p : ℕ) (xs ys : List ℕ) → xs ++ p ∷ ys ≢ []
middle-ne-nil p [] ys = λ e. cc
middle-ne-nil p (x ∷ xs) ys = λ e. cc

Distinct-drop :
    (p : ℕ) (xs ys : List ℕ) → Distinct (xs ++ p ∷ ys) → (p ∉ xs ++ ys) × Distinct (xs ++ ys)
Distinct-drop p [] ys d = d
Distinct-drop p (x ∷ xs) ys d = ground (arith, Distinct-drop p xs ys d.1, has-middle x p xs ys)

pub out_of_rest :
    {h : Items} {l : Ptr} (p : Ptr) (xs ys : List Ptr)
    → IsList h l (xs ++ p ∷ ys)
    → p ∉ l ∷ (xs ++ ys)
out_of_rest {h} {l} p xs ys is =
    ground (arith, Distinct-drop p xs ys is.distinct.1, has-middle l p xs ys, is.distinct)

module _ {h h' : Items} {l p i j : Ptr} (xs ys : List Ptr) (is : IsList h l (xs ++ p ∷ ys))
    (s : Unspliced h h' l p i j) (ei : i ≡ last l xs) (ej : j ≡ head_or ys l) where
  Unspliced-cursor : h'.curr l ∈ l ∷ (xs ++ ys)
  Unspliced-cursor = elim is.cursor [
    | inl e ↦ absurd (middle-ne-nil p xs ys e)
    | inr c ↦ ground (arith, s.curr_l, has-middle (h.curr l) p xs ys, last-mem-append l xs ys)
  ]

  pub Unspliced-IsList : IsList h' l (xs ++ ys)
  Unspliced-IsList = record {
    links =
        unsplice h.next h.prev h'.next h'.prev l xs p ys l i j is.links ei ej is.distinct
          is.distinct s.next_i s.prev_j s.next_else s.prev_else;
    distinct = (
      ground (arith, is.distinct, has-middle l p xs ys),
      (Distinct-drop p xs ys is.distinct.1).1,
    );
    not_null = ground (arith, has-middle null p xs ys, is.not_null);
    count = omega (arith, s.num_l, is.count, is.small, length-middle p xs ys);
    small = omega (arith, is.small, length-middle p xs ys);
    inside = λ q m.
        ground (arith, has-middle q p xs ys, s.list_else q, is.inside q, out_of_rest p xs ys is);
    words = λ q m. ground (arith, has-middle q p xs ys, s.contents q, is.words q);
    mark = ground (arith, s.contents l, is.mark);
    cursor = inr Unspliced-cursor;
  }

  pub Unspliced-SameOutside : SameOutside (p ∷ l ∷ (xs ++ ys)) h h'
  Unspliced-SameOutside a o = record {
    next = s.next_else a (ground (arith, last-mem-append l xs ys));
    prev = s.prev_else a (ground (arith, head_or-mem-append xs ys l));
    value = (s.contents a).0;
    owner = (s.contents a).1;
    list = s.list_else a (ground arith);
    curr = s.curr_else a (ground arith);
    num = s.num_else a (ground arith);
  }
