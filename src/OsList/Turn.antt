-- ===== src/OsList/Turn.antt =====
-- `list_get_owner_of_next_item` gives the items of a list their turns, round and round.
use mathlib.Core.Path.{subst, fun_ext}
use mathlib.Core.List.{append-nil, append_assoc, map-append}
use Prim.Native.Nat.add
use native.Mathlib.Nat.{suc-add}
use ak_m_os_the_simple_rtos.Base.{
  ◌+◌, Run, fault, hang, and_then, and_then-ok, and_then_assoc, ℕ, zero, suc, ◌≡◌, refl, sym, ap,
  ◌∙◌, inr, false, List, [], ◌∷◌, ◌++◌, map, arith, ◌==◌, ◌∈◌, length, Cmd, pure, ◌>>=◌, Returns,
  returns, bind, ok, ==_of_ne, ==-refl, update,
}
use ak_m_os_the_simple_rtos.OsList.{Ptr, null, Items, read, write, list_get_owner_of_next_item}
use ak_m_os_the_simple_rtos.OsList.Links.{
  Links, ne_of_mem, last, next_at, last-mem, last-mem-append,
}
use ak_m_os_the_simple_rtos.OsList.Ring.{IsList, has-middle}
use ak_m_os_the_simple_rtos.OsList.Insert.{list_ne_null}

-- The store with the cursor of `l` at `q`.
abbrev pub at_cursor : Items → Ptr → Ptr → Items
at_cursor h l q = record h { curr = update h.curr l q }

curr-at_cursor : (h : Items) (l q : Ptr) → (at_cursor h l q).curr l ≡ q
curr-at_cursor h l q = ground arith

update-update : (f : Ptr → Ptr) (l a b : Ptr) → update (update f l a) l b ≡ update f l b
update-update f l a b = fun_ext λ x. ground arith

pub at_cursor-IsList :
    {h : Items} {l : Ptr} {xs : List Ptr} (q : Ptr)
    → q ∈ l ∷ xs
    → IsList h l xs
    → IsList (at_cursor h l q) l xs
at_cursor-IsList {h} {l} {xs} q m is = record {
  links = is.links;
  distinct = is.distinct;
  not_null = is.not_null;
  count = is.count;
  small = is.small;
  inside = is.inside;
  words = is.words;
  mark = is.mark;
  cursor = inr (subst (λ t. t ∈ l ∷ xs) (sym (curr-at_cursor h l q)) m);
}

module _ {h : Items} {l : Ptr} where
  -- From an item, or from the end marker, the cursor moves on to the next item.
  pub next_item-inner :
      (xs : List Ptr) (q : Ptr) (ys : List Ptr)
      → IsList h l (xs ++ q ∷ ys)
      → h.curr l ≡ last l xs
      → list_get_owner_of_next_item l h ≡ ok (h.owner q) (at_cursor h l q)
  unfolding list_get_owner_of_next_item read write
  next_item-inner xs q ys is e =
      let el : (l == null) ≡ false = ==_of_ne l null (list_ne_null is) in
      let mi : last l xs ∈ l ∷ (xs ++ q ∷ ys) = last-mem-append l xs (q ∷ ys) in
      let ec : (last l xs == null) ≡ false =
        ==_of_ne _ null (ne_of_mem _ null (l ∷ (xs ++ q ∷ ys)) mi is.not_null) in
      let nx : h.next (last l xs) ≡ q = next_at h.next h.prev l xs (q ∷ ys) l is.links in
      let eq : (q == null) ≡ false = ground (arith, is.not_null, has-middle null q xs ys) in
      let ql : (q == l) ≡ false = ground (arith, is.distinct, has-middle l q xs ys) in
      rw (el, e, ec, nx, el, el, ==-refl l, ql, el, ==-refl l, eq)

  -- From the last item the cursor passes the end marker and goes back to the first.
  pub next_item-wrap :
      (q : Ptr) (ys : List Ptr)
      → IsList h l (q ∷ ys)
      → h.curr l ≡ last q ys
      → list_get_owner_of_next_item l h ≡ ok (h.owner q) (at_cursor h l q)
  unfolding list_get_owner_of_next_item read write
  next_item-wrap q ys is e =
      let el : (l == null) ≡ false = ==_of_ne l null (list_ne_null is) in
      let ec : (last q ys == null) ≡ false =
        ==_of_ne _ null (ne_of_mem _ null (q ∷ ys) (last-mem q ys) (ground (arith, is.not_null))) in
      let nx : h.next (last q ys) ≡ l =
        next_at h.next h.prev l (q ∷ ys) [] l
          (subst (λ t. Links h.next h.prev l (q ∷ t) l) (sym (append-nil ys)) is.links) in
      let eq : (q == null) ≡ false = ground (arith, is.not_null) in
      rw (el, e, ec, nx, el, el, ==-refl l, ==-refl l, el, is.links.0, el, el, ==-refl l, eq)
        (ap (λ f. ok (h.owner q) (record h { curr = f })) (update-update h.curr l l q))

-- The owners that `n` calls return, one after the other.
unfoldable pub turns : ℕ → Ptr → Cmd Items (List Ptr)
turns zero l = pure []
turns (suc n) l = do o ← list_get_owner_of_next_item l; os ← turns n l; pure (o ∷ os)

-- The items `ys` have had their turns, the cursor is at `c`, and the list is as it was.
abbrev pub Turned : Items → Ptr → List Ptr → List Ptr → Ptr → List Ptr → Items → Type 0
Turned h l zs ys c os h' =
    (os ≡ map h.owner ys) × IsList h' l zs × (h'.curr l ≡ c) × (h'.owner ≡ h.owner)

last-append-cons : (a : ℕ) (xs : List ℕ) (q : ℕ) → last a (xs ++ q ∷ []) ≡ q
last-append-cons a [] q = refl
last-append-cons a (x ∷ xs) q = last-append-cons x xs q

-- From behind `xs`, `length ys` calls give the items `ys` behind it their turns.
turns-stretch :
    (ys xs rest zs : List Ptr) {h : Items} {l : Ptr}
    → xs ++ (ys ++ rest) ≡ zs
    → IsList h l zs
    → h.curr l ≡ last l xs
    → Returns (Turned h l zs ys (last l (xs ++ ys))) (turns (length ys) l h)
unfolding turns
turns-stretch [] xs rest zs {l} split is e =
    returns (refl, is, e ∙ ap (last l) (sym (append-nil xs)), refl)
turns-stretch (q ∷ ys) xs rest zs {h} {l} split is e =
    let is' : IsList h l (xs ++ q ∷ (ys ++ rest)) = subst (λ t. IsList h l t) (sym split) is in
    let m : q ∈ l ∷ zs =
      subst (λ t. q ∈ l ∷ t) split (ground (arith, has-middle q q xs (ys ++ rest))) in
    let at : (at_cursor h l q).curr l ≡ last l (xs ++ q ∷ []) =
      curr-at_cursor h l q ∙ sym (last-append-cons l xs q) in
    rw (next_item-inner xs q (ys ++ rest) is' e) (
      bind
        (turns-stretch ys (xs ++ q ∷ []) rest zs (append_assoc xs (q ∷ []) (ys ++ rest) ∙ split)
          (at_cursor-IsList q m is) at)
        λ os h' (took, list, cur, own). returns (
          ap (λ t. h.owner q ∷ t) took,
          list,
          cur ∙ ap (last l) (append_assoc xs (q ∷ []) ys),
          own,
        ))

abbrev add_turns : ℕ → Ptr → List Ptr → Cmd Items (List Ptr)
add_turns n l os h = and_then (turns n l h) (λ os'. ok (os ++ os'))

turns-add :
    (m n : ℕ) (l : Ptr) (h : Items) → turns (m + n) l h ≡ and_then (turns m l h) (add_turns n l)
unfolding turns
turns-add zero n l h = rw add.zero (sym (and_then-ok (turns n l h)))
turns-add (suc m) n l h = rw suc-add (go (turns-add m n l) (list_get_owner_of_next_item l h))
  where
    go :
        ((s : Items) → turns (m + n) l s ≡ and_then (turns m l s) (add_turns n l))
        → (r : Run Items Ptr)
        → and_then r (λ o s. and_then (turns (m + n) l s) (λ os. ok (o ∷ os)))
          ≡ and_then
              (and_then r (λ o s. and_then (turns m l s) (λ os. ok (o ∷ os))))
              (add_turns n l)
    go ih (ok o s) = rw (ih s) (simp and_then_assoc)
    go ih fault = refl
    go ih hang = refl

-- One round: on a well-formed list, whichever item had the last turn, as many calls of
-- `list_get_owner_of_next_item` as the list has items give the owner of each of them once, those
-- behind it first, and end with that item.
pub turns-round :
    {h : Items} {l : Ptr} (x : Ptr) (xs ys : List Ptr)
    → IsList h l (x ∷ (xs ++ ys))
    → h.curr l ≡ last x xs
    → Returns
        (Turned h l (x ∷ (xs ++ ys)) (ys ++ x ∷ xs) (last x xs))
        (turns (length ys + suc (length xs)) l h)
unfolding turns
turns-round {h} {l} x xs ys is e = rw (turns-add (length ys) (suc (length xs)) l h) (
    bind
      (turns-stretch ys (x ∷ xs) [] (x ∷ (xs ++ ys)) (ap (λ t. x ∷ (xs ++ t)) (append-nil ys)) is e)
      λ os h' (took, list, cur, own). rw (next_item-wrap x (xs ++ ys) list cur) (
        rw (and_then_assoc, and_then_assoc)
          (bind
            (turns-stretch xs (x ∷ []) ys (x ∷ (xs ++ ys)) refl
              (at_cursor-IsList x (ground arith) list) (curr-at_cursor h' l x))
            λ os' h'' (took', list', cur', own'). returns (
              rw (took, took', own) (sym (map-append h.owner ys (x ∷ xs))),
              list',
              cur',
              own' ∙ own,
            ))))
