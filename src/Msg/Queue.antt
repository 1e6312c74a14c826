-- ===== src/Msg/Queue.antt =====
-- What the pointers of the messages stand for: the queue of a task, and the messages that are free.
use mathlib.Core.Path.{subst}
use ak_m_os_the_simple_rtos.Base.{
  ℕ, ◌+◌, ◌^◌, ◌<◌, ◌≤◌, ◌≡◌, refl, sym, ◌∙◌, ◌≢◌, inl, inr, Bool, true, false, ◌||◌, List, [], ◌∷◌,
  ◌++◌, arith, ◌==◌, ==-refl, eq_of_==, ne_of_==, length, Bool-cases, ◌∈◌, ◌∉◌, Distinct, has,
  has-append,
}
use ak_m_os_the_simple_rtos.Mem.{Ptr, null}
use ak_m_os_the_simple_rtos.Msg.{Msgs, os_cfg_msg_pool_size}

-- From `a` on, the `next` pointers go through `ms` and end with NULL.
abbrev pub Chain : (Ptr → Ptr) → Ptr → List Ptr → Type 0
Chain next a [] = a ≡ null
Chain next a (m ∷ ms) = (a ≡ m) × (m ≢ null) × Chain next (next m) ms

abbrev pub last : List Ptr → Ptr
last [] = null
last (m ∷ []) = m
last (m ∷ n ∷ ms) = last (n ∷ ms)

-- The queue `q` holds the messages `ms`, the oldest first.
pub record IsQueue (s : Msgs) (q : Ptr) (ms : List Ptr) : Type 0 where
  pub not_null : q ≢ null
  pub chain : Chain s.next (s.head_ptr q) ms
  pub tail : s.tail_ptr q ≡ last ms
  pub count : s.size_curr q ≡ length ms
  pub room : length ms ≤ s.size_max q
  pub byte : s.size_max q < 2 ^ 8

-- The messages `fs` are free.
pub record IsPool (s : Msgs) (fs : List Ptr) : Type 0 where
  pub chain : Chain s.next s.free_list_msg_pool fs
  pub count : s.msg_pool_used + length fs ≡ os_cfg_msg_pool_size

pub here : (m : Ptr) (ms : List Ptr) → m ∈ m ∷ ms
here m ms = rw (==-refl m) refl

or_right : (s t : Bool) → t ≡ true → (s || t) ≡ true
or_right true t e = refl
or_right false t e = e

or_parts : (s t : Bool) → (s || t) ≡ false → (s ≡ false) × (t ≡ false)
or_parts true t e = cc
or_parts false t e = (refl, e)

pub there : (x m : Ptr) (ms : List Ptr) → x ∈ ms → x ∈ m ∷ ms
there x m ms h = or_right (x == m) (has x ms) h

pub apart : (x y : Ptr) (ms : List Ptr) → x ∉ ms → y ∈ ms → x ≢ y
apart x y ms out h e =
    let inside : x ∈ ms = subst (λ t. t ∈ ms) (sym e) h in
    let absurd_eq : true ≡ false = sym inside ∙ out in cc

pub ∉-parts : (x m : Ptr) (ms : List Ptr) → x ∉ m ∷ ms → ((x == m) ≡ false) × (x ∉ ms)
∉-parts x m ms h = or_parts (x == m) (has x ms) h

pub last-∈ : (m : Ptr) (ms : List Ptr) → last (m ∷ ms) ∈ m ∷ ms
last-∈ m [] = here m []
last-∈ m (n ∷ ms) = there (last (n ∷ ms)) m (n ∷ ms) (last-∈ n ms)

pub last-snoc : (ms : List Ptr) (p : Ptr) → last (ms ++ p ∷ []) ≡ p
last-snoc [] p = refl
last-snoc (m ∷ []) p = refl
last-snoc (m ∷ n ∷ ms) p = last-snoc (n ∷ ms) p

-- A chain that a write does not meet is as it was.
pub Chain-frame :
    (next next' : Ptr → Ptr) (a : Ptr) (ms : List Ptr)
    → ((x : Ptr) → x ∈ ms → next' x ≡ next x)
    → Chain next a ms
    → Chain next' a ms
Chain-frame next next' a [] same c = c
Chain-frame next next' a (m ∷ ms) same c = (
  c.0,
  c.1,
  Chain-frame next next' (next' m) ms (λ x h. same x (there x m ms h))
      (subst (λ t. Chain next t ms) (sym (same m (here m ms))) c.2),
)

-- The last link of a chain is moved to a new message.
pub Chain-snoc :
    (next next' : Ptr → Ptr) (a p m : Ptr) (ms : List Ptr)
    → ((x : Ptr) → x ≢ last (m ∷ ms) → x ≢ p → next' x ≡ next x)
    → next' (last (m ∷ ms)) ≡ p
    → next' p ≡ null
    → p ≢ null
    → p ∉ m ∷ ms
    → Distinct (m ∷ ms)
    → Chain next a (m ∷ ms)
    → Chain next' a ((m ∷ ms) ++ p ∷ [])
Chain-snoc next next' a p m [] same e e' ne out d c = (c.0, c.1, (e, ne, e'))
Chain-snoc next next' a p m (n ∷ ms) same e e' ne out d c =
    let kept : next' m ≡ next m =
      same m (apart m (last (n ∷ ms)) (n ∷ ms) d.0 (last-∈ n ms))
        (λ eq. ne_of_== p m (∉-parts p m (n ∷ ms) out).0 (sym eq)) in
    (
      c.0,
      c.1,
      Chain-snoc next next' (next' m) p n ms same e e' ne (∉-parts p m (n ∷ ms) out).1 d.1
          (subst (λ t. Chain next t (n ∷ ms)) (sym kept) c.2),
    )

-- What it means that a row of messages, one more, and a second row are all different.
pub record Parts (ms : List Ptr) (p : Ptr) (fs : List Ptr) : Type 0 where
  pub queued : Distinct ms
  pub new : p ∉ ms
  pub free : p ∉ fs
  pub disjoint : (x : Ptr) → x ∈ ms → x ∉ fs

eq_symm : (x y : ℕ) → (x == y) ≡ false → (y == x) ≡ false
eq_symm x y h = ground arith

or_false : (s t : Bool) → s ≡ false → t ≡ false → (s || t) ≡ false
or_false false t e f = f
or_false true t e f = cc

pub distinct-Parts :
    (ms : List Ptr) (p : Ptr) (fs : List Ptr) → Distinct (ms ++ p ∷ fs) → Parts ms p fs
distinct-Parts [] p fs d = record { queued = tt; new = refl; free = d.0; disjoint = λ x h. cc }
distinct-Parts (m ∷ ms) p fs d =
    let r : Parts ms p fs = distinct-Parts ms p fs d.1 in
    let split : (has m ms ≡ false) × (has m (p ∷ fs) ≡ false) =
      or_parts (has m ms) (has m (p ∷ fs)) (sym (has-append m ms (p ∷ fs)) ∙ d.0) in
    let ends : ((m == p) ≡ false) × (m ∉ fs) = or_parts (m == p) (has m fs) split.1 in
    record {
      queued = (split.0, r.queued);
      new = or_false (p == m) (has p ms) (eq_symm m p ends.0) r.new;
      free = r.free;
      disjoint = λ x h. elim (Bool-cases (x == m)) [
        | inl e ↦ subst (λ t. t ∉ fs) (sym (eq_of_== x m e)) ends.1
        | inr e ↦ r.disjoint x (subst (λ t. (t || has x ms) ≡ true) e h)
      ];
    }
