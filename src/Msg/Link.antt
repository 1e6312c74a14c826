-- ===== src/Msg/Link.antt =====
-- How a put takes a message from the pool and links it to the queue.
use mathlib.Core.Path.{subst}
use ak_m_os_the_simple_rtos.Base.{
  ℕ, ◌+◌, ◌%◌, ◌^◌, ◌<◌, ◌≡◌, refl, sym, ◌∙◌, ◌≢◌, inl, inr, true, false, ◌||◌, List, [], ◌∷◌, ◌++◌,
  arith, ◌==◌, ==-refl, ==_of_ne, eq_of_==, length, length-append, Bool-cases, ok, update, Returns,
  returns, ◌∈◌, ◌∉◌, has,
}
use ak_m_os_the_simple_rtos.Mem.{Ptr, null}
use ak_m_os_the_simple_rtos.Msg.{Msgs, read, write, take_msg, link_msg}
use ak_m_os_the_simple_rtos.Base.{Run, Cmd, and_then}
use ak_m_os_the_simple_rtos.Mem.{Mem}
use ak_m_os_the_simple_rtos.Msg.{with_heap}
use ak_m_os_the_simple_rtos.Msg.Queue.{
  Chain, last, IsQueue, IsPool, Chain-snoc, last-snoc, last-∈, apart, Parts,
}

-- What a message says is as it was.
pub record SameMsg (s s' : Msgs) (x : Ptr) : Type 0 where
  pub sig : s'.sig x ≡ s.sig x
  pub size : s'.size x ≡ s.size x
  pub content_ptr : s'.content_ptr x ≡ s.content_ptr x
  pub type : s'.type x ≡ s.type x

-- The queue `q` is as it was, except for the links between messages.
pub record SameQueue (s s' : Msgs) (q : Ptr) : Type 0 where
  pub head_ptr : s'.head_ptr q ≡ s.head_ptr q
  pub tail_ptr : s'.tail_ptr q ≡ s.tail_ptr q
  pub size_max : s'.size_max q ≡ s.size_max q
  pub size_curr : s'.size_curr q ≡ s.size_curr q

-- The message `p` of type `t` is now the last of the queue, and not free any more. Every other message and every other queue
-- is as it was, and so is the state of the critical sections.
pub record Appended (q : Ptr) (ms : List Ptr) (p : Ptr) (fs : List Ptr) (s s' : Msgs) : Type 0 where
  pub queue : IsQueue s' q (ms ++ p ∷ [])
  pub pool : IsPool s' fs
  pub links : (x : Ptr) → x ≢ null → x ∉ p ∷ ms → s'.next x ≡ s.next x
  pub messages : (x : Ptr) → x ≢ p → SameMsg s s' x
  pub queues : (r : Ptr) → r ≢ q → SameQueue s s' r
  pub critical : s'.critical ≡ s.critical

-- A call of the allocator, and what follows it.
pub on_heap-bind :
    {A B : Type 0} {P : A → Mem → Type 0} {Q : B → Msgs → Type 0} (s : Msgs) {r : Run Mem A}
    (k : A → Cmd Msgs B)
    → Returns P r
    → ((a : A) (m : Mem) → P a m → Returns Q (k a (record s { heap = m })))
    → Returns Q (and_then (with_heap s r) k)
on_heap-bind s k (returns p) next = next _ _ p

-- What `link_msg` does to the links and to the queue.
abbrev pub linked : Msgs → Ptr → Ptr → List Ptr → Msgs
linked s q p [] = record s {
  head_ptr = update s.head_ptr q p;
  tail_ptr = update s.tail_ptr q p;
  size_curr = update s.size_curr q 1;
  next = update s.next p null;
}
linked s q p (m ∷ ms) = record s {
  next = update (update s.next (last (m ∷ ms)) p) p null;
  tail_ptr = update s.tail_ptr q p;
  size_curr = update s.size_curr q ((length (m ∷ ms) + 1) % 2 ^ 8);
}

pub in_not_null :
    (next : Ptr → Ptr) (a x : Ptr) (ms : List Ptr) → Chain next a ms → x ∈ ms → x ≢ null
in_not_null next a x [] c h = cc
in_not_null next a x (m ∷ ms) c h = elim (Bool-cases (x == m)) [
  | inl e ↦ λ z. c.1 (sym (eq_of_== x m e) ∙ z)
  | inr e ↦ in_not_null next (next m) x ms c.2 (subst (λ t. (t || has x ms) ≡ true) e h)
]

pub link_msg-run :
    (s : Msgs) (q p : Ptr) (ms : List Ptr)
    → IsQueue s q ms
    → p ≢ null
    → link_msg q p s ≡ ok tt (linked s q p ms)
unfolding link_msg read write
link_msg-run s q p [] is ne =
    let eq : (q == null) ≡ false = ==_of_ne q null is.not_null in
    let ep : (p == null) ≡ false = ==_of_ne p null ne in rw (eq, is.count, eq, eq, eq, ep) refl
link_msg-run s q p (m ∷ ms) is ne =
    let eq : (q == null) ≡ false = ==_of_ne q null is.not_null in
    let ep : (p == null) ≡ false = ==_of_ne p null ne in
    let el : (last (m ∷ ms) == null) ≡ false =
      ==_of_ne (last (m ∷ ms)) null
        (in_not_null s.next (s.head_ptr q) (last (m ∷ ms)) (m ∷ ms) is.chain (last-∈ m ms)) in
    let some : (s.size_curr q == 0) ≡ false = ground (arith, is.count) in
    rw (eq, some, eq, is.tail, el, eq, ep, eq, eq, is.count) refl

module _ {s : Msgs} (q : Ptr) (ms : List Ptr) (p : Ptr) (fs : List Ptr) (is : IsQueue s q ms)
    (pool : IsPool s (p ∷ fs)) (parts : Parts ms p fs) where
  abbrev pub taken : Msgs
  taken = record s { free_list_msg_pool = s.next p; msg_pool_used = (s.msg_pool_used + 1) % 2 ^ 8 }

  pub take_msg-run : take_msg s ≡ ok p taken
  unfolding take_msg read
  take_msg-run =
      let ep : (p == null) ≡ false = ==_of_ne p null pool.chain.1 in rw (pool.chain.0, ep) refl

  pub taken-IsQueue : IsQueue taken q ms
  taken-IsQueue = record {
    not_null = is.not_null;
    chain = is.chain;
    tail = is.tail;
    count = is.count;
    room = is.room;
    byte = is.byte;
  }

pub update_here : (f : Ptr → Ptr) (a b : Ptr) → update f a b a ≡ b
update_here f a b = rw (==-refl a) refl

pub update_else : {A : Type 0} (f : ℕ → A) (a x : ℕ) (b : A) → x ≢ a → update f a b x ≡ f x
update_else f a x b ne = rw (==_of_ne x a ne) refl

abbrev link_next : (Ptr → Ptr) → Ptr → List Ptr → Ptr → Ptr
link_next next p [] = update next p null
link_next next p (m ∷ ms) = update (update next (last (m ∷ ms)) p) p null

-- the links that are written: that of the new message, and that of the last one
link_next-else :
    (next : Ptr → Ptr) (p : Ptr) (ms : List Ptr) (x : Ptr)
    → x ≢ p
    → x ≢ last ms
    → link_next next p ms x ≡ next x
link_next-else next p [] x ne ne' = update_else next p x null ne
link_next-else next p (m ∷ ms) x ne ne' =
    update_else (update next (last (m ∷ ms)) p) p x null ne
    ∙ update_else next (last (m ∷ ms)) x p ne'

link_next-last :
    (next : Ptr → Ptr) (p m : Ptr) (ms : List Ptr)
    → last (m ∷ ms) ≢ p
    → link_next next p (m ∷ ms) (last (m ∷ ms)) ≡ p
link_next-last next p m ms ne =
    update_else (update next (last (m ∷ ms)) p) p (last (m ∷ ms)) null ne
    ∙ update_here next (last (m ∷ ms)) p

module _ (s : Msgs) (q p : Ptr) (fs : List Ptr) where
  pub linked-IsQueue :
      (ms : List Ptr)
      → IsQueue s q ms
      → Parts ms p fs
      → p ≢ null
      → length ms < s.size_max q
      → IsQueue (linked s q p ms) q (ms ++ p ∷ [])
  linked-IsQueue [] is parts ne room = record {
    not_null = is.not_null;
    chain = (update_here s.head_ptr q p, ne, update_here s.next p null);
    tail = update_here s.tail_ptr q p;
    count = update_here s.size_curr q 1;
    room = omega (arith, room);
    byte = is.byte;
  }
  linked-IsQueue (m ∷ ms) is parts ne room = record {
    not_null = is.not_null;
    chain =
        Chain-snoc s.next (link_next s.next p (m ∷ ms)) (s.head_ptr q) p m ms
          (λ x a b. link_next-else s.next p (m ∷ ms) x b a)
          (link_next-last s.next p m ms
            (λ e. apart p (last (m ∷ ms)) (m ∷ ms) parts.new (last-∈ m ms) (sym e)))
          (update_here (update s.next (last (m ∷ ms)) p) p null) ne parts.new parts.queued is.chain;
    tail = update_here s.tail_ptr q p ∙ sym (last-snoc (m ∷ ms) p);
    count =
        update_here s.size_curr q ((length (m ∷ ms) + 1) % 2 ^ 8)
        ∙ omega (arith, length-append (m ∷ ms) (p ∷ []), room, is.byte);
    room = omega (arith, room, length-append (m ∷ ms) (p ∷ []));
    byte = is.byte;
  }

  pub linked-next :
      (ms : List Ptr) (x : Ptr) → x ≢ p → x ≢ last ms → (linked s q p ms).next x ≡ s.next x
  linked-next [] x ne ne' = link_next-else s.next p [] x ne ne'
  linked-next (m ∷ ms) x ne ne' = link_next-else s.next p (m ∷ ms) x ne ne'

  pub linked-SameMsg : (ms : List Ptr) (x : Ptr) → SameMsg s (linked s q p ms) x
  linked-SameMsg [] x = record { sig = refl; size = refl; content_ptr = refl; type = refl }
  linked-SameMsg (m ∷ ms) x = record { sig = refl; size = refl; content_ptr = refl; type = refl }

  pub linked-SameQueue : (ms : List Ptr) (r : Ptr) → r ≢ q → SameQueue s (linked s q p ms) r
  linked-SameQueue [] r ne = record {
    head_ptr = update_else s.head_ptr q r p ne;
    tail_ptr = update_else s.tail_ptr q r p ne;
    size_max = refl;
    size_curr = update_else s.size_curr q r 1 ne;
  }
  linked-SameQueue (m ∷ ms) r ne = record {
    head_ptr = refl;
    tail_ptr = update_else s.tail_ptr q r p ne;
    size_max = refl;
    size_curr = update_else s.size_curr q r ((length (m ∷ ms) + 1) % 2 ^ 8) ne;
  }

  -- the static variables
  pub linked-statics :
      (ms : List Ptr)
      → ((linked s q p ms).free_list_msg_pool ≡ s.free_list_msg_pool)
        × ((linked s q p ms).msg_pool_used ≡ s.msg_pool_used)
        × ((linked s q p ms).critical ≡ s.critical)
  linked-statics [] = (refl, refl, refl)
  linked-statics (m ∷ ms) = (refl, refl, refl)

  -- the heap and the contents
  pub linked-heap :
      (ms : List Ptr) → ((linked s q p ms).heap ≡ s.heap) × ((linked s q p ms).bytes ≡ s.bytes)
  linked-heap [] = (refl, refl)
  linked-heap (m ∷ ms) = (refl, refl)
