-- ===== src/Msg/Get.antt =====
-- Taking a message out of a queue, and what the refused calls do.
use mathlib.Core.Path.{subst}
use ak_m_os_the_simple_rtos.Base.{
  ℕ, ◌-◌, ◌≡◌, refl, sym, ap, ◌∙◌, ◌≢◌, ◌⊎◌, inl, inr, Bool, true, false, ◌||◌, List, [], ◌∷◌,
  arith, ◌==◌, ==_of_ne, length, leb, ok, update, Returns, returns,
}
use ak_m_os_the_simple_rtos.Kernel.{IsCritical, exit-enter, os_critical_enter, os_critical_exit}
use ak_m_os_the_simple_rtos.Mem.{Ptr, null}
use ak_m_os_the_simple_rtos.Msg.{
  Msgs, read, write, is_full, os_msg_queue_put_pure, os_msg_queue_get,
}
use ak_m_os_the_simple_rtos.Msg.Queue.{Chain, IsQueue, IsPool}
use ak_m_os_the_simple_rtos.Mem.{Layout}
use ak_m_os_the_simple_rtos.Msg.{os_msg_queue_put_dynamic}
use ak_m_os_the_simple_rtos.Msg.Put.{entered, entered-IsQueue}
use ak_m_os_the_simple_rtos.Msg.Link.{SameQueue, update_here, update_else}

abbrev pub front : List Ptr → Ptr
front [] = null
front (m ∷ ms) = m

abbrev pub behind : List Ptr → List Ptr
behind [] = []
behind (m ∷ ms) = ms

-- The queue `q` has changed to `ms`: its first and last message and its size, and no other field of the state.
pub record Got (q : Ptr) (ms : List Ptr) (s s' : Msgs) : Type 0 where
  pub queue : IsQueue s' q ms
  pub queues : (r : Ptr) → r ≢ q → SameQueue s s' r
  pub only :
      s' ≡ record s { head_ptr = s'.head_ptr; tail_ptr = s'.tail_ptr; size_curr = s'.size_curr }

abbrev emptied : Msgs → Ptr → Ptr → Msgs
emptied s q f = record s {
  head_ptr = update (update s.head_ptr q f) q null;
  tail_ptr = update s.tail_ptr q null;
  size_curr = update s.size_curr q 0;
}

emptied-Got : (s : Msgs) (q m f : Ptr) → IsQueue s q (m ∷ []) → Got q [] s (emptied s q f)
emptied-Got s q m f is = record {
  queue = record {
    not_null = is.not_null;
    chain = update_here (update s.head_ptr q f) q null;
    tail = update_here s.tail_ptr q null;
    count = update_here s.size_curr q 0;
    room = omega arith;
    byte = is.byte;
  };
  queues = λ r ne. record {
    head_ptr = update_else (update s.head_ptr q f) q r null ne ∙ update_else s.head_ptr q r f ne;
    tail_ptr = update_else s.tail_ptr q r null ne;
    size_max = refl;
    size_curr = update_else s.size_curr q r 0 ne;
  };
  only = refl;
}

abbrev shortened : Msgs → Ptr → Ptr → ℕ → Msgs
shortened s q f n = record s {
  head_ptr = update s.head_ptr q f;
  size_curr = update s.size_curr q n;
}

shortened-Got :
    (s : Msgs) (q m n : Ptr) (ms : List Ptr) (k : ℕ)
    → k ≡ length (n ∷ ms)
    → IsQueue s q (m ∷ n ∷ ms)
    → Got q (n ∷ ms) s (shortened s q (s.next m) k)
shortened-Got s q m n ms k e is = record {
  queue = record {
    not_null = is.not_null;
    chain =
        subst (λ t. Chain s.next t (n ∷ ms)) (sym (update_here s.head_ptr q (s.next m))) is.chain.2;
    tail = is.tail;
    count = update_here s.size_curr q k ∙ e;
    room = omega (arith, is.room);
    byte = is.byte;
  };
  queues = λ r ne. record {
    head_ptr = update_else s.head_ptr q r (s.next m) ne;
    tail_ptr = refl;
    size_max = refl;
    size_curr = update_else s.size_curr q r k ne;
  };
  only = refl;
}

-- `os_msg_queue_get` on a well-formed queue returns its oldest message, or NULL if there is none,
-- and leaves the rest of the queue in order. Nothing else changes.
pub get-Got :
    {s : Msgs} (q : Ptr) (ms : List Ptr)
    → IsQueue s q ms
    → Returns (λ p s'. (p ≡ front ms) × Got q (behind ms) s s') (os_msg_queue_get q s)
unfolding os_msg_queue_get read write
get-Got {s} q [] is =
    let eq : (q == null) ≡ false = ==_of_ne q null is.not_null in
    rw (eq, is.count)
      (returns (
        refl,
        record {
          queue = is;
          queues = λ r ne. record {
            head_ptr = refl;
            tail_ptr = refl;
            size_max = refl;
            size_curr = refl;
          };
          only = refl;
        },
      ))
get-Got {s} q (m ∷ []) is =
    let eq : (q == null) ≡ false = ==_of_ne q null is.not_null in
    let em : (m == null) ≡ false = ==_of_ne m null is.chain.1 in
    rw (eq, is.count, eq, is.chain.0, em, eq, eq, eq, eq)
      (returns (refl, emptied-Got s q m (s.next m) is))
get-Got {s} q (m ∷ n ∷ ms) is =
    let eq : (q == null) ≡ false = ==_of_ne q null is.not_null in
    let em : (m == null) ≡ false = ==_of_ne m null is.chain.1 in
    let some : (s.size_curr q == 0) ≡ false = ground (arith, is.count) in
    let more : (s.size_curr q == 1) ≡ false = ground (arith, is.count) in
    rw (eq, some, eq, is.chain.0, em, eq, more, eq, is.count)
      (returns (refl, shortened-Got s q m n ms (length (m ∷ n ∷ ms) - 1) (omega arith) is))

-- The queue is full, or no message is free.
abbrev pub CannotPut : Msgs → Ptr → List Ptr → List Ptr → Type 0
CannotPut s q ms fs = (length ms ≡ s.size_max q) ⊎ (fs ≡ [])

or_true : (t : Bool) → (t || true) ≡ true
or_true true = refl
or_true false = refl

refused_full :
    (s : Msgs) (q : Ptr) (ms fs : List Ptr)
    → IsQueue s q ms
    → IsPool s fs
    → CannotPut s q ms fs
    → is_full q s ≡ ok true s
unfolding is_full read
refused_full s q ms fs is pool (inl e) =
    let eq : (q == null) ≡ false = ==_of_ne q null is.not_null in
    let t : leb (s.size_max q) (length ms) ≡ true = ground arith in rw (eq, eq, is.count, t) refl
refused_full s q ms fs is pool (inr e) =
    let eq : (q == null) ≡ false = ==_of_ne q null is.not_null in
    let none : length fs ≡ 0 = ap (λ t. length t) e in
    let u : leb 32 s.msg_pool_used ≡ true = ground (arith, pool.count, none) in
    rw (eq, eq, u, or_true) refl

entered-again :
    (s : Msgs)
    → IsCritical s.critical
    → record s { critical = os_critical_exit (os_critical_enter s.critical) } ≡ s
entered-again s ok_critical =
    ap (λ c. record s { critical = c }) (exit-enter s.critical ok_critical)

-- If the queue is full or no message is free, both puts return and leave the whole state as it was.
-- The queue and the pool are well-formed. The state of the critical sections is as `IsCritical`
-- asks.
pub put-CannotPut :
    {s : Msgs} (lay : Layout) (q sig : ℕ) (content : Ptr) (size : ℕ) (ms fs : List Ptr)
    → IsCritical s.critical
    → IsQueue s q ms
    → IsPool s fs
    → CannotPut s q ms fs
    → (os_msg_queue_put_pure q sig s ≡ ok tt s)
      × (os_msg_queue_put_dynamic lay q sig content size s ≡ ok tt s)
unfolding os_msg_queue_put_pure os_msg_queue_put_dynamic
put-CannotPut {s} lay q sig content size ms fs ok_critical is pool why =
    let full : is_full q (entered s) ≡ ok true (entered s) =
      refused_full (entered s) q ms fs (entered-IsQueue s q ms is)
        (record { chain = pool.chain; count = pool.count }) (same_why why) in
    (
      rw full (ap (λ t. ok tt t) (entered-again s ok_critical)),
      rw full (ap (λ t. ok tt t) (entered-again s ok_critical)),
    )
  where
    same_why : CannotPut s q ms fs → CannotPut (entered s) q ms fs
    same_why why = why
