-- ===== src/Msg/Put.antt =====
-- Putting a message into a queue.
use mathlib.Core.Path.{subst}
use ak_m_os_the_simple_rtos.Base.{
  ℕ, ◌<◌, ◌≡◌, refl, sym, ap, ◌∙◌, ◌≢◌, false, List, [], ◌∷◌, ◌++◌, arith, ◌==◌, ==-refl, ==_of_ne,
  ne_of_==, length, leb, ok, update, Returns, returns, ◌∈◌, ◌∉◌, Distinct,
}
use ak_m_os_the_simple_rtos.Kernel.{IsCritical, exit-enter, os_critical_enter, os_critical_exit}
use ak_m_os_the_simple_rtos.Mem.{Ptr, null}
use ak_m_os_the_simple_rtos.Msg.{
  Msgs, MsgType, msg_type_pure, read, write, is_full, os_msg_queue_put_pure,
}
use ak_m_os_the_simple_rtos.Mem.{Mem}
use ak_m_os_the_simple_rtos.Msg.Queue.{
  Chain, last, IsQueue, IsPool, Chain-frame, last-∈, apart, ∉-parts, Parts, distinct-Parts,
}
use ak_m_os_the_simple_rtos.Msg.Link.{
  Appended, in_not_null, linked, taken, take_msg-run, link_msg-run, taken-IsQueue, linked-IsQueue,
  linked-next, linked-SameMsg, linked-SameQueue, linked-statics, update_here, update_else,
}

pub ne-sym : (x y : Ptr) → x ≢ y → y ≢ x
ne-sym x y ne e = ne (sym e)

-- The links of the free messages are not written.
free-apart :
    (ms : List Ptr) (p : Ptr) (fs : List Ptr) (x : Ptr)
    → Parts ms p fs
    → p ≢ null
    → x ∈ fs
    → x ≢ null
    → (x ≢ p) × (x ≢ last ms)
free-apart [] p fs x parts ne h nx = (ne-sym p x (apart p x fs parts.free h), nx)
free-apart (m ∷ ms) p fs x parts ne h nx = (
  ne-sym p x (apart p x fs parts.free h),
  ne-sym (last (m ∷ ms)) x
      (apart (last (m ∷ ms)) x fs (parts.disjoint (last (m ∷ ms)) (last-∈ m ms)) h),
)

last-outside : (ms : List Ptr) (p x : Ptr) → x ∉ p ∷ ms → x ≢ null → (x ≢ p) × (x ≢ last ms)
last-outside [] p x out nx = (ne_of_== x p (∉-parts x p [] out).0, nx)
last-outside (m ∷ ms) p x out nx =
    let r = ∉-parts x p (m ∷ ms) out in
    (ne_of_== x p r.0, apart x (last (m ∷ ms)) (m ∷ ms) r.1 (last-∈ m ms))

module _ {s : Msgs} (q : Ptr) (ms : List Ptr) (p : Ptr) (fs : List Ptr) (is : IsQueue s q ms)
    (pool : IsPool s (p ∷ fs)) (distinct : Distinct (ms ++ p ∷ fs))
    (room : length ms < s.size_max q) where
  pub parts : Parts ms p fs
  parts = distinct-Parts ms p fs distinct

  abbrev pub after : Msgs
  after = linked (taken q ms p fs is pool parts) q p ms

  after-IsPool : IsPool after fs
  after-IsPool =
      let statics = linked-statics (taken q ms p fs is pool parts) q p fs ms in
      let same : (x : Ptr) → x ∈ fs → after.next x ≡ s.next x = λ x h.
        let far =
          free-apart ms p fs x parts pool.chain.1 h
            (in_not_null s.next (s.next p) x fs pool.chain.2 h) in
        linked-next (taken q ms p fs is pool parts) q p fs ms x far.0 far.1 in
      record {
        chain =
            subst (λ a. Chain after.next a fs) (sym statics.0)
              (Chain-frame s.next after.next (s.next p) fs same pool.chain.2);
        count = rw statics.1 (omega (arith, pool.count));
      }

  pub after-Appended : Appended q ms p fs s after
  after-Appended = record {
    queue =
        linked-IsQueue (taken q ms p fs is pool parts) q p fs ms
          (taken-IsQueue q ms p fs is pool parts) parts pool.chain.1 room;
    pool = after-IsPool;
    links = λ x nx out.
        let far = last-outside ms p x out nx in
        linked-next (taken q ms p fs is pool parts) q p fs ms x far.0 far.1;
    messages = λ x ne. record {
      sig = (linked-SameMsg (taken q ms p fs is pool parts) q p fs ms x).sig;
      size = (linked-SameMsg (taken q ms p fs is pool parts) q p fs ms x).size;
      content_ptr = (linked-SameMsg (taken q ms p fs is pool parts) q p fs ms x).content_ptr;
      type = (linked-SameMsg (taken q ms p fs is pool parts) q p fs ms x).type;
    };
    queues = λ r ne. record {
      head_ptr = (linked-SameQueue (taken q ms p fs is pool parts) q p fs ms r ne).head_ptr;
      tail_ptr = (linked-SameQueue (taken q ms p fs is pool parts) q p fs ms r ne).tail_ptr;
      size_max = (linked-SameQueue (taken q ms p fs is pool parts) q p fs ms r ne).size_max;
      size_curr = (linked-SameQueue (taken q ms p fs is pool parts) q p fs ms r ne).size_curr;
    };
    critical = (linked-statics (taken q ms p fs is pool parts) q p fs ms).2;
  }

pub not_full :
    (s : Msgs) (q : Ptr) (ms fs : List Ptr) (p : Ptr)
    → IsQueue s q ms
    → IsPool s (p ∷ fs)
    → length ms < s.size_max q
    → is_full q s ≡ ok false s
unfolding is_full read
not_full s q ms fs p is pool room =
    let eq : (q == null) ≡ false = ==_of_ne q null is.not_null in
    let t : leb (s.size_max q) (length ms) ≡ false = ground arith in
    let u : leb 32 s.msg_pool_used ≡ false = ground (arith, pool.count) in
    rw (eq, eq, is.count, t, u) refl

-- What a message without content says.
abbrev pub Says : Ptr → ℕ → Msgs → Type 0
Says p sig s = (s.sig p ≡ sig) × (s.type p ≡ msg_type_pure)

abbrev pub entered : Msgs → Msgs
entered s = record s { critical = os_critical_enter s.critical }

-- The message is filled in, and the critical section left.
abbrev pub filled : Msgs → Ptr → MsgType → ℕ → (Ptr → ℕ) → (Ptr → Ptr) → Mem → (Ptr → ℕ) → Msgs
filled s p t sig sizes contents m bs = record s {
  type = update s.type p t;
  sig = update s.sig p sig;
  size = sizes;
  content_ptr = contents;
  heap = m;
  bytes = bs;
  critical = os_critical_exit s.critical;
}

pub type_here : (f : Ptr → MsgType) (a : Ptr) (b : MsgType) → update f a b a ≡ b
type_here f a b = rw (==-refl a) refl

module _ (s s' : Msgs) (q p : Ptr) (t : MsgType) (sig : ℕ) (ms fs : List Ptr) (sizes : Ptr → ℕ)
    (contents : Ptr → Ptr) (m : Mem) (bs : Ptr → ℕ)
    (same_sizes : (x : Ptr) → x ≢ p → sizes x ≡ s'.size x)
    (same_contents : (x : Ptr) → x ≢ p → contents x ≡ s'.content_ptr x) where
  pub filled-Appended :
      IsCritical s.critical
      → Appended q ms p fs (entered s) s'
      → Appended q ms p fs s (filled s' p t sig sizes contents m bs)
  filled-Appended ok_critical put = record {
    queue = record {
      not_null = put.queue.not_null;
      chain = put.queue.chain;
      tail = put.queue.tail;
      count = put.queue.count;
      room = put.queue.room;
      byte = put.queue.byte;
    };
    pool = record { chain = put.pool.chain; count = put.pool.count };
    links = put.links;
    messages = λ x ne. record {
      sig = update_else s'.sig p x sig ne ∙ (put.messages x ne).sig;
      size = same_sizes x ne ∙ (put.messages x ne).size;
      content_ptr = same_contents x ne ∙ (put.messages x ne).content_ptr;
      type = update_else s'.type p x t ne ∙ (put.messages x ne).type;
    };
    queues = λ r ne. record {
      head_ptr = (put.queues r ne).head_ptr;
      tail_ptr = (put.queues r ne).tail_ptr;
      size_max = (put.queues r ne).size_max;
      size_curr = (put.queues r ne).size_curr;
    };
    critical = ap os_critical_exit put.critical ∙ exit-enter s.critical ok_critical;
  }

pub entered-IsQueue :
    (s : Msgs) (q : Ptr) (ms : List Ptr) → IsQueue s q ms → IsQueue (entered s) q ms
entered-IsQueue s q ms is = record {
  not_null = is.not_null;
  chain = is.chain;
  tail = is.tail;
  count = is.count;
  room = is.room;
  byte = is.byte;
}

-- `os_msg_queue_put_pure` on a queue that is not full, with a message free in the pool, takes that
-- message, puts it behind the queue's messages with its signal, and leaves every other message, link
-- and queue and the critical sections' state as they were. The queue and the pool are well-formed
-- and share no message. The state of the critical sections is as `IsCritical` asks.
pub put_pure-Appended :
    {s : Msgs} (q sig : ℕ) (ms : List Ptr) (p : Ptr) (fs : List Ptr)
    → IsCritical s.critical
    → IsQueue s q ms
    → IsPool s (p ∷ fs)
    → Distinct (ms ++ p ∷ fs)
    → length ms < s.size_max q
    → Returns (λ _ s'. Appended q ms p fs s s' × Says p sig s') (os_msg_queue_put_pure q sig s)
unfolding os_msg_queue_put_pure write
put_pure-Appended {s} q sig ms p fs ok_critical is pool distinct room =
    let is' : IsQueue (entered s) q ms = entered-IsQueue s q ms is in
    let pool' : IsPool (entered s) (p ∷ fs) = record { chain = pool.chain; count = pool.count } in
    let t = taken-IsQueue {s = entered s} q ms p fs is' pool' (distinct-Parts ms p fs distinct) in
    let ep : (p == null) ≡ false = ==_of_ne p null pool.chain.1 in
    rw
      (
        not_full (entered s) q ms fs p is' pool' room,
        take_msg-run {s = entered s} q ms p fs is' pool' (distinct-Parts ms p fs distinct),
        link_msg-run (taken {s = entered s} q ms p fs is' pool' (distinct-Parts ms p fs distinct)) q
            p ms t pool.chain.1,
        ep,
        ep,
      )
      (returns (
        filled-Appended s (after {s = entered s} q ms p fs is' pool' distinct room) q p
            msg_type_pure sig ms fs (after {s = entered s} q ms p fs is' pool' distinct room).size
            (after {s = entered s} q ms p fs is' pool' distinct room).content_ptr
            (after {s = entered s} q ms p fs is' pool' distinct room).heap
            (after {s = entered s} q ms p fs is' pool' distinct room).bytes (λ x ne. refl)
            (λ x ne. refl) ok_critical
            (after-Appended {s = entered s} q ms p fs is' pool' distinct room),
        (
          update_here (after {s = entered s} q ms p fs is' pool' distinct room).sig p sig,
          type_here (after {s = entered s} q ms p fs is' pool' distinct room).type p msg_type_pure,
        ),
      ))
