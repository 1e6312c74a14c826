-- ===== src/Msg/Pool.antt =====
-- The pool of messages: its start, and giving back a message.
use mathlib.Core.Path.{subst}
use ak_m_os_the_simple_rtos.Base.{
  ℕ, zero, suc, ◌+◌, ◌-◌, ◌%◌, ◌^◌, ◌<◌, ◌≤◌, ◌≡◌, refl, sym, ◌∙◌, ◌≢◌, inl, inr, false, List, [],
  ◌∷◌, arith, ◌==◌, ==_of_ne, eq_of_==, length, Bool-cases, if◌then◌else◌, ok, update, Returns,
  returns, ◌∉◌,
}
use ak_m_os_the_simple_rtos.Kernel.{IsCritical, exit-enter, os_critical_enter, os_critical_exit}
use ak_m_os_the_simple_rtos.Mem.{Ptr, null}
use ak_m_os_the_simple_rtos.Msg.{
  Msgs, msg_type_pure, msg_type_dynamic, os_cfg_msg_pool_size, read, write, link_pool, os_msg_init,
  os_msg_free,
}
use ak_m_os_the_simple_rtos.Mem.{Layout, Mem, os_mem_free}
use ak_m_os_the_simple_rtos.Msg.Link.{on_heap-bind}
use ak_m_os_the_simple_rtos.Msg.Queue.{Chain, IsPool, Chain-frame, apart}
use ak_m_os_the_simple_rtos.Msg.Link.{SameMsg, SameQueue, update_here, update_else}

-- The entries of the pool from `index` on, `n` of them.
abbrev pub entries : (ℕ → Ptr) → ℕ → ℕ → List Ptr
entries pool zero index = []
entries pool (suc n) index = pool index ∷ entries pool n (index + 1)

-- What the code relies on of the compiler: the entries of an array have different addresses, and none is NULL.
pub record IsArray (pool : ℕ → Ptr) : Type 0 where
  pub not_null : (i : ℕ) → i < os_cfg_msg_pool_size → pool i ≢ null
  pub apart : (i j : ℕ) → i < j → j < os_cfg_msg_pool_size → pool i ≢ pool j

abbrev pub link_to : (ℕ → Ptr) → ℕ → Ptr
link_to pool index = if index == os_cfg_msg_pool_size - 1 then null else pool (index + 1)

-- The links that the loop leaves.
abbrev linked_next : (ℕ → Ptr) → ℕ → ℕ → (Ptr → Ptr) → Ptr → Ptr
linked_next pool zero index next = next
linked_next pool (suc n) index next =
    linked_next pool n (index + 1) (update next (pool index) (link_to pool index))

link_pool-run :
    (pool : ℕ → Ptr) (n index : ℕ)
    → IsArray pool
    → index + n ≤ os_cfg_msg_pool_size
    → (s : Msgs)
    → link_pool pool n index s ≡ ok tt (record s { next = linked_next pool n index s.next })
unfolding link_pool write
link_pool-run pool zero index arr le s = refl
link_pool-run pool (suc n) index arr le s =
    let e : (pool index == null) ≡ false =
      ==_of_ne (pool index) null (arr.not_null index (omega arith)) in
    rw e (
      link_pool-run pool n (index + 1) arr (omega arith)
        (record s { next = update s.next (pool index) (link_to pool index) }))

linked_next-below :
    (pool : ℕ → Ptr) (n index i : ℕ)
    → IsArray pool
    → index + n ≤ os_cfg_msg_pool_size
    → i < index
    → (next : Ptr → Ptr) → linked_next pool n index next (pool i) ≡ next (pool i)
linked_next-below pool zero index i arr le lt next = refl
linked_next-below pool (suc n) index i arr le lt next =
    linked_next-below pool n (index + 1) i arr (omega arith) (omega arith)
      (update next (pool index) (link_to pool index))
    ∙ update_else next (pool index) (pool i) (link_to pool index)
        (arr.apart i index lt (omega arith))

linked_next-at :
    (pool : ℕ → Ptr) (n index i : ℕ)
    → IsArray pool
    → index + n ≤ os_cfg_msg_pool_size
    → index ≤ i
    → i < index + n
    → (next : Ptr → Ptr) → linked_next pool n index next (pool i) ≡ link_to pool i
linked_next-at pool zero index i arr le ge lt next = absurd (omega arith)
linked_next-at pool (suc n) index i arr le ge lt next = elim (Bool-cases (i == index)) [
  | inl e ↦
      subst
        (λ t.
          linked_next pool n (index + 1) (update next (pool index) (link_to pool index)) (pool t)
          ≡ link_to pool t)
        (sym (eq_of_== i index e))
        (linked_next-below pool n (index + 1) index arr (omega arith) (omega arith)
            (update next (pool index) (link_to pool index))
          ∙ update_here next (pool index) (link_to pool index))
  | inr e ↦
      linked_next-at pool n (index + 1) i arr (omega arith) (ground (arith, e)) (omega arith)
        (update next (pool index) (link_to pool index))
]

-- the chain through the entries up to the last
entries-Chain :
    (pool : ℕ → Ptr) (next : Ptr → Ptr) (n index : ℕ)
    → IsArray pool
    → index + suc n ≡ os_cfg_msg_pool_size
    → ((i : ℕ) → i < os_cfg_msg_pool_size → next (pool i) ≡ link_to pool i)
    → Chain next (pool index) (entries pool (suc n) index)
entries-Chain pool next zero index arr e at =
    (refl, arr.not_null index (omega arith), at index (omega arith) ∙ ground (arith, e))
entries-Chain pool next (suc n) index arr e at =
    let go_on : next (pool index) ≡ pool (index + 1) = at index (omega arith) ∙ ground (arith, e) in
    (
      refl,
      arr.not_null index (omega arith),
      subst (λ t. Chain next t (entries pool (suc n) (index + 1))) (sym go_on)
          (entries-Chain pool next n (index + 1) arr (omega arith) at),
    )

-- `os_msg_init` chains all entries of the pool, in order, as free messages, and leaves the state of
-- the critical sections as it was. The state of the critical sections is as `IsCritical` asks. The
-- pool's addresses are as `IsArray` asks.
pub init-IsPool :
    (pool : ℕ → Ptr) (s : Msgs)
    → IsArray pool
    → IsCritical s.critical
    → Returns
        (λ _ s'. IsPool s' (entries pool os_cfg_msg_pool_size 0) × (s'.critical ≡ s.critical))
        (os_msg_init pool s)
unfolding os_msg_init
init-IsPool pool s arr ok_critical =
    let pre : Msgs = record s {
      free_list_msg_pool = pool 0;
      critical = os_critical_enter s.critical;
    } in
    let next : Ptr → Ptr = linked_next pool os_cfg_msg_pool_size 0 s.next in
    rw (link_pool-run pool os_cfg_msg_pool_size 0 arr (omega arith) pre) (
      returns (
        record {
          chain = entries-Chain pool next 31 0 arr refl (λ i lt.
              linked_next-at pool os_cfg_msg_pool_size 0 i arr (omega arith) (omega arith) lt
                s.next);
          count = refl;
        },
        exit-enter s.critical ok_critical,
      ))

-- The message `p` is free, and the others that were free still are. Every other link is as it was.
pub record Freed (p : Ptr) (fs : List Ptr) (s s' : Msgs) : Type 0 where
  pub pool : IsPool s' (p ∷ fs)
  pub links : (x : Ptr) → x ≢ p → s'.next x ≡ s.next x
  pub messages : (x : Ptr) → SameMsg s s' x
  pub queues : (q : Ptr) → SameQueue s s' q
  pub critical : s'.critical ≡ s.critical

abbrev released : Msgs → Ptr → Mem → Msgs
released s p m = record s {
  next = update s.next p s.free_list_msg_pool;
  free_list_msg_pool = p;
  heap = m;
  msg_pool_used = (s.msg_pool_used + 2 ^ 8 - 1) % 2 ^ 8;
  critical = os_critical_exit (os_critical_enter s.critical);
}

released-Freed :
    (s : Msgs) (p : Ptr) (fs : List Ptr) (m : Mem)
    → IsCritical s.critical
    → IsPool s fs
    → p ≢ null
    → p ∉ fs
    → length fs < os_cfg_msg_pool_size
    → Freed p fs s (released s p m)
released-Freed s p fs m ok_critical pool ne out room = record {
  pool = record {
    chain = (
      refl,
      ne,
      subst (λ t. Chain (update s.next p s.free_list_msg_pool) t fs)
          (sym (update_here s.next p s.free_list_msg_pool))
          (Chain-frame s.next (update s.next p s.free_list_msg_pool) s.free_list_msg_pool fs
            (λ x h. update_else s.next p x s.free_list_msg_pool (λ e. apart p x fs out h (sym e)))
            pool.chain),
    );
    count = omega (arith, pool.count, room);
  };
  links = λ x nx. update_else s.next p x s.free_list_msg_pool nx;
  messages = λ x. record { sig = refl; size = refl; content_ptr = refl; type = refl };
  queues = λ q. record { head_ptr = refl; tail_ptr = refl; size_max = refl; size_curr = refl };
  critical = exit-enter s.critical ok_critical;
}

module _ {s : Msgs} (lay : Layout) (p : Ptr) (fs : List Ptr) (ok_critical : IsCritical s.critical)
    (pool : IsPool s fs) (ne : p ≢ null) (out : p ∉ fs)
    (room : length fs < os_cfg_msg_pool_size) where
  -- `os_msg_free` of a message without contents puts it in front of the free ones, and leaves every
  -- other link, the messages, the queues, the heap and the critical sections' state as they were.
  -- The pool is well-formed and not all of it is free, and the message is neither NULL nor free
  -- already. The state of the critical sections is as `IsCritical` asks.
  pub free-pure :
      s.type p ≡ msg_type_pure
      → Returns (λ _ s'. Freed p fs s s' × (s'.heap ≡ s.heap)) (os_msg_free lay p s)
  unfolding os_msg_free read write
  free-pure t =
      let ep : (p == null) ≡ false = ==_of_ne p null ne in
      rw (ep, ep, t) (returns (released-Freed s p fs s.heap ok_critical pool ne out room, refl))

  -- If `os_mem_free` of its contents returns and leaves a heap such that `P`, then `os_msg_free` of
  -- a message with contents puts it in front of the free ones, leaves every other link, the
  -- messages, the queues and the critical sections' state as they were, and the heap is such that
  -- `P`. The pool is well-formed and not all of it is free, and the message is neither NULL nor free
  -- already. The state of the critical sections is as `IsCritical` asks.
  pub free-dynamic :
      {P : Mem → Type 0}
      → s.type p ≡ msg_type_dynamic
      → Returns (λ _ m. P m) (os_mem_free lay (s.content_ptr p) s.heap)
      → Returns (λ _ s'. Freed p fs s s' × P s'.heap) (os_msg_free lay p s)
  unfolding os_msg_free read write
  free-dynamic {P} t freed =
      let ep : (p == null) ≡ false = ==_of_ne p null ne in
      rw (ep, ep, t, ep)
        (on_heap-bind
          (record s {
            next = update s.next p s.free_list_msg_pool;
            free_list_msg_pool = p;
            critical = os_critical_enter s.critical;
          })
          _ freed (λ _ m pm. returns (released-Freed s p fs m ok_critical pool ne out room, pm)))
