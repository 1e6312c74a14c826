-- ===== src/Msg/Dynamic.antt =====
-- Putting a message with contents into a queue.
use mathlib.Core.Path.{subst}
use ak_m_os_the_simple_rtos.Base.{
  ℕ, ◌+◌, ◌-◌, ◌%◌, ◌^◌, ◌<◌, ◌≡◌, refl, sym, ap, ◌∙◌, ◌≢◌, true, false, ◌&&◌, List, ◌∷◌, ◌++◌,
  arith, ◌==◌, ==-refl, ==_of_ne, length, leb, ltb, if◌then◌else◌, ok, update, Returns, returns,
  Distinct, fault, ◌>>=◌, ◌>>◌,
}
use ak_m_os_the_simple_rtos.Kernel.{IsCritical}
use ak_m_os_the_simple_rtos.Mem.{Ptr, null}
use ak_m_os_the_simple_rtos.Msg.{Msgs, msg_type_dynamic, read, write}
use ak_m_os_the_simple_rtos.Mem.{Layout, Mem, os_mem_malloc}
use ak_m_os_the_simple_rtos.Base.{and_then, and_then_assoc}
use ak_m_os_the_simple_rtos.Msg.{
  with_heap, set_content, exit_critical, memcpy, fill_dynamic, os_msg_queue_put_dynamic,
}
use ak_m_os_the_simple_rtos.Msg.Queue.{IsQueue, IsPool, distinct-Parts}
use ak_m_os_the_simple_rtos.Msg.Link.{
  Appended, taken, take_msg-run, link_msg-run, taken-IsQueue, linked-heap, on_heap-bind,
  update_here, update_else,
}
use ak_m_os_the_simple_rtos.Msg.Put.{
  entered, entered-IsQueue, after, after-Appended, not_full, filled-Appended, type_here,
}

-- The message holds a copy of the `n` bytes at `content`, as they were before the call.
pub record Copied (p signal : ℕ) (content : Ptr) (n : ℕ) (s s' : Msgs) : Type 0 where
  pub sig : s'.sig p ≡ signal
  pub size : s'.size p ≡ n
  pub type : s'.type p ≡ msg_type_dynamic
  pub copy : (i : ℕ) → i < n → s'.bytes (s'.content_ptr p + i) ≡ s.bytes (content + i)

-- what `memcpy` leaves
abbrev pasted : (Ptr → ℕ) → Ptr → Ptr → ℕ → Ptr → ℕ
pasted bytes d from n x = if leb d x && ltb x (d + n) then bytes (from + (x - d)) else bytes x

pasted-at :
    (bytes : Ptr → ℕ) (d from n i : ℕ) → i < n → pasted bytes d from n (d + i) ≡ bytes (from + i)
pasted-at bytes d from n i lt =
    let inside : (leb d (d + i) && ltb (d + i) (d + n)) ≡ true = ground arith in
    let at : d + i - d ≡ i = omega arith in rw (inside, at) refl

module _ {s : Msgs} (lay : Layout) (q sig : ℕ) (content : Ptr) (size : ℕ) (ms : List Ptr) (p : Ptr)
    (fs : List Ptr) (ok_critical : IsCritical s.critical) (is : IsQueue s q ms)
    (pool : IsPool s (p ∷ fs)) (distinct : Distinct (ms ++ p ∷ fs))
    (room : length ms < s.size_max q) where
  -- the size as the parameter of the call holds it
  abbrev len : ℕ
  len = size % 2 ^ 8

  ready-IsQueue : IsQueue (entered s) q ms
  ready-IsQueue = entered-IsQueue s q ms is

  ready-IsPool : IsPool (entered s) (p ∷ fs)
  ready-IsPool = record { chain = pool.chain; count = pool.count }

  abbrev queued : Msgs
  queued = after {s = entered s} q ms p fs ready-IsQueue ready-IsPool distinct room

  -- the heap and the bytes are as they were before the message was linked
  queued-heap : (queued.heap ≡ s.heap) × (queued.bytes ≡ s.bytes)
  queued-heap =
      linked-heap
        (taken {s = entered s} q ms p fs ready-IsQueue ready-IsPool
          (distinct-Parts ms p fs distinct))
        q p fs ms

  abbrev to_fill : Msgs
  to_fill = record queued {
    type = update queued.type p msg_type_dynamic;
    sig = update queued.sig p sig;
    size = update queued.size p len;
  }

  -- what is left of the call once the message is linked
  put_dynamic-run :
      os_msg_queue_put_dynamic lay q sig content size s
      ≡ and_then (with_heap to_fill (os_mem_malloc lay len s.heap)) (λ c.
        set_content p c
        >> (read (λ s'. s'.content_ptr) p >>= λ c'. memcpy c' content len)
        >> exit_critical)
  unfolding os_msg_queue_put_dynamic fill_dynamic write read
  put_dynamic-run =
      let t =
        taken-IsQueue {s = entered s} q ms p fs ready-IsQueue ready-IsPool
          (distinct-Parts ms p fs distinct) in
      let ep : (p == null) ≡ false = ==_of_ne p null pool.chain.1 in
      rw
        (
          not_full (entered s) q ms fs p ready-IsQueue ready-IsPool room,
          take_msg-run {s = entered s} q ms p fs ready-IsQueue ready-IsPool
              (distinct-Parts ms p fs distinct),
          link_msg-run
              (taken {s = entered s} q ms p fs ready-IsQueue ready-IsPool
                (distinct-Parts ms p fs distinct))
              q p ms t pool.chain.1,
          ep,
          ep,
          ep,
          queued-heap.0,
          and_then_assoc,
        )
        refl

  -- If `os_mem_malloc` of the size modulo 2 ^ 8 returns NULL, and that size is not 0,
  -- `os_msg_queue_put_dynamic` on a queue that is not full, with a message free in the pool, follows
  -- a NULL pointer. The queue and the pool are well-formed and share no message. The state of the
  -- critical sections is as `IsCritical` asks.
  pub put_dynamic-null :
      (m : Mem)
      → size % 2 ^ 8 ≢ 0
      → os_mem_malloc lay (size % 2 ^ 8) s.heap ≡ ok null m
      → os_msg_queue_put_dynamic lay q sig content size s ≡ fault
  unfolding write read memcpy
  put_dynamic-null m some none =
      let ep : (p == null) ≡ false = ==_of_ne p null pool.chain.1 in
      let es : (len == 0) ≡ false = ==_of_ne len 0 some in
      put_dynamic-run ∙ rw (none, ep, ep, ==-refl p, es) refl

  -- If `os_mem_malloc` of the size modulo 2 ^ 8 returns an address that is not NULL, and a heap such
  -- that `P`, then `os_msg_queue_put_dynamic` on a queue that is not full, with a message free in
  -- the pool, puts that message behind the queue's messages with its signal, that size and a copy of
  -- the bytes, leaves every other message and queue as it was, and the heap is such that `P`. The
  -- queue and the pool are well-formed and share no message, and the source of the bytes is not
  -- NULL. The state of the critical sections is as `IsCritical` asks.
  pub put_dynamic-Copied :
      {P : Ptr → Mem → Type 0}
      → content ≢ null
      → Returns (λ c m. (c ≢ null) × P c m) (os_mem_malloc lay (size % 2 ^ 8) s.heap)
      → Returns
          (λ _ s'.
            Appended q ms p fs s s'
            × Copied p sig content (size % 2 ^ 8) s s'
            × P (s'.content_ptr p) s'.heap)
          (os_msg_queue_put_dynamic lay q sig content size s)
  unfolding write read memcpy
  put_dynamic-Copied {P} source given =
      let ep : (p == null) ≡ false = ==_of_ne p null pool.chain.1 in
      let ef : (content == null) ≡ false = ==_of_ne content null source in
      subst
        (λ r.
          Returns
            (λ _ s'.
              Appended q ms p fs s s'
              × Copied p sig content len s s'
              × P (s'.content_ptr p) s'.heap)
            r)
        (sym put_dynamic-run)
        (on_heap-bind to_fill _ given (λ c m made.
          let ec : (c == null) ≡ false = ==_of_ne c null made.0 in
          let at : update queued.content_ptr p c p ≡ c = update_here queued.content_ptr p c in
          rw (ep, ep, at, ec, ef)
            (returns (
              filled-Appended s queued q p msg_type_dynamic sig ms fs (update queued.size p len)
                  (update queued.content_ptr p c) m (pasted queued.bytes c content len)
                  (λ x ne. update_else queued.size p x len ne)
                  (λ x ne. update_else queued.content_ptr p x c ne) ok_critical
                  (after-Appended {s = entered s} q ms p fs ready-IsQueue ready-IsPool distinct
                    room),
              record {
                sig = update_here queued.sig p sig;
                size = update_here queued.size p len;
                type = type_here queued.type p msg_type_dynamic;
                copy = λ i lt.
                    ap (λ t. pasted queued.bytes c content len (t + i)) at
                    ∙ pasted-at queued.bytes c content len i lt
                    ∙ ap (λ f. f (content + i)) queued-heap.1;
              },
              subst (λ t. P t m) (sym at) made.1,
            ))))
