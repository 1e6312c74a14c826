-- ===== src/Msg/Examples.antt =====
-- The messages at concrete pools and queues.
use ak_m_os_the_simple_rtos.Base.{
  ℕ, ◌+◌, ◌*◌, ◌≡◌, refl, ◌≢◌, inl, inr, true, List, [], ◌∷◌, arith, ◌==◌, if◌then◌else◌, ok,
  Returns, mono,
}
use ak_m_os_the_simple_rtos.Kernel.{Critical, IsCritical}
use ak_m_os_the_simple_rtos.Mem.{Ptr, null}
use ak_m_os_the_simple_rtos.Msg.{
  Msgs, msg_type_pure, msg_type_dynamic, os_msg_init, os_msg_free, os_msg_queue_put_pure,
  os_msg_queue_get,
}
use ak_m_os_the_simple_rtos.Base.{fault}
use ak_m_os_the_simple_rtos.Mem.{
  Layout, Mem, mem_state_free, mem_state_busy, ensure_init, allocate, os_mem_malloc,
}
use ak_m_os_the_simple_rtos.Mem.Spec.{dealloc}
use ak_m_os_the_simple_rtos.Mem.Free.{free-dealloc}
use ak_m_os_the_simple_rtos.Mem.Blocks.{Blk, IsLayout, IsHeap}
use ak_m_os_the_simple_rtos.Mem.Safe.{Served, malloc-Served, Busy-above}
use ak_m_os_the_simple_rtos.Msg.{os_msg_queue_put_dynamic}
use ak_m_os_the_simple_rtos.Msg.Queue.{IsQueue, IsPool}
use ak_m_os_the_simple_rtos.Msg.Link.{Appended}
use ak_m_os_the_simple_rtos.Msg.Put.{Says, put_pure-Appended}
use ak_m_os_the_simple_rtos.Msg.Dynamic.{Copied, put_dynamic-null, put_dynamic-Copied}
use ak_m_os_the_simple_rtos.Msg.Get.{Got, get-Got, put-CannotPut}
use ak_m_os_the_simple_rtos.Msg.Pool.{IsArray, entries, init-IsPool, Freed, free-pure, free-dynamic}

abbrev board : Layout
board = record { mem_heap = 536870912; mem_blk_start = 536875008 }

board-IsLayout : IsLayout board
board-IsLayout = record {
  aligned = refl;
  above = omega arith;
  below = omega arith;
  start_not_null = omega arith;
  start_apart = inr (omega arith);
}

abbrev whole : Blk
whole = record { size = 3060; state = mem_state_free }

abbrev heap : Mem
heap = record {
  size = λ x. if x == 536870912 then 3060 else 0;
  state = λ x. mem_state_free;
  next = λ x. if x == 536875008 then 536870912 else null;
  end_ptr = 536870912;
  byte_available = 3060;
}

heap-IsHeap : IsHeap board heap (whole ∷ [])
heap-IsHeap = record {
  seg = (refl, refl, refl, tt);
  whole = refl;
  first = refl;
  end = refl;
  available = refl;
  aligned = (refl, tt);
}

abbrev resting : Critical
resting = record { critical_nesting_count = 0; interrupts = true }

resting-IsCritical : IsCritical resting
resting-IsCritical = record { room = omega arith; off = refl }

-- The queue at 1000 holds the message at 2000, and those at 2024 and 2048 are free.
abbrev some_msgs : Msgs
some_msgs = record {
  next = λ x. if x == 2024 then 2048 else null;
  size = λ x. 0;
  sig = λ x. 7;
  content_ptr = λ x. 536870924;
  type = λ x. if x == 3000 then msg_type_dynamic else msg_type_pure;
  head_ptr = λ x. 2000;
  tail_ptr = λ x. 2000;
  size_max = λ x. if x == 1000 then 8 else 1;
  size_curr = λ x. 1;
  free_list_msg_pool = 2024;
  msg_pool_used = 30;
  heap = heap;
  bytes = λ x. 0;
  critical = resting;
}

first-IsQueue : IsQueue some_msgs 1000 (2000 ∷ [])
first-IsQueue = record {
  not_null = λ e. cc;
  chain = (refl, λ e. cc, refl);
  tail = refl;
  count = refl;
  room = omega arith;
  byte = omega arith;
}

full-IsQueue : IsQueue some_msgs 1100 (2000 ∷ [])
full-IsQueue = record {
  not_null = λ e. cc;
  chain = (refl, λ e. cc, refl);
  tail = refl;
  count = refl;
  room = omega arith;
  byte = omega arith;
}

some_free-IsPool : IsPool some_msgs (2024 ∷ 2048 ∷ [])
some_free-IsPool = record { chain = (refl, λ e. cc, (refl, λ e. cc, refl)); count = refl }

put_pure-Appended_example :
    Returns
      (λ _ s'. Appended 1000 (2000 ∷ []) 2024 (2048 ∷ []) some_msgs s' × Says 2024 5 s')
      (os_msg_queue_put_pure 1000 5 some_msgs)
put_pure-Appended_example =
    put_pure-Appended 1000 5 (2000 ∷ []) 2024 (2048 ∷ []) resting-IsCritical first-IsQueue
      some_free-IsPool (refl, (refl, (refl, tt))) (omega arith)

get-Got_example :
    Returns (λ p s'. (p ≡ 2000) × Got 1000 [] some_msgs s') (os_msg_queue_get 1000 some_msgs)
get-Got_example = get-Got 1000 (2000 ∷ []) first-IsQueue

put-CannotPut_example :
    (os_msg_queue_put_pure 1100 5 some_msgs ≡ ok tt some_msgs)
    × (os_msg_queue_put_dynamic board 1100 5 9000 30 some_msgs ≡ ok tt some_msgs)
put-CannotPut_example =
    put-CannotPut board 1100 5 9000 30 (2000 ∷ []) (2024 ∷ 2048 ∷ []) resting-IsCritical
      full-IsQueue some_free-IsPool (inl refl)

malloc_30 :
    Returns
      (λ c m.
        (c ≢ null) × ((cs : List Blk) × IsHeap board m cs × Served board 30 (whole ∷ []) c cs))
      (os_mem_malloc board 30 heap)
malloc_30 =
    mono (malloc-Served 30 (whole ∷ []) board-IsLayout heap-IsHeap (inl refl) (omega arith))
      (λ c m h. elim h.2 [
        | inl none ↦ absurd (elim none.2 [ inl z ↦ cc | inr n ↦ cc ])
        | inr g ↦ (λ e. absurd (omega (arith, e, Busy-above c g.k 536870912 h.0 g.busy)), h)
      ])

put_dynamic-Copied_example :
    Returns
      (λ _ s'.
        Appended 1000 (2000 ∷ []) 2024 (2048 ∷ []) some_msgs s'
        × Copied 2024 5 9000 30 some_msgs s'
        × ((cs : List Blk) × IsHeap board s'.heap cs
            × Served board 30 (whole ∷ []) (s'.content_ptr 2024) cs))
      (os_msg_queue_put_dynamic board 1000 5 9000 30 some_msgs)
put_dynamic-Copied_example =
    put_dynamic-Copied board 1000 5 9000 30 (2000 ∷ []) 2024 (2048 ∷ []) resting-IsCritical
      first-IsQueue some_free-IsPool (refl, (refl, (refl, tt))) (omega arith) (λ e. cc) malloc_30

abbrev array : ℕ → Ptr
array i = 2000 + 24 * i

array-IsArray : IsArray array
array-IsArray = record {
  not_null = λ i lt e. omega (arith, e);
  apart = λ i j lt lt' e. omega (arith, e, lt);
}

init-IsPool_example :
    Returns
      (λ _ s'. IsPool s' (entries array 32 0) × (s'.critical ≡ some_msgs.critical))
      (os_msg_init array some_msgs)
init-IsPool_example = init-IsPool array some_msgs array-IsArray resting-IsCritical

free-pure_example :
    Returns
      (λ _ s'. Freed 2000 (2024 ∷ 2048 ∷ []) some_msgs s' × (s'.heap ≡ some_msgs.heap))
      (os_msg_free board 2000 some_msgs)
free-pure_example =
    free-pure board 2000 (2024 ∷ 2048 ∷ []) resting-IsCritical some_free-IsPool (λ e. cc) refl
      (omega arith) refl

abbrev taken_blk : Blk
taken_blk = record { size = 3060; state = mem_state_busy }

abbrev full_heap : Mem
full_heap = record heap {
  state = λ x. if x == 536870912 then mem_state_busy else mem_state_free;
  byte_available = 0;
}

full_heap-IsHeap : IsHeap board full_heap (taken_blk ∷ [])
full_heap-IsHeap = record {
  seg = (refl, refl, refl, tt);
  whole = refl;
  first = refl;
  end = refl;
  available = refl;
  aligned = (refl, tt);
}

abbrev full_msgs : Msgs
full_msgs = record some_msgs { heap = full_heap }

malloc_full : os_mem_malloc board 30 full_heap ≡ ok null full_heap
unfolding os_mem_malloc ensure_init allocate
malloc_full = refl

put_dynamic-null_example : os_msg_queue_put_dynamic board 1000 5 9000 30 full_msgs ≡ fault
put_dynamic-null_example =
    put_dynamic-null board 1000 5 9000 30 (2000 ∷ []) 2024 (2048 ∷ []) resting-IsCritical
      (record {
        not_null = first-IsQueue.not_null;
        chain = first-IsQueue.chain;
        tail = first-IsQueue.tail;
        count = first-IsQueue.count;
        room = first-IsQueue.room;
        byte = first-IsQueue.byte;
      })
      (record { chain = some_free-IsPool.chain; count = some_free-IsPool.count })
      (refl, (refl, (refl, tt))) (omega arith) full_heap (omega arith) malloc_full

free-dynamic_example :
    Returns
      (λ _ s'.
        Freed 3000 (2024 ∷ 2048 ∷ []) full_msgs s' × IsHeap board s'.heap (dealloc [] taken_blk []))
      (os_msg_free board 3000 full_msgs)
free-dynamic_example =
    free-dynamic board 3000 (2024 ∷ 2048 ∷ []) resting-IsCritical
      (record { chain = (refl, λ e. cc, (refl, λ e. cc, refl)); count = refl }) (λ e. cc) refl
      (omega arith) refl (free-dealloc board-IsLayout [] taken_blk [] refl refl full_heap-IsHeap)
