-- ===== src/Msg.antt =====
-- AK-mOS/Src/os_msg.c and AK-mOS/Inc/os_msg.h: the pool of messages and the queues that the tasks
-- own. The state holds the fields of each `msg_t` and of each `msg_queue_t` by its address, the
-- heap's headers, the bytes of the contents, and the state of the critical sections. The addresses
-- of the entries of `msg_pool` are a parameter. Dereferencing `NULL` is a fault, also inside a
-- `memcpy` of at least one byte. `os_assert` only writes to the log.
pub mod Queue
pub mod Link
pub mod Put
pub mod Dynamic
pub mod Get
pub mod Pool
mod Examples
use ak_m_os_the_simple_rtos.Base.{
  ℕ, zero, suc, ◌+◌, ◌-◌, ◌%◌, ◌^◌, Bool, true, false, not, ◌&&◌, ◌||◌, Run, Cmd, ok, fault, hang,
  ◌>>=◌, ◌>>◌, pure, ◌==◌, leb, ltb, if◌then◌else◌, update,
}
use ak_m_os_the_simple_rtos.Kernel.{Critical, os_critical_enter, os_critical_exit}
use ak_m_os_the_simple_rtos.Mem.{Ptr, null, Mem, Layout, os_mem_malloc, os_mem_free}

-- `msg_type_t`
pub data MsgType : Type 0 where
  msg_type_pure msg_type_dynamic : MsgType

abbrev pub is_dynamic : MsgType → Bool
is_dynamic msg_type_pure = false
is_dynamic msg_type_dynamic = true

-- `OS_CFG_MSG_POOL_SIZE` of os_cfg.h
abbrev pub os_cfg_msg_pool_size : ℕ
os_cfg_msg_pool_size = 32

-- The fields of every `struct msg` and `struct msg_queue` by address, and the static variables.
pub record Msgs : Type 0 where
  pub next : Ptr → Ptr
  pub size : Ptr → ℕ
  pub sig : Ptr → ℕ
  pub content_ptr : Ptr → Ptr
  pub type : Ptr → MsgType
  pub head_ptr : Ptr → Ptr
  pub tail_ptr : Ptr → Ptr
  pub size_max : Ptr → ℕ
  pub size_curr : Ptr → ℕ
  pub free_list_msg_pool : Ptr
  pub msg_pool_used : ℕ
  pub heap : Mem
  pub bytes : Ptr → ℕ
  pub critical : Critical

unfoldable pub read : {A : Type 0} → (Msgs → Ptr → A) → Ptr → Cmd Msgs A
read field p s = if p == null then fault else ok (field s p) s

unfoldable pub write : (Msgs → Msgs) → Ptr → Cmd Msgs (Unit {0})
write change p s = if p == null then fault else ok tt (change s)

abbrev pub get_next : Ptr → Cmd Msgs Ptr
get_next = read (λ s. s.next)

abbrev pub set_next : Ptr → Ptr → Cmd Msgs (Unit {0})
set_next p q = write (λ s. record s { next = update s.next p q }) p

abbrev pub set_head : Ptr → Ptr → Cmd Msgs (Unit {0})
set_head q p = write (λ s. record s { head_ptr = update s.head_ptr q p }) q

abbrev pub set_tail : Ptr → Ptr → Cmd Msgs (Unit {0})
set_tail q p = write (λ s. record s { tail_ptr = update s.tail_ptr q p }) q

abbrev pub set_size_max : Ptr → ℕ → Cmd Msgs (Unit {0})
set_size_max q n = write (λ s. record s { size_max = update s.size_max q n }) q

abbrev pub set_size_curr : Ptr → ℕ → Cmd Msgs (Unit {0})
set_size_curr q n = write (λ s. record s { size_curr = update s.size_curr q n }) q

abbrev pub set_type : Ptr → MsgType → Cmd Msgs (Unit {0})
set_type p t = write (λ s. record s { type = update s.type p t }) p

abbrev pub set_sig : Ptr → ℕ → Cmd Msgs (Unit {0})
set_sig p n = write (λ s. record s { sig = update s.sig p n }) p

abbrev pub set_size : Ptr → ℕ → Cmd Msgs (Unit {0})
set_size p n = write (λ s. record s { size = update s.size p n }) p

abbrev pub set_content : Ptr → Ptr → Cmd Msgs (Unit {0})
set_content p c = write (λ s. record s { content_ptr = update s.content_ptr p c }) p

abbrev pub get_free : Cmd Msgs Ptr
get_free s = ok s.free_list_msg_pool s

abbrev pub set_free : Ptr → Cmd Msgs (Unit {0})
set_free p s = ok tt (record s { free_list_msg_pool = p })

abbrev pub get_used : Cmd Msgs ℕ
get_used s = ok s.msg_pool_used s

abbrev pub set_used : ℕ → Cmd Msgs (Unit {0})
set_used n s = ok tt (record s { msg_pool_used = n % 2 ^ 8 })

abbrev pub enter_critical : Cmd Msgs (Unit {0})
enter_critical s = ok tt (record s { critical = os_critical_enter s.critical })

abbrev pub exit_critical : Cmd Msgs (Unit {0})
exit_critical s = ok tt (record s { critical = os_critical_exit s.critical })

abbrev pub with_heap : {A : Type 0} → Msgs → Run Mem A → Run Msgs A
with_heap s (ok a m) = ok a (record s { heap = m })
with_heap s fault = fault
with_heap s hang = hang

-- A call of the allocator.
abbrev pub on_heap : {A : Type 0} → Cmd Mem A → Cmd Msgs A
on_heap c s = with_heap s (c s.heap)

-- `memcpy(d, from, n)` of the C library; no bytes can be copied from and to any address
unfoldable pub memcpy : Ptr → Ptr → ℕ → Cmd Msgs (Unit {0})
memcpy d from n s =
    if (d == null || from == null) && not (n == 0)
    then fault
    else ok tt (record s {
      bytes = λ x. if leb d x && ltb x (d + n) then s.bytes (from + (x - d)) else s.bytes x;
    })

-- The loop of `msg_pool_init` over the `n` entries from `index` on, whose addresses `pool` gives.
unfoldable pub link_pool : (ℕ → Ptr) → ℕ → ℕ → Cmd Msgs (Unit {0})
link_pool pool zero index = pure tt
link_pool pool (suc n) index = do
  set_next (pool index) (if index == os_cfg_msg_pool_size - 1 then null else pool (index + 1))
  link_pool pool n (index + 1)

unfoldable pub os_msg_init : (ℕ → Ptr) → Cmd Msgs (Unit {0})
os_msg_init pool = do
  enter_critical
  set_free (pool 0)
  link_pool pool os_cfg_msg_pool_size 0
  set_used 0
  exit_critical

-- `msg_pool_used--`
unfoldable pub os_msg_free : Layout → Ptr → Cmd Msgs (Unit {0})
os_msg_free lay p = do
  enter_critical
  f ← get_free
  set_next p f
  set_free p
  t ← read (λ s. s.type) p
  if is_dynamic t
      then (do c ← read (λ s. s.content_ptr) p; on_heap (os_mem_free lay c))
      else pure tt
  u ← get_used
  set_used (u + 2 ^ 8 - 1)
  exit_critical

unfoldable pub os_msg_queue_init : Ptr → ℕ → Cmd Msgs (Unit {0})
os_msg_queue_init q size = do
  set_head q null
  set_tail q null
  set_size_max q size
  set_size_curr q 0

-- A message is taken from the pool.
unfoldable pub take_msg : Cmd Msgs Ptr
take_msg = do p ← get_free; f ← get_next p; set_free f; u ← get_used; set_used (u + 1); pure p

-- A message is put at the end of the queue.
unfoldable pub link_msg : Ptr → Ptr → Cmd Msgs (Unit {0})
link_msg q p = do
  n ← read (λ s. s.size_curr) q
  if n == 0 then (do set_head q p; set_tail q p; set_size_curr q 1; set_next p null) else (do
    t ← read (λ s. s.tail_ptr) q
    set_next t p
    set_tail q p
    set_next p null
    n ← read (λ s. s.size_curr) q
    set_size_curr q ((n + 1) % 2 ^ 8))

-- The two guards of a put: the queue is full, or the pool is used up.
unfoldable pub is_full : Ptr → Cmd Msgs Bool
is_full q = do
  n ← read (λ s. s.size_curr) q
  m ← read (λ s. s.size_max) q
  u ← get_used
  pure (leb m n || leb os_cfg_msg_pool_size u)

unfoldable pub fill_dynamic : Layout → Ptr → ℕ → Ptr → ℕ → Cmd Msgs (Unit {0})
fill_dynamic lay p sig content size = do
  set_type p msg_type_dynamic
  set_sig p sig
  set_size p size
  c ← on_heap (os_mem_malloc lay size)
  set_content p c
  c ← read (λ s. s.content_ptr) p
  memcpy c content size

-- `size` is a `uint8_t`.
unfoldable pub os_msg_queue_put_dynamic : Layout → Ptr → ℕ → Ptr → ℕ → Cmd Msgs (Unit {0})
os_msg_queue_put_dynamic lay q sig content size = do
  enter_critical
  full ← is_full q
  if full
      then pure tt
      else (do p ← take_msg; link_msg q p; fill_dynamic lay p sig content (size % 2 ^ 8))
  exit_critical

unfoldable pub os_msg_queue_put_pure : Ptr → ℕ → Cmd Msgs (Unit {0})
os_msg_queue_put_pure q sig = do
  enter_critical
  full ← is_full q
  if full then pure tt else (do p ← take_msg; link_msg q p; set_type p msg_type_pure; set_sig p sig)
  exit_critical

unfoldable pub os_msg_queue_get : Ptr → Cmd Msgs Ptr
os_msg_queue_get q = do
  n ← read (λ s. s.size_curr) q
  if n == 0 then pure null else do
    p ← read (λ s. s.head_ptr) q
    f ← get_next p
    set_head q f
    if n == 1
        then (do set_head q null; set_tail q null; set_size_curr q 0)
        else set_size_curr q (n - 1)
    pure p

-- The content and its size.
unfoldable pub os_msg_get_dynamic_data : Ptr → Cmd Msgs (Ptr × ℕ)
os_msg_get_dynamic_data p = do
  n ← read (λ s. s.size) p
  c ← read (λ s. s.content_ptr) p
  pure (c, n)

-- Its text is that of `os_msg_queue_get`.
unfoldable pub os_msg_queue_get_pure : Ptr → Cmd Msgs Ptr
os_msg_queue_get_pure = os_msg_queue_get

unfoldable pub os_msg_get_pure_data : Ptr → Cmd Msgs ℕ
os_msg_get_pure_data p = read (λ s. s.sig) p
