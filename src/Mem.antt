-- ===== src/Mem.antt =====
-- AK-mOS/Src/os_mem.c and AK-mOS/Inc/os_mem.h: the first-fit allocator. The state holds the fields
-- of every `mem_blk_header_t` by its address; the payload of a block is not part of it. Where the
-- linker puts the two statics `mem_heap` and `mem_blk_start` is a parameter. Addresses, `size_t`
-- and `uint32_t` are 32 bits wide, so a header takes 12 bytes. Dereferencing `NULL` is a fault.
pub mod Blocks
pub mod Spec
pub mod Search
pub mod Replace
pub mod Give
pub mod Malloc
pub mod Merge
pub mod Walk
pub mod Free
pub mod Safe
pub mod Start
pub mod Again
pub mod Undo
mod Examples
use Prim.Native.Nat.{bit_and}
use ak_m_os_the_simple_rtos.Base.{
  ℕ, zero, suc, ◌+◌, ◌-◌, ◌*◌, ◌%◌, ◌^◌, Bool, true, false, not, ◌&&◌, ◌||◌, Cmd, ok, fault, hang,
  ◌>>=◌, ◌>>◌, pure, ◌==◌, ltb, if◌then◌else◌, update, add32, sub32,
}

abbrev pub Ptr : Type 0
Ptr = ℕ

abbrev pub null : Ptr
null = 0

-- `mem_state_t`
pub data MemState : Type 0 where
  mem_state_free mem_state_busy : MemState

abbrev pub is_free : MemState → Bool
is_free mem_state_free = true
is_free mem_state_busy = false

-- The static variables and the headers, by address. `end_ptr` is `mem_blk_end_ptr`.
pub record Mem : Type 0 where
  pub size : Ptr → ℕ
  pub state : Ptr → MemState
  pub next : Ptr → Ptr
  pub end_ptr : Ptr
  pub byte_available : ℕ

-- The addresses of `mem_heap` and of `mem_blk_start`.
pub record Layout : Type 0 where
  pub mem_heap : Ptr
  pub mem_blk_start : Ptr

-- `OS_CFG_HEAP_SIZE` of os_cfg.h
abbrev pub os_cfg_heap_size : ℕ
os_cfg_heap_size = 1024 * 3

abbrev pub alignment : ℕ
alignment = 4

-- `& ~(ALIGNMENT - 1)` clears the two lowest bits.
abbrev pub mem_align : ℕ → ℕ
mem_align size = let padded : ℕ = add32 size (alignment - 1) in padded - padded % alignment

abbrev pub min_size_to_split : ℕ
min_size_to_split = 8

abbrev pub size_of_block_header : ℕ
size_of_block_header = 12

unfoldable pub get_size : Ptr → Cmd Mem ℕ
get_size p m = if p == null then fault else ok (m.size p) m

unfoldable pub get_state : Ptr → Cmd Mem MemState
get_state p m = if p == null then fault else ok (m.state p) m

unfoldable pub get_next : Ptr → Cmd Mem Ptr
get_next p m = if p == null then fault else ok (m.next p) m

unfoldable pub set_size : Ptr → ℕ → Cmd Mem (Unit {0})
set_size p n m = if p == null then fault else ok tt (record m { size = update m.size p n })

unfoldable pub set_state : Ptr → MemState → Cmd Mem (Unit {0})
set_state p s m = if p == null then fault else ok tt (record m { state = update m.state p s })

unfoldable pub set_next : Ptr → Ptr → Cmd Mem (Unit {0})
set_next p q m = if p == null then fault else ok tt (record m { next = update m.next p q })

abbrev pub get_end : Cmd Mem Ptr
get_end m = ok m.end_ptr m

abbrev pub set_end : Ptr → Cmd Mem (Unit {0})
set_end p m = ok tt (record m { end_ptr = p })

abbrev pub get_available : Cmd Mem ℕ
get_available m = ok m.byte_available m

abbrev pub set_available : ℕ → Cmd Mem (Unit {0})
set_available n m = ok tt (record m { byte_available = n })

-- `OS_CFG_HEAP_SIZE` bytes hold at most 256 headers, so this many rounds see every block.
abbrev pub rounds : ℕ
rounds = 257

module _ (lay : Layout) where
  -- The first block's address and the bytes from there on. The code masks the address with
  -- `ALIGNMENT`, and not with its complement.
  unfoldable pub heap_bounds : Ptr × ℕ
  heap_bounds =
      let heap_addr : Ptr = bit_and (add32 lay.mem_heap (alignment - 1)) alignment in
      if lay.mem_heap % alignment == 0
      then (lay.mem_heap, os_cfg_heap_size)
      else (heap_addr, sub32 os_cfg_heap_size (sub32 heap_addr lay.mem_heap))

  unfoldable pub os_mem_heap_init : Cmd Mem (Unit {0})
  os_mem_heap_init = do
    let (heap_addr, total_heap_size) = heap_bounds
    set_end heap_addr
    set_size heap_addr (sub32 total_heap_size size_of_block_header)
    set_state heap_addr mem_state_free
    set_next heap_addr null
    set_size lay.mem_blk_start 0
    set_next lay.mem_blk_start heap_addr
    set_available (sub32 total_heap_size size_of_block_header)

  -- `if (mem_blk_end_ptr == NULL) os_mem_heap_init();`
  unfoldable pub ensure_init : Cmd Mem (Unit {0})
  ensure_init = do e ← get_end; if e == null then os_mem_heap_init else pure tt

-- The search of `os_mem_malloc`, given its number of rounds.
unfoldable pub first_fit : ℕ → ℕ → Ptr → Cmd Mem Ptr
first_fit zero size p = λ _. hang
first_fit (suc k) size p = do
  e ← get_end
  let rest = (do q ← get_next p; first_fit k size q)
  if p == e then pure p else do
    n ← get_size p
    s ← get_state p
    if ltb n size || not (is_free s) then rest else pure p

-- The block keeps `size` bytes, and what is left behind them becomes a block of its own.
unfoldable pub split_block : ℕ → Ptr → Cmd Mem Ptr
split_block size p = do
  let new_block : Ptr = p + size_of_block_header + size
  n ← get_size p
  set_size new_block (sub32 (sub32 n size) size_of_block_header)
  set_state new_block mem_state_free
  q ← get_next p
  set_next new_block q
  q ← get_next new_block
  if q == null then set_end new_block else pure tt
  set_size p size
  set_state p mem_state_busy
  set_next p new_block
  a ← get_available
  set_available (sub32 a (size + size_of_block_header))
  pure (p + size_of_block_header)

unfoldable pub take_block : Ptr → Cmd Mem Ptr
take_block p = do
  set_state p mem_state_busy
  n ← get_size p
  a ← get_available
  set_available (sub32 a n)
  pure (p + size_of_block_header)

-- What `os_mem_malloc` does with the block that the search stopped at.
unfoldable pub use_block : ℕ → Ptr → Cmd Mem Ptr
use_block size p = if p == null then pure null else do
  e ← get_end
  n ← get_size p
  if p == e && ltb n size
      then pure null
      else if ltb min_size_to_split (sub32 n size)
      then split_block size p
      else take_block p

module _ (lay : Layout) where
  -- `os_mem_malloc` once the size is aligned.
  unfoldable pub allocate : ℕ → Cmd Mem Ptr
  allocate size = do
    a ← get_available
    if size == 0 || ltb a size
        then pure null
        else do p ← get_next lay.mem_blk_start; p ← first_fit rounds size p; use_block size p

  unfoldable pub os_mem_malloc : ℕ → Cmd Mem Ptr
  os_mem_malloc wanted = do ensure_init lay; allocate (mem_align wanted)

-- The loop of `os_mem_free`, given its number of rounds: the block before the one that it stops at,
-- and that block.
unfoldable pub find_block : ℕ → Ptr → Ptr → Ptr → Cmd Mem (Ptr × Ptr)
find_block zero p prev temp = λ _. hang
find_block (suc k) p prev temp = do
  e ← get_end
  let rest = (do q ← get_next temp; find_block k p temp q)
  if temp == e || temp == p then pure (prev, temp) else rest

-- `byte_available += n`
unfoldable pub give_back : ℕ → Cmd Mem (Unit {0})
give_back n = do a ← get_available; set_available (add32 a n)

-- `p->size += q->size + SIZE_OF_BLOCK_HEADER; p->next_ptr = q->next_ptr;`
unfoldable pub swallow : Ptr → Ptr → Cmd Mem (Unit {0})
swallow p q = do
  give_back size_of_block_header
  n ← get_size p
  k ← get_size q
  set_size p (add32 n (add32 k size_of_block_header))
  r ← get_next q
  set_next p r

unfoldable pub merge_next : Ptr → Cmd Mem (Unit {0})
merge_next p = do
  q ← get_next p
  if q == null then pure tt else do
    s ← get_state q
    if is_free s
        then (do swallow p q; r ← get_next p; if r == null then set_end p else pure tt)
        else pure tt

-- `mem_blk_end_ptr` is not moved here.
unfoldable pub merge_prev : Ptr → Ptr → Ptr → Cmd Mem (Unit {0})
merge_prev start prev p = do
  s ← get_state prev
  if is_free s && not (prev == start) then swallow prev p else pure tt

unfoldable pub release : Ptr → Ptr → Ptr → Cmd Mem (Unit {0})
release start prev p = if p == null then pure tt else do
  n ← get_size p
  give_back n
  set_state p mem_state_free
  merge_next p
  merge_prev start prev p

module _ (lay : Layout) where
  unfoldable pub os_mem_free : Ptr → Cmd Mem (Unit {0})
  os_mem_free p_addr = do
    ensure_init lay
    e ← get_end
    n ← get_size e
    first ← get_next lay.mem_blk_start
    let p_block : Ptr = sub32 p_addr size_of_block_header
    if ltb (e + size_of_block_header + n) p_addr || ltb p_block first then pure tt else do
      s ← get_state p_block
      if is_free s then pure tt else do
        (prev, p) ← find_block (rounds + 1) p_block lay.mem_blk_start lay.mem_blk_start
        release lay.mem_blk_start prev p
