-- ===== src/OsList.antt =====
-- AK-mOS/Src/os_list.c and AK-mOS/Inc/os_list.h: the circular doubly linked lists of the kernel,
-- over an explicit store of list items. An address is a number and `NULL` is 0. A `list_t` is named
-- by the address of the `end_item` that it embeds, so `&(p_list->end_item)` is the list's own name;
-- its two other fields are kept by that name. Dereferencing `NULL` is a fault.
pub mod Links
pub mod Ring
pub mod Attach
pub mod Insert
pub mod Sorted
pub mod Remove
pub mod Turn
pub mod Renew
pub mod Cursor
pub mod Store
pub mod Move
mod Examples
use ak_m_os_the_simple_rtos.Base.{
  ℕ, zero, suc, ◌+◌, ◌-◌, ◌%◌, ◌^◌, Cmd, ok, fault, hang, ◌>>=◌, ◌>>◌, pure, ◌==◌, leb,
  if◌then◌else◌, update,
}

abbrev pub Ptr : Type 0
Ptr = ℕ

abbrev pub null : Ptr
null = 0

-- `OS_CFG_DELAY_MAX` of os_cfg.h
abbrev pub os_cfg_delay_max : ℕ
os_cfg_delay_max = 0xffffffff

-- The fields of every `struct list_item`, and of every `struct list`, by address.
pub record Items : Type 0 where
  pub next : Ptr → Ptr
  pub prev : Ptr → Ptr
  pub value : Ptr → ℕ
  pub owner : Ptr → Ptr
  pub list : Ptr → Ptr
  pub curr : Ptr → Ptr
  pub num : Ptr → ℕ

-- `p->…` is a fault if `p` is `NULL`.
unfoldable pub read : (Items → Ptr → ℕ) → Ptr → Cmd Items ℕ
read field p h = if p == null then fault else ok (field h p) h

unfoldable pub write : (Items → Items) → Ptr → Cmd Items (Unit {0})
write change p h = if p == null then fault else ok tt (change h)

abbrev pub get_next : Ptr → Cmd Items Ptr
get_next = read (λ h. h.next)

abbrev pub get_prev : Ptr → Cmd Items Ptr
get_prev = read (λ h. h.prev)

abbrev pub list_item_get_value : Ptr → Cmd Items ℕ
list_item_get_value = read (λ h. h.value)

abbrev pub list_item_get_owner : Ptr → Cmd Items Ptr
list_item_get_owner = read (λ h. h.owner)

abbrev pub list_item_get_list_contain : Ptr → Cmd Items Ptr
list_item_get_list_contain = read (λ h. h.list)

abbrev pub get_curr : Ptr → Cmd Items Ptr
get_curr = read (λ h. h.curr)

abbrev pub list_get_num_item : Ptr → Cmd Items ℕ
list_get_num_item = read (λ h. h.num)

abbrev pub set_next : Ptr → Ptr → Cmd Items (Unit {0})
set_next p q = write (λ h. record h { next = update h.next p q }) p

abbrev pub set_prev : Ptr → Ptr → Cmd Items (Unit {0})
set_prev p q = write (λ h. record h { prev = update h.prev p q }) p

abbrev pub list_item_set_value : Ptr → ℕ → Cmd Items (Unit {0})
list_item_set_value p v = write (λ h. record h { value = update h.value p (v % 2 ^ 32) }) p

abbrev pub list_item_set_owner : Ptr → Ptr → Cmd Items (Unit {0})
list_item_set_owner p q = write (λ h. record h { owner = update h.owner p q }) p

abbrev pub set_list : Ptr → Ptr → Cmd Items (Unit {0})
set_list p q = write (λ h. record h { list = update h.list p q }) p

abbrev pub set_curr : Ptr → Ptr → Cmd Items (Unit {0})
set_curr l q = write (λ h. record h { curr = update h.curr l q }) l

-- `num_of_items` is a `uint16_t`.
abbrev pub set_num : Ptr → ℕ → Cmd Items (Unit {0})
set_num l n = write (λ h. record h { num = update h.num l (n % 2 ^ 16) }) l

abbrev pub list_get_head_item : Ptr → Cmd Items Ptr
list_get_head_item l = get_next l

abbrev pub list_get_head_item_value : Ptr → Cmd Items ℕ
list_get_head_item_value l = get_next l >>= list_item_get_value

abbrev pub list_get_owner_of_head_item : Ptr → Cmd Items Ptr
list_get_owner_of_head_item l = get_next l >>= list_item_get_owner

unfoldable pub os_list_init : Ptr → Cmd Items (Unit {0})
os_list_init l = do list_item_set_value l os_cfg_delay_max; set_next l l; set_prev l l; set_num l 0

unfoldable pub os_list_item_init : Ptr → Cmd Items (Unit {0})
os_list_item_init p = set_list p null

-- `(p_list->num_of_items)++`
unfoldable pub count_up : Ptr → Cmd Items (Unit {0})
count_up l = do n ← list_get_num_item l; set_num l (n + 1)

-- The two branches of `os_list_insert_end`.
unfoldable pub link_first : Ptr → Ptr → Cmd Items (Unit {0})
link_first l p = do set_next p l; set_prev p l; set_next l p; set_prev l p; set_curr l p

unfoldable pub link_last : Ptr → Ptr → Cmd Items (Unit {0})
link_last l p = do last ← get_prev l; set_next last p; set_prev p last; set_next p l; set_prev l p

unfoldable pub os_list_insert_end : Ptr → Ptr → Cmd Items (Unit {0})
os_list_insert_end l p = do
  n ← list_get_num_item l
  if n == 0 then link_first l p else link_last l p
  set_list p l
  count_up l

unfoldable pub list_item_get_next : Ptr → Cmd Items Ptr
list_item_get_next p = do
  q ← get_next p
  l ← list_item_get_list_contain p
  if l == null then (λ _. fault) else if q == l then get_next q else pure q

unfoldable pub list_item_get_prev : Ptr → Cmd Items Ptr
list_item_get_prev p = do
  q ← get_prev p
  l ← list_item_get_list_contain p
  if l == null then (λ _. fault) else if q == l then get_prev q else pure q

-- The `for` loop of `os_list_insert`, given its number of rounds.
unfoldable pub walk : ℕ → Ptr → ℕ → Cmd Items Ptr
walk zero it v = λ _. hang
walk (suc k) it v = do
  q ← get_next it
  w ← list_item_get_value q
  let rest = walk k q v
  if leb w v then rest else pure it

-- The item is linked behind `it`.
unfoldable pub link_after : Ptr → Ptr → Cmd Items (Unit {0})
link_after it p = do
  q ← get_next it
  set_next p q
  q ← get_next p
  set_prev q p
  set_prev p it
  set_next it p

-- A list of `n` items is walked in at most `n + 1` rounds.
unfoldable pub os_list_insert : Ptr → Ptr → Cmd Items (Unit {0})
os_list_insert l p = do
  n ← list_get_num_item l
  if n == 0 then os_list_insert_end l p else do
    v ← list_item_get_value p
    it ← if v == os_cfg_delay_max then get_prev l else walk (n + 1) l v
    link_after it p
    set_list p l
    count_up l

unfoldable pub unlink : Ptr → Cmd Items (Unit {0})
unlink p = do
  q ← get_next p
  r ← get_prev p
  set_prev q r
  r ← get_prev p
  q ← get_next p
  set_next r q

-- `if (p_list->curr_item_ptr == p_list_item) p_list->curr_item_ptr = p_list_item->prev_ptr;`
unfoldable pub step_back : Ptr → Ptr → Cmd Items (Unit {0})
step_back l p = do c ← get_curr l; if c == p then (do r ← get_prev p; set_curr l r) else pure tt

unfoldable pub detach : Ptr → Ptr → Cmd Items ℕ
detach l p = do
  set_list p null
  n ← list_get_num_item l
  set_num l (n + 2 ^ 16 - 1)
  list_get_num_item l

unfoldable pub os_list_remove : Ptr → Cmd Items ℕ
os_list_remove p = do l ← list_item_get_list_contain p; unlink p; step_back l p; detach l p

-- Past the end marker the cursor moves on once more.
unfoldable pub list_get_owner_of_next_item : Ptr → Cmd Items Ptr
list_get_owner_of_next_item l = do
  c ← get_curr l
  q ← get_next c
  set_curr l q
  c ← get_curr l
  if c == l then (do q ← get_next c; set_curr l q) else pure tt
  c ← get_curr l
  list_item_get_owner c
