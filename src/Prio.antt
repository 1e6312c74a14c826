-- ===== src/Prio.antt =====
-- AK-mOS/Src/os_prio.c: the bitmap of the priorities that have a ready task. The state is
-- `prio_tbl`; `prio_curr` is read by `os_prio_get_curr` alone and written by nothing.
pub mod Bits
pub mod Table
pub mod Highest
mod Examples
use Prim.Native.Nat.{bit_and, bit_or}
use ak_m_os_the_simple_rtos.Base.{
  ℕ, zero, suc, ◌+◌, ◌-◌, ◌/◌, ◌%◌, ◌^◌, none, some, List, [], ◌∷◌, Cmd, ok, fault, hang, ◌>>=◌,
  ◌>>◌, pure, ◌==◌, if◌then◌else◌, get_elem?, set, add32,
}

-- `OS_CFG_PRIO_MAX` of os_cfg.h
abbrev pub os_cfg_prio_max : ℕ
os_cfg_prio_max = 10

-- `OS_PRIO_TBL_SIZE` of os_prio.h
abbrev pub os_prio_tbl_size : ℕ
os_prio_tbl_size = (os_cfg_prio_max - 1) / 8 + 1

-- `prio_tbl`, an array of `uint8_t`
abbrev pub Tbl : Type 0
Tbl = List ℕ

-- `(uint8_t)1u << ((8u - 1u) - bit)`
abbrev pub mask : ℕ → ℕ
mask bit = 2 ^ (7 - bit)

-- `~m`, as far as the low byte goes, for a mask `m` of one byte
abbrev pub complement : ℕ → ℕ
complement m = 255 - m

abbrev pub row_of : ℕ → ℕ
row_of prio = prio / 8 % 256

abbrev pub bit_of : ℕ → ℕ
bit_of prio = prio % 256 % 8

-- `prio_tbl[row]`, a fault outside the array
unfoldable pub read_row : ℕ → Cmd Tbl ℕ
read_row row tbl = elim (get_elem? tbl row) [ none ↦ fault | some b ↦ ok b tbl ]

unfoldable pub write_row : ℕ → ℕ → Cmd Tbl (Unit {0})
write_row row b tbl = ok tt (set tbl row (b % 256))

unfoldable pub os_prio_insert : ℕ → Cmd Tbl (Unit {0})
os_prio_insert prio = do
  b ← read_row (row_of prio)
  write_row (row_of prio) (bit_or b (mask (bit_of prio)))

unfoldable pub os_prio_remove : ℕ → Cmd Tbl (Unit {0})
os_prio_remove prio = do
  b ← read_row (row_of prio)
  write_row (row_of prio) (bit_and b (complement (mask (bit_of prio))))

-- the loop of `os_prio_init` over the entries from `i` on, `n` of them
unfoldable pub clear_rows : ℕ → ℕ → Cmd Tbl (Unit {0})
clear_rows zero i = pure tt
clear_rows (suc n) i = do _ ← read_row i; write_row i 0; clear_rows n (i + 1)

unfoldable pub os_prio_init : Cmd Tbl (Unit {0})
os_prio_init = clear_rows os_prio_tbl_size 0 >> os_prio_insert (os_cfg_prio_max - 1)

-- The first loop of `os_prio_get_highest`, over the rows from `p_tbl` on. It gives the row that it
-- stops at beside `prio`; past the last row it reads outside the array.
unfoldable pub skip_rows : List ℕ → ℕ → Cmd Tbl (ℕ × ℕ)
skip_rows [] prio = λ _. fault
skip_rows (b ∷ rest) prio = if b == 0 then skip_rows rest (add32 prio 8) else pure (b, prio)

-- The second loop, on the row `b`, given its number of rounds.
unfoldable pub find_bit : ℕ → ℕ → ℕ → Cmd Tbl ℕ
find_bit zero b prio = λ _. hang
find_bit (suc k) b prio =
    let rest = find_bit k b (add32 prio 1) in
    if bit_and b (mask (bit_of prio)) == 0 then rest else pure prio

-- Eight rounds see every bit of a row.
unfoldable pub os_prio_get_highest : Cmd Tbl ℕ
os_prio_get_highest tbl = (do (b, prio) ← skip_rows tbl 0; find_bit 8 b prio) tbl
