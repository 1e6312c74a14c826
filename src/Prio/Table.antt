-- ===== src/Prio/Table.antt =====
-- What `os_prio_init`, `os_prio_insert` and `os_prio_remove` do to the set of ready priorities.
use Prim.Native.Nat.{bit_and, bit_or}
use native.Mathlib.Nat.{mod-eq_of_lt}
use ak_m_os_the_simple_rtos.Base.{
  [], ◌∷◌, ◌-◌, ℕ, ◌*◌, ◌/◌, ◌%◌, ◌<◌, ◌≤◌, ◌≡◌, refl, Bool, true, false, inl, inr, sym, arith,
  eq_of_==, ne_of_==, if◌then◌else◌, ◌==◌, Bool-cases, length, length-set, get_or, set, ok,
  get_elem?-eq-get_or, get_or-set_self, get_or-set_ne, Returns, returns, mono, zero, suc,
}
use ak_m_os_the_simple_rtos.Prio.{
  Tbl, mask, complement, row_of, bit_of, os_cfg_prio_max, os_prio_tbl_size, os_prio_insert,
  os_prio_remove, os_prio_init, clear_rows, read_row, write_row,
}
use ak_m_os_the_simple_rtos.Prio.Bits.{
  bit_test, bit_test-or, bit_test-and, bit_test-zero, mask_bytes,
}

-- A table of bytes whose rows an `uint8_t` can count.
pub record IsTbl (tbl : Tbl) : Type 0 where
  pub rows : length tbl ≤ 256
  pub bytes : (r : ℕ) → get_or tbl r 0 < 256

-- The priorities that the table has a bit for.
abbrev pub InRange : Tbl → ℕ → Type 0
InRange tbl p = p < 8 * length tbl

-- `p` is marked as having a ready task.
abbrev pub is_ready : Tbl → ℕ → Bool
is_ready tbl p = bit_test (get_or tbl (p / 8) 0) (p % 8)

read_row-ok : (tbl : Tbl) (r : ℕ) → r < length tbl → read_row r tbl ≡ ok (get_or tbl r 0) tbl
unfolding read_row
read_row-ok tbl r h = rw (get_elem?-eq-get_or tbl r 0 h, read_row)

module _ (tbl : Tbl) (r c : ℕ) (inside : r < length tbl) where
  get_or-row : (i : ℕ) → get_or (set tbl r c) i 0 ≡ (if i == r then c else get_or tbl i 0)
  get_or-row i = elim (Bool-cases (i == r)) [
    | inl e ↦ rw (e, eq_of_== i r e) (get_or-set_self tbl r c 0 inside)
    | inr e ↦ rw e (get_or-set_ne tbl c 0 (λ eq. ne_of_== i r e (sym eq)))
  ]

  row-IsTbl : c < 256 → IsTbl tbl → IsTbl (set tbl r c)
  row-IsTbl hc v = record {
    rows = omega (arith, length-set tbl r c, v.rows);
    bytes = λ i. ground (arith, get_or-row i, v.bytes i);
  }

-- A table whose row of `p` is replaced by `c`, all of whose bits but that of `p` are as they were.
abbrev pub Marked : Tbl → ℕ → Bool → Tbl → Type 0
Marked tbl p b tbl' =
    IsTbl tbl'
    × (length tbl' ≡ length tbl)
    × ((q : ℕ) → is_ready tbl' q ≡ (if q == p then b else is_ready tbl q))

module _ {tbl : Tbl} (v : IsTbl tbl) (p : ℕ) (inside : InRange tbl p) where
  row_Marked :
      (c : ℕ) (b : Bool)
      → c < 256
      → ((j : ℕ)
          → j < 8
          → bit_test c j ≡ (if j == p % 8 then b else bit_test (get_or tbl (p / 8) 0) j))
      → Marked tbl p b (set tbl (p / 8) c)
  row_Marked c b hc bits = (
    row-IsTbl tbl (p / 8) c (omega arith) hc v,
    length-set tbl (p / 8) c,
    λ q. ground (arith, get_or-row tbl (p / 8) c (omega arith) (q / 8), bits (q % 8)),
  )

  row_of_lem : row_of p ≡ p / 8
  row_of_lem = omega (arith, v.rows)

  bit_of_lem : bit_of p ≡ p % 8
  bit_of_lem = omega arith

  -- `os_prio_insert` of a priority inside a table of at most 256 bytes marks that priority and no
  -- other.
  pub insert-Marked : Returns (λ _. Marked tbl p true) (os_prio_insert p tbl)
  unfolding os_prio_insert write_row
  insert-Marked =
      let old : ℕ = get_or tbl (p / 8) 0 in
      let new : ℕ = bit_or old (mask (p % 8)) in
      let small : new < 256 = (mask_bytes old (p % 8) (v.bytes (p / 8)) (omega arith)).0 in
      rw (row_of_lem, bit_of_lem, read_row-ok tbl (p / 8) (omega arith), mod-eq_of_lt small)
        (returns (
          row_Marked new true small
            λ j lt. ground (arith, bit_test-or old (p % 8) j (v.bytes (p / 8)) (omega arith) lt)))

  -- `os_prio_remove` of a priority inside a table of at most 256 bytes clears that priority and no
  -- other.
  pub remove-Marked : Returns (λ _. Marked tbl p false) (os_prio_remove p tbl)
  unfolding os_prio_remove write_row
  remove-Marked =
      let old : ℕ = get_or tbl (p / 8) 0 in
      let new : ℕ = bit_and old (complement (mask (p % 8))) in
      let small : new < 256 = (mask_bytes old (p % 8) (v.bytes (p / 8)) (omega arith)).1 in
      rw (row_of_lem, bit_of_lem, read_row-ok tbl (p / 8) (omega arith), mod-eq_of_lt small)
        (returns (
          row_Marked new false small
            λ j lt. ground (arith, bit_test-and old (p % 8) j (v.bytes (p / 8)) (omega arith) lt)))

abbrev pub cleared : Tbl
cleared = 0 ∷ 0 ∷ []

get_or-cleared : (r : ℕ) → get_or cleared r 0 ≡ 0
get_or-cleared zero = refl
get_or-cleared (suc zero) = refl
get_or-cleared (suc (suc r)) = refl

pub cleared-IsTbl : IsTbl cleared
cleared-IsTbl = record { rows = omega arith; bytes = λ r. omega (arith, get_or-cleared r) }

pub not-ready-cleared : (q : ℕ) → is_ready cleared q ≡ false
not-ready-cleared q = rw (get_or-cleared (q / 8)) (bit_test-zero (q % 8) (omega arith))

-- Whatever its two bytes held, after `os_prio_init` the idle task's priority alone is marked.
pub init-ready :
    (tbl : Tbl)
    → length tbl ≡ os_prio_tbl_size
    → Returns
        (λ _ tbl'. IsTbl tbl' × ((q : ℕ) → is_ready tbl' q ≡ (q == os_cfg_prio_max - 1)))
        (os_prio_init tbl)
unfolding os_prio_init clear_rows os_prio_insert read_row write_row
init-ready [] h = absurd (omega arith)
init-ready (a ∷ []) h = absurd (omega arith)
init-ready (a ∷ b ∷ []) h =
    mono (insert-Marked cleared-IsTbl (os_cfg_prio_max - 1) (omega arith))
      λ _ tbl' m. (m.0, λ q. ground (arith, m.2 q, not-ready-cleared q))
init-ready (a ∷ b ∷ c ∷ t) h = absurd (omega arith)
