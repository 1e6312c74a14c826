-- ===== src/Prio/Highest.antt =====
-- `os_prio_get_highest` finds the most urgent ready priority, the least number.
use Prim.Native.Nat.{bit_and, pred}
use native.Mathlib.Decide.{dec_lt}
use ak_m_os_the_simple_rtos.Base.{
  ℕ, zero, suc, ◌+◌, ◌*◌, ◌/◌, ◌%◌, ◌^◌, ◌<◌, ◌≤◌, ◌≡◌, refl, ◌≢◌, true, false, inl, inr, List, [],
  ◌∷◌, arith, ◌==◌, eq_of_==, ne_of_==, Bool-cases, length, get_or, ok, Returns, returns, add32,
}
use ak_m_os_the_simple_rtos.Prio.{Tbl, mask, bit_of, skip_rows, find_bit, os_prio_get_highest}
use ak_m_os_the_simple_rtos.Prio.Bits.{bit_test, bit_test-zero, bit_of_ne_zero}
use ak_m_os_the_simple_rtos.Prio.Table.{IsTbl, is_ready}

later :
    (b : ℕ) (rest : List ℕ) (j : ℕ) → b ≡ 0 → get_or (b ∷ rest) j 0 ≢ 0 → get_or rest (pred j) 0 ≢ 0
later b rest zero e ne = λ _. ne e
later b rest (suc j) e ne = ne

-- The first row that is not zero, and the run that stops there.
record FirstRow (rows : List ℕ) (prio : ℕ) (tbl : Tbl) : Type 0 where
  k : ℕ
  run : skip_rows rows prio tbl ≡ ok (get_or rows k 0, prio + 8 * k) tbl
  found : get_or rows k 0 ≢ 0
  inside : k < length rows
  before : (i : ℕ) → i < k → get_or rows i 0 ≡ 0

zeros_before :
    (b : ℕ) (rest : List ℕ) (k : ℕ)
    → b ≡ 0
    → ((i : ℕ) → i < k → get_or rest i 0 ≡ 0)
    → (i : ℕ) → i < suc k
    → get_or (b ∷ rest) i 0 ≡ 0
zeros_before b rest k e h zero lt = e
zeros_before b rest k e h (suc i) lt = h i (omega arith)

FirstRow-skip :
    (b : ℕ) (rest : List ℕ) (prio : ℕ) (tbl : Tbl)
    → b ≡ 0
    → prio + 8 < 2 ^ 32
    → FirstRow rest (add32 prio 8) tbl
    → FirstRow (b ∷ rest) prio tbl
unfolding skip_rows
FirstRow-skip b rest prio tbl e small r = record {
  k = suc r.k;
  run = ground (arith, r.run);
  found = r.found;
  inside = omega (arith, r.inside);
  before = zeros_before b rest r.k e r.before;
}

skip_rows-first :
    (rows : List ℕ) (prio j : ℕ) (tbl : Tbl)
    → prio + 8 * length rows < 2 ^ 32
    → get_or rows j 0 ≢ 0
    → FirstRow rows prio tbl
unfolding skip_rows
skip_rows-first [] prio j tbl small ne = absurd (ne refl)
skip_rows-first (b ∷ rest) prio j tbl small ne = elim (Bool-cases (b == 0)) [
  | inl e ↦ FirstRow-skip b rest prio tbl (eq_of_== b 0 e) (omega arith) (
      skip_rows-first rest (add32 prio 8) (pred j) tbl (omega arith)
        (later b rest j (eq_of_== b 0 e) ne))
  | inr e ↦ record {
    k = 0;
    run = ground arith;
    found = ne_of_== b 0 e;
    inside = omega arith;
    before = λ i h. absurd (omega arith);
  }
]

-- The first bit of `b` from `i` on that is set, and the run that stops there.
record FirstBit (fuel b r i : ℕ) (tbl : Tbl) : Type 0 where
  m : ℕ
  run : find_bit fuel b (8 * r + i) tbl ≡ ok (8 * r + m) tbl
  found : bit_test b m ≡ true
  inside : m < 8
  before : (q : ℕ) → i ≤ q → q < m → bit_test b q ≡ false

bit_and_of_off : (b i : ℕ) → bit_test b i ≡ false → (bit_and b (mask i) == 0) ≡ true
unfolding bit_test
bit_and_of_off b i off = ground arith

bit_and_of_on : (b i : ℕ) → bit_test b i ≡ true → (bit_and b (mask i) == 0) ≡ false
unfolding bit_test
bit_and_of_on b i on = ground arith

FirstBit-skip :
    (fuel b r i : ℕ) (tbl : Tbl)
    → r < 2 ^ 28
    → i < 8
    → bit_test b i ≡ false
    → FirstBit fuel b r (i + 1) tbl
    → FirstBit (suc fuel) b r i tbl
unfolding find_bit
FirstBit-skip fuel b r i tbl small lt off f = record {
  m = f.m;
  run = rw (at_bit, bit_and_of_off b i off, step) f.run;
  found = f.found;
  inside = f.inside;
  before = λ q le lt. elim (Bool-cases (q == i)) [
    | inl e ↦ rw (eq_of_== q i e) off
    | inr e ↦ f.before q (ground arith) lt
  ];
}
  where
    at_bit : bit_of (8 * r + i) ≡ i
    at_bit = omega arith

    step : (8 * r + i + 1) % 2 ^ 32 ≡ 8 * r + (i + 1)
    step = omega arith

find_bit-here :
    (fuel b r i : ℕ) (tbl : Tbl)
    → i < 8
    → bit_test b i ≡ true
    → find_bit (suc fuel) b (8 * r + i) tbl ≡ ok (8 * r + i) tbl
unfolding find_bit
find_bit-here fuel b r i tbl lt on =
    let at_bit : bit_of (8 * r + i) ≡ i = omega arith in rw (at_bit, bit_and_of_on b i on)

find_bit-first :
    (fuel b r i j : ℕ) (tbl : Tbl)
    → r < 2 ^ 28
    → i ≤ j
    → j < i + fuel
    → j < 8
    → bit_test b j ≡ true
    → FirstBit fuel b r i tbl
find_bit-first zero b r i j tbl small le lt lt8 set = absurd (omega arith)
find_bit-first (suc fuel) b r i j tbl small le lt lt8 set = elim (Bool-cases (bit_test b i)) [
  | inl e ↦ record {
    m = i;
    run = find_bit-here fuel b r i tbl (omega arith) e;
    found = e;
    inside = omega arith;
    before = λ q le lt. absurd (omega arith);
  }
  | inr e ↦
      let ne : i ≢ j = λ p. cc in
      FirstBit-skip fuel b r i tbl small (omega arith) e
        (find_bit-first fuel b r (i + 1) j tbl small (omega arith) (omega arith) lt8 set)
]

-- `m` is the least ready priority, not above `p`, and the table is as it was.
abbrev pub Least : Tbl → ℕ → ℕ → Tbl → Type 0
Least tbl p m tbl' =
    (tbl' ≡ tbl) × (is_ready tbl m ≡ true) × (m ≤ p) × ((q : ℕ) → q < m → is_ready tbl q ≡ false)

module _ {tbl : Tbl} (v : IsTbl tbl) where
  row_nonzero : (p : ℕ) → is_ready tbl p ≡ true → get_or tbl (p / 8) 0 ≢ 0
  row_nonzero p on zeroed =
      let off : bit_test (get_or tbl (p / 8) 0) (p % 8) ≡ false =
        rw zeroed (bit_test-zero (p % 8) (omega arith)) in
      cc

  not-ready-before :
      (r m : ℕ)
      → ((i : ℕ) → i < r → get_or tbl i 0 ≡ 0)
      → ((q : ℕ) → 0 ≤ q → q < m → bit_test (get_or tbl r 0) q ≡ false)
      → (q : ℕ) → q < 8 * r + m
      → m < 8
      → is_ready tbl q ≡ false
  not-ready-before r m rows bits q lt lt8 = elim (Bool-cases (q / 8 == r)) [
    | inl e ↦
        rw (eq_of_== (q / 8) r e) (bits (q % 8) (omega arith) (omega (arith, eq_of_== (q / 8) r e)))
    | inr e ↦
        rw (rows (q / 8) (omega (arith, ne_of_== (q / 8) r e)))
          (bit_test-zero (q % 8) (omega arith))
  ]

  least :
      (rows : FirstRow tbl 0 tbl) (bit : FirstBit 8 (get_or tbl rows.k 0) rows.k 0 tbl) (p : ℕ)
      → is_ready tbl p ≡ true
      → Returns (Least tbl p) (os_prio_get_highest tbl)
  unfolding os_prio_get_highest
  least rows bit p on = rw (rows.run, bit_at, bit.run) (returns (refl, ready, above, before))
    where
      bit_at : 0 + 8 * rows.k ≡ 8 * rows.k + 0
      bit_at = omega arith

      same_row : (8 * rows.k + bit.m) / 8 ≡ rows.k
      same_row = omega (arith, bit.inside)

      same_bit : (8 * rows.k + bit.m) % 8 ≡ bit.m
      same_bit = omega (arith, bit.inside)

      ready : is_ready tbl (8 * rows.k + bit.m) ≡ true
      ready = rw (same_row, same_bit) bit.found

      before : (q : ℕ) → q < 8 * rows.k + bit.m → is_ready tbl q ≡ false
      before q lt = not-ready-before rows.k bit.m rows.before bit.before q lt bit.inside

      above : 8 * rows.k + bit.m ≤ p
      above = elim (dec_lt p (8 * rows.k + bit.m)) [
        | yes lt ↦ let off : is_ready tbl p ≡ false = before p lt in cc
        | no ge ↦ omega arith
      ]

  -- If some priority is marked in a table of at most 256 bytes, `os_prio_get_highest` neither reads
  -- outside the table nor loops, and returns the least marked priority.
  pub get_highest-Least :
      (p : ℕ) → is_ready tbl p ≡ true → Returns (Least tbl p) (os_prio_get_highest tbl)
  unfolding os_prio_get_highest
  get_highest-Least p on =
      let rows = skip_rows-first tbl 0 (p / 8) tbl (omega (arith, v.rows)) (row_nonzero p on) in
      let (j, lt, set) = bit_of_ne_zero (get_or tbl rows.k 0) (v.bytes rows.k) rows.found in
      let bit =
        find_bit-first 8 (get_or tbl rows.k 0) rows.k 0 j tbl (omega (arith, v.rows, rows.inside))
          (omega arith) (omega arith) lt set in
      least rows bit p on
