-- ===== src/Prio/Bits.antt =====
-- Single bits of a byte of the priority table, counted from the highest, checked over all bytes.
use Prim.Native.Nat.{bit_and, bit_or}
use ak_m_os_the_simple_rtos.Base.{
  ℕ, zero, suc, ◌<◌, ◌≡◌, inl, inr, Bool-cases, refl, ◌≢◌, Bool, true, false, not, ◌&&◌, ◌||◌,
  arith, ◌==◌, ltb, all_below, all_below_sound,
}
use ak_m_os_the_simple_rtos.Prio.{mask, complement}

-- bit `i` of the row `b` is set
unfoldable pub bit_test : ℕ → ℕ → Bool
bit_test b i = not (bit_and b (mask i) == 0)

abbrev same : Bool → Bool → Bool
same true b = b
same false b = not b

eq_of_same : (a b : Bool) → same a b ≡ true → a ≡ b
eq_of_same a b h = ground arith

or_row : ℕ → ℕ → ℕ → Bool
unfolding bit_test
or_row b i j = same (bit_test (bit_or b (mask i)) j) ((j == i) || bit_test b j)

and_row : ℕ → ℕ → ℕ → Bool
unfolding bit_test
and_row b i j = same (bit_test (bit_and b (complement (mask i))) j) (not (j == i) && bit_test b j)

for_bits : (ℕ → ℕ → ℕ → Bool) → Bool
for_bits p = all_below 256 λ b. all_below 8 λ i. all_below 8 λ j. p b i j

for_bits_sound :
    (p : ℕ → ℕ → ℕ → Bool)
    → for_bits p ≡ true
    → (b i j : ℕ) → b < 256
    → i < 8
    → j < 8
    → p b i j ≡ true
unfolding for_bits
for_bits_sound p h b i j hb hi hj =
    all_below_sound 8 (p b i) j
      (all_below_sound 8 (λ i. all_below 8 λ j. p b i j) i
        (all_below_sound 256 (λ b. all_below 8 λ i. all_below 8 λ j. p b i j) b h hb) hi)
      hj

or_table : for_bits or_row ≡ true
unfolding for_bits or_row
or_table = refl

and_table : for_bits and_row ≡ true
unfolding for_bits and_row
and_table = refl

pub bit_test-or :
    (b i j : ℕ)
    → b < 256
    → i < 8
    → j < 8
    → bit_test (bit_or b (mask i)) j ≡ ((j == i) || bit_test b j)
unfolding or_row
bit_test-or b i j hb hi hj = eq_of_same _ _ (for_bits_sound or_row or_table b i j hb hi hj)

pub bit_test-and :
    (b i j : ℕ)
    → b < 256
    → i < 8
    → j < 8
    → bit_test (bit_and b (complement (mask i))) j ≡ (not (j == i) && bit_test b j)
unfolding and_row
bit_test-and b i j hb hi hj = eq_of_same _ _ (for_bits_sound and_row and_table b i j hb hi hj)

byte_row : ℕ → ℕ → ℕ → Bool
byte_row b i j = ltb (bit_or b (mask i)) 256 && ltb (bit_and b (complement (mask i))) 256

byte_table : for_bits byte_row ≡ true
unfolding for_bits byte_row
byte_table = refl

pub mask_bytes :
    (b i : ℕ)
    → b < 256
    → i < 8
    → (bit_or b (mask i) < 256) × (bit_and b (complement (mask i)) < 256)
unfolding byte_row
mask_bytes b i hb hi = ground (arith, for_bits_sound byte_row byte_table b i 0 hb hi)

zero_row : ℕ → Bool
unfolding bit_test
zero_row i = not (bit_test 0 i)

zero_table : all_below 8 zero_row ≡ true
unfolding zero_row
zero_table = refl

pub bit_test-zero : (i : ℕ) → i < 8 → bit_test 0 i ≡ false
unfolding zero_row
bit_test-zero i h = ground (arith, all_below_sound 8 zero_row i zero_table)

any_below : ℕ → (ℕ → Bool) → Bool
any_below zero p = false
any_below (suc n) p = p n || any_below n p

any_below_sound : (n : ℕ) (p : ℕ → Bool) → any_below n p ≡ true → (j : ℕ) × (j < n) × (p j ≡ true)
unfolding any_below
any_below_sound zero p h = cc
any_below_sound (suc n) p h = elim (Bool-cases (p n)) [
  | inl e ↦ (n, omega arith, e)
  | inr e ↦ let (j, lt, found) = any_below_sound n p (ground arith) in (j, omega arith, found)
]

some_bit : ℕ → Bool
unfolding bit_test any_below
some_bit b = (b == 0) || any_below 8 (bit_test b)

some_table : all_below 256 some_bit ≡ true
unfolding some_bit
some_table = refl

-- A row that is not zero has a bit set.
pub bit_of_ne_zero : (b : ℕ) → b < 256 → b ≢ 0 → (j : ℕ) × (j < 8) × (bit_test b j ≡ true)
unfolding some_bit
bit_of_ne_zero b hb h =
    any_below_sound 8 (bit_test b) (ground (arith, all_below_sound 256 some_bit b some_table))
