-- ===== src/Cpu/Registers.antt =====
-- Saving registers in memory, and loading them from it.
use ak_m_os_the_simple_rtos.Base.{
  ℕ, zero, suc, ◌+◌, ◌*◌, ◌^◌, ◌<◌, ◌≤◌, ◌≡◌, refl, sym, ◌∙◌, ◌≢◌, ◌⊎◌, inl, inr, arith, update,
  add32, Returns, returns, mono,
}
use ak_m_os_the_simple_rtos.OsList.{Ptr}
use ak_m_os_the_simple_rtos.OsList.Store.{update_self, update_else}
use ak_m_os_the_simple_rtos.Task.{Kern}
use ak_m_os_the_simple_rtos.Cpu.{store_regs, load_regs}

-- The first of a run of words and registers, and the rest of them.
run_of :
    (words regs : ℕ → ℕ) (n r : ℕ) (p : Ptr)
    → words p ≡ regs r
    → ((i : ℕ) → i < n → words (p + 4 + 4 * i) ≡ regs (r + 1 + i))
    → (i : ℕ) → i < suc n
    → words (p + 4 * i) ≡ regs (r + i)
run_of words regs n r p first rest zero lt =
    let at : p + 4 * 0 ≡ p = omega arith in let reg : r + 0 ≡ r = omega arith in rw (at, reg) first
run_of words regs n r p first rest (suc i) lt =
    let at : p + 4 * suc i ≡ p + 4 + 4 * i = omega arith in
    let reg : r + suc i ≡ r + 1 + i = omega arith in rw (at, reg) (rest i (omega (arith, lt)))

-- `n` registers from `r` on are in the words from `p` on, and no other word has changed.
abbrev pub Stored : ℕ → ℕ → Ptr → Kern → Kern → Type 0
Stored n r p s s' =
    (s' ≡ record s { words = s'.words })
    × ((i : ℕ) → i < n → s'.words (p + 4 * i) ≡ s.regs (r + i))
    × ((a : Ptr) → (a < p) ⊎ (p + 4 * n ≤ a) → s'.words a ≡ s.words a)

pub store_regs-Stored :
    (n r : ℕ) (p : Ptr) (s : Kern)
    → p + 4 * n < 2 ^ 32
    → Returns (λ _. Stored n r p s) (store_regs n r p s)
unfolding store_regs
store_regs-Stored zero r p s room = returns (refl, λ i lt. absurd (omega arith), λ a o. refl)
store_regs-Stored (suc n) r p s room =
    let next : add32 p 4 ≡ p + 4 = omega (arith, room) in
    rw next (
      mono
        (store_regs-Stored n (r + 1) (p + 4) (record s { words = update s.words p (s.regs r) })
          (omega (arith, room)))
        (λ _ s' st. (
          st.0,
          run_of s'.words s.regs n r p
              (st.2 p (inl (omega arith)) ∙ update_self s.words p (s.regs r)) st.1,
          λ a o. st.2 a (further a o) ∙ update_else s.words p a (s.regs r) (other a o),
        )))
  where
    further : (a : Ptr) → (a < p) ⊎ (p + 4 * suc n ≤ a) → (a < p + 4) ⊎ (p + 4 + 4 * n ≤ a)
    further a (inl lt) = inl (omega arith)
    further a (inr le) = inr (omega arith)

    other : (a : Ptr) → (a < p) ⊎ (p + 4 * suc n ≤ a) → a ≢ p
    other a (inl lt) = omega arith
    other a (inr le) = omega arith

-- The words from `p` on are in `n` registers from `r` on, and no register before those has changed.
abbrev pub Loaded : ℕ → ℕ → Ptr → Kern → Kern → Type 0
Loaded n r p s s' =
    (s' ≡ record s { regs = s'.regs })
    × ((i : ℕ) → i < n → s'.regs (r + i) ≡ s.words (p + 4 * i))
    × ((q : ℕ) → q < r → s'.regs q ≡ s.regs q)

pub load_regs-Loaded :
    (n r : ℕ) (p : Ptr) (s : Kern)
    → p + 4 * n < 2 ^ 32
    → Returns (λ _. Loaded n r p s) (load_regs n r p s)
unfolding load_regs
load_regs-Loaded zero r p s room = returns (refl, λ i lt. absurd (omega arith), λ a o. refl)
load_regs-Loaded (suc n) r p s room =
    let next : add32 p 4 ≡ p + 4 = omega (arith, room) in
    rw next (
      mono
        (load_regs-Loaded n (r + 1) (p + 4) (record s { regs = update s.regs r (s.words p) })
          (omega (arith, room)))
        (λ _ s' st. (
          st.0,
          λ i lt. sym (
              run_of s.words s'.regs n r p
                (sym (st.2 r (omega arith) ∙ update_self s.regs r (s.words p)))
                (λ j less. sym (st.1 j less)) i lt),
          λ q lt.
              st.2 q (omega (arith, lt)) ∙ update_else s.regs r q (s.words p) (omega (arith, lt)),
        )))
